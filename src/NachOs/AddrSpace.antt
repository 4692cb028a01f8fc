-- ===== src/NachOs/AddrSpace.antt =====
-- The address spaces (nachOS/code/userprog/addrspace.cc) over the bit map of the physical pages, the
-- number of threads on each page (`threadsOnPhyPage`, of 32 places) and the machine's memory.
use server_load_balancer_cli.Prelude.{
  ℕ, zero, suc, ◌+◌, ◌-◌, ◌/◌, ◌%◌, ◌^◌, Bool, true, false, Option, none, some, List, [], ◌∷◌, ◌++◌,
  length, set, get_elem?, take, drop, ◌>>=◌, ltb, leb, if◌then◌else◌,
}
use server_load_balancer_cli.Prelude.Int.{ℤ, pos, negsuc, ◌+ℤ◌, ◌-ℤ◌, eqb_ℤ}
use server_load_balancer_cli.Prelude.Text.{Bytes}
use server_load_balancer_cli.NachOs.Base.{BitMap}

pub record Segment : Type 0 where
  pub size : ℕ
  pub virtual_addr : ℕ
  pub in_file_addr : ℕ

pub record NoffHeader : Type 0 where
  pub noff_magic : ℕ
  pub code : Segment
  pub init_data : Segment
  pub uninit_data : Segment

-- The executable: its first bytes as a header, and `ReadAt(…, count, position)`.
pub record OpenFile : Type 0 where
  pub header : NoffHeader
  pub ReadAt : ℕ → ℕ → Bytes

pub record TranslationEntry : Type 0 where
  pub virtual_page : ℕ
  pub physical_page : ℕ
  pub valid : Bool
  pub use_bit : Bool
  pub dirty : Bool
  pub read_only : Bool

pub record AddrSpace : Type 0 where
  pub page_table : List TranslationEntry
  pub num_pages : ℕ
  pub noff_h : NoffHeader

abbrev pub page_size : ℕ
page_size = 4096

abbrev pub num_phys_pages : ℕ
num_phys_pages = 1024

abbrev pub user_stack_size : ℕ
user_stack_size = 1024

abbrev pub magic_number : ℕ
magic_number = 12246957

abbrev pub pages_of_counts : ℕ
pages_of_counts = 32

-- `divRoundUp` takes an `int`, which an unsigned size above 2^31 makes negative.
unfoldable pub div_round_up : ℕ → ℕ → ℕ
div_round_up n s =
    if ltb n (2 ^ 31)
    then n / s + (if ltb 0 (n % s) then 1 else 0)
    else (2 ^ 32 - (2 ^ 32 - n) / s) % 2 ^ 32

unfoldable pub swap_segment : (ℕ → ℕ) → Segment → Segment
swap_segment word_to_host s = record {
  size = word_to_host s.size;
  virtual_addr = word_to_host s.virtual_addr;
  in_file_addr = word_to_host s.in_file_addr;
}

unfoldable pub swap_header : (ℕ → ℕ) → NoffHeader → NoffHeader
unfolding swap_segment
swap_header word_to_host h = record {
  noff_magic = word_to_host h.noff_magic;
  code = swap_segment word_to_host h.code;
  init_data = swap_segment word_to_host h.init_data;
  uninit_data = swap_segment word_to_host h.uninit_data;
}

-- `size_copyable` and `size_real`, in 32 bits.
abbrev pub size_copyable : NoffHeader → ℕ
size_copyable h = (h.code.size + h.init_data.size) % 2 ^ 32

abbrev pub size_real : NoffHeader → ℕ
size_real h = (size_copyable h + h.uninit_data.size + user_stack_size) % 2 ^ 32

unfoldable pub pages_copyable : NoffHeader → ℕ
unfolding div_round_up
pages_copyable h = div_round_up (size_copyable h) page_size

unfoldable pub pages_real : NoffHeader → ℕ
unfolding div_round_up
pages_real h = div_round_up (size_real h) page_size

-- A write to memory that would pass its end is undefined.
unfoldable pub poner : List ℕ → ℕ → Bytes → Option (List ℕ)
poner memoria p bs =
    if leb (p + length bs) (length memoria)
    then some (take p memoria ++ (bs ++ drop (p + length bs) memoria))
    else none

abbrev pub ceros : ℕ → Bytes
ceros zero = []
ceros (suc n) = 0 ∷ ceros n

-- `threadsOnPhyPage[p]++` and `--`: `none` outside the 32 places.
unfoldable pub cambiar : (ℤ → ℤ) → List ℤ → ℕ → Option (List ℤ)
cambiar f cuentas p = get_elem? cuentas p >>= λ c. some (set cuentas p (f c))

abbrev pub una_mas : ℤ → ℤ
una_mas c = c +ℤ pos 1

abbrev pub una_menos : ℤ → ℤ
una_menos c = c -ℤ pos 1

abbrev pub entrada_nueva : ℕ → ℕ → TranslationEntry
entrada_nueva i p = record {
  virtual_page = i;
  physical_page = p;
  valid = true;
  use_bit = false;
  dirty = false;
  read_only = false;
}

module _ (m : BitMap) where
  -- The globals `memoryBitMap` and `threadsOnPhyPage`.
  pub record Paginas : Type 0 where
    pub memory_bit_map : m.Bits
    pub threads_on_phy_page : List ℤ

  -- `Find` gives -1 where no page is left, and the count at -1 is outside the array.
  unfoldable pub reservar_hallada : ℕ → List ℤ → ℤ × m.Bits → Option (TranslationEntry × Paginas)
  unfolding cambiar
  reservar_hallada i cuentas (pos p, b) = cambiar una_mas cuentas p >>= λ cs.
      some (entrada_nueva i p, record { memory_bit_map = b; threads_on_phy_page = cs })
  reservar_hallada i cuentas (negsuc n, b) = none

  unfoldable pub reservar_pagina : ℕ → Paginas → Option (TranslationEntry × Paginas)
  unfolding reservar_hallada
  reservar_pagina i ps = reservar_hallada i ps.threads_on_phy_page (m.find ps.memory_bit_map)

  -- The loop over the pages from `i` on, `n` of them.
  unfoldable pub reservar : ℕ → ℕ → Paginas → Option (List TranslationEntry × Paginas)
  unfolding reservar_pagina
  reservar zero i ps = some ([], ps)
  reservar (suc n) i ps = reservar_pagina i ps >>= λ (e, ps₂).
      reservar n (suc i) ps₂ >>= λ (es, ps₃). some (e ∷ es, ps₃)

  -- The pages that a copy shares with its source: the first `n` entries.
  unfoldable pub compartir :
      ℕ → List TranslationEntry → Paginas → Option (List TranslationEntry × Paginas)
  unfolding cambiar
  compartir zero t ps = some ([], ps)
  compartir (suc n) [] ps = none
  compartir (suc n) (e ∷ t) ps = cambiar una_mas ps.threads_on_phy_page e.physical_page >>= λ cs.
      compartir n t (record ps { threads_on_phy_page = cs }) >>= λ (es, ps₂). some (e ∷ es, ps₂)

  -- `if (threadsOnPhyPage[p] == 0) memoryBitMap->Clear(p)`.
  unfoldable pub limpiar : ℕ → Paginas → Option Paginas
  limpiar p ps = get_elem? ps.threads_on_phy_page p >>= λ c.
      let libre = m.clear ps.memory_bit_map p >>= λ b. some (record ps { memory_bit_map = b }) in
      if eqb_ℤ c (pos 0) then libre else some ps

  unfoldable pub liberar_pagina : ℕ → Paginas → Option Paginas
  unfolding cambiar limpiar
  liberar_pagina p ps = cambiar una_menos ps.threads_on_phy_page p >>= λ cs.
      limpiar p (record ps { threads_on_phy_page = cs })

  -- The destructor.
  unfoldable pub liberar : List TranslationEntry → Paginas → Option Paginas
  unfolding liberar_pagina
  liberar [] ps = some ps
  liberar (e ∷ t) ps = liberar_pagina e.physical_page ps >>= λ ps₂. liberar t ps₂
