-- ===== src/NachOs/Carga.antt =====
-- The constructors of an address space (nachOS/code/userprog/addrspace.cc), with the bytes that they
-- place in the machine's memory.
use server_load_balancer_cli.Prelude.{
  ℕ, zero, suc, ◌+◌, ◌-◌, ◌*◌, ◌%◌, ◌^◌, not, ◌&&◌, Option, none, some, List, [], ◌∷◌, ◌++◌, set,
  get_elem?, ◌>>=◌, ltb, leb, ◌==◌, if◌then◌else◌,
}
use server_load_balancer_cli.Prelude.Int.{pos, int32}
use server_load_balancer_cli.NachOs.Base.{BitMap, Maquina, pc_reg, next_pc_reg}
use server_load_balancer_cli.NachOs.Resultado.{Resultado, abortado, o_indefinido}
use server_load_balancer_cli.NachOs.AddrSpace.{
  NoffHeader, OpenFile, TranslationEntry, AddrSpace, Paginas, page_size, num_phys_pages,
  magic_number, swap_header, size_copyable, size_real, pages_copyable, pages_real, poner, ceros,
  reservar, compartir,
}

-- `pageTable[0].physicalPage`.
abbrev pub primera : List TranslationEntry → Option ℕ
primera [] = none
primera (e ∷ t) = some e.physical_page

-- The loop that reads the program, over the first `n` entries: the place in the file moves with the
-- physical page.
unfoldable pub leer_paginas :
    OpenFile → NoffHeader → ℕ → List TranslationEntry → List ℕ → Option (List ℕ)
unfolding poner
leer_paginas f h zero t memoria = some memoria
leer_paginas f h (suc n) [] memoria = none
leer_paginas f h (suc n) (e ∷ t) memoria =
    poner memoria (h.code.virtual_addr + e.physical_page * page_size)
      (f.ReadAt page_size (h.code.in_file_addr + e.physical_page * page_size))
    >>= λ memoria₂. leer_paginas f h n t memoria₂

-- `mainMemory[a + i] = mainMemory[b + i]` from `i` on, `n` times.
unfoldable pub copiar_bytes : ℕ → ℕ → ℕ → ℕ → List ℕ → Option (List ℕ)
copiar_bytes zero i a b memoria = some memoria
copiar_bytes (suc n) i a b memoria = get_elem? memoria (b + i) >>= λ c.
    get_elem? memoria (a + i) >>= λ viejo. copiar_bytes n (suc i) a b (set memoria (a + i) c)

-- The loop that copies the pages from the source's.
unfoldable pub copiar_paginas :
    NoffHeader → ℕ → List TranslationEntry → List TranslationEntry → List ℕ → Option (List ℕ)
unfolding copiar_bytes
copiar_paginas h zero t origen memoria = some memoria
copiar_paginas h (suc n) (e ∷ t) (o ∷ origen) memoria =
    copiar_bytes page_size 0 (h.code.virtual_addr + e.physical_page * page_size)
      (h.code.virtual_addr + o.physical_page * page_size) memoria
    >>= λ memoria₂. copiar_paginas h n t origen memoria₂
copiar_paginas h (suc n) t origen memoria = none

-- The header, its byte order turned where the magic number is found only then.
unfoldable pub cabecera : (ℕ → ℕ) → NoffHeader → NoffHeader
unfolding swap_header
cabecera word_to_host h =
    if not (h.noff_magic == magic_number) && (word_to_host h.noff_magic == magic_number)
    then swap_header word_to_host h
    else h

-- The memory after a load: from the first page times the size of the segment on it is cleared, and the
-- program's pages are read.
unfoldable pub llenar : OpenFile → NoffHeader → List TranslationEntry → List ℕ → Option (List ℕ)
unfolding poner leer_paginas
llenar f h t memoria = primera t >>= λ p.
    poner memoria (pages_real h * page_size * p) (ceros (pages_real h * page_size)) >>= λ limpia.
    leer_paginas f h (pages_copyable h) t limpia

-- The memory after a copy, which clears behind the program's size.
unfoldable pub copiar :
    NoffHeader → List TranslationEntry → List TranslationEntry → List ℕ → Option (List ℕ)
unfolding poner copiar_paginas
copiar h t origen memoria = primera t >>= λ p.
    poner memoria (size_copyable h + pages_real h * page_size * p)
      (ceros ((size_real h + 2 ^ 32 - size_copyable h) % 2 ^ 32))
    >>= λ limpia. copiar_paginas h (pages_copyable h) t origen limpia

module _ (m : BitMap) where
  -- What the constructors change: the pages and the memory.
  pub record Fisica : Type 0 where
    pub paginas : Paginas m
    pub main_memory : List ℕ

  unfoldable pub cargar_programa : OpenFile → NoffHeader → Fisica → Option (AddrSpace × Fisica)
  unfolding llenar reservar
  cargar_programa f h x =
      let n = pages_real h in
      reservar m n 0 x.paginas >>= λ (t, ps). llenar f h t x.main_memory >>= λ memoria. some (
        record { page_table = t; num_pages = n; noff_h = h },
        record { paginas = ps; main_memory = memoria },
      )

  unfoldable pub cargar :
      {S : Type 0} → (ℕ → ℕ) → OpenFile → Fisica → Resultado S (AddrSpace × Fisica)
  unfolding cabecera cargar_programa
  cargar word_to_host f x =
      let h = cabecera word_to_host f.header in
      if (h.noff_magic == magic_number) && leb (pages_real h) num_phys_pages
      then o_indefinido (cargar_programa f h x)
      else abortado

  -- The copy constructor: the program's pages are shared, the others are new. A table with fewer
  -- entries than the program has pages would be written outside.
  unfoldable pub duplicar : AddrSpace → Fisica → Option (AddrSpace × Fisica)
  unfolding copiar reservar compartir
  duplicar source x =
      let h = source.noff_h in
      let n = pages_real h in
      let k = pages_copyable h in
      let copia = compartir m k source.page_table x.paginas >>= λ (t, ps).
      reservar m (n - k) k ps >>= λ (t₂, ps₂).
      copiar h (t ++ t₂) source.page_table x.main_memory >>= λ memoria. some (
        record { page_table = t ++ t₂; num_pages = n; noff_h = h },
        record { paginas = ps₂; main_memory = memoria },
      ) in
      if ltb n k then none else copia

module _ (m : Maquina) where
  -- The loop of `InitRegisters`: registers `i` on, `n` of them, are 0.
  unfoldable pub poner_ceros : ℕ → ℕ → m.Estado → m.Estado
  poner_ceros zero i e = e
  poner_ceros (suc n) i e = poner_ceros n (suc i) (m.WriteRegister e i (pos 0))

  -- The stack starts 16 bytes below the end.
  unfoldable pub init_registers : AddrSpace → m.Estado → m.Estado
  unfolding poner_ceros int32
  init_registers a e =
      m.WriteRegister
        (m.WriteRegister (m.WriteRegister (poner_ceros 40 0 e) pc_reg (pos 0)) next_pc_reg (pos 4))
        29 (int32 (a.num_pages * page_size + 2 ^ 32 - 16))
