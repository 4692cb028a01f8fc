-- ===== src/NachOs/Modelo.antt =====
-- A bit map, a machine and a host, on which the theorems on nachOS/code/userprog are tried.
use server_load_balancer_cli.Prelude.{
  ℕ, zero, suc, ◌<◌, ◌≡◌, ◌≢◌, refl, ap, ◌∙◌, sym, Bool, true, false, ◌||◌, ◌⊎◌, Option, none, some,
  List, [], ◌∷◌, length, set, length-set, ltb, lt→ltb, ◌==◌, ==_refl, ==_iff, if◌then◌else◌, arith,
  Bool-cases, inl, inr,
}
use server_load_balancer_cli.Prelude.Int.{ℤ, pos, negsuc, eqb_ℤ}
use server_load_balancer_cli.Prelude.Text.{Bytes}
use server_load_balancer_cli.NachOs.Base.{
  BitMap, Mapas, Maquina, Registros, Unix, Base, Acceso, hecho, excepcion, Fallo,
}
use server_load_balancer_cli.NachOs.Copia.{char_de, int_de}
use server_load_balancer_cli.NachOs.IdaVuelta.{Memoria}

abbrev pub apagados : ℕ → List Bool
apagados zero = []
apagados (suc n) = false ∷ apagados n

abbrev pub bit_de : List Bool → ℕ → Bool
bit_de [] i = false
bit_de (b ∷ bs) zero = b
bit_de (b ∷ bs) (suc i) = bit_de bs i

abbrev pub marcar : Bool → List Bool → ℕ → Option (List Bool)
marcar v bs i = if ltb i (length bs) then some (set bs i v) else none

abbrev pub probar : List Bool → ℕ → Option Bool
probar bs i = if ltb i (length bs) then some (bit_de bs i) else none

abbrev pub uno_mas : Bool → ℤ × List Bool → ℤ × List Bool
uno_mas b (pos n, bs) = (pos (suc n), b ∷ bs)
uno_mas b (negsuc n, bs) = (negsuc n, b ∷ bs)

abbrev pub hallar : List Bool → ℤ × List Bool
hallar [] = (negsuc 0, [])
hallar (false ∷ bs) = (pos 0, true ∷ bs)
hallar (true ∷ bs) = uno_mas true (hallar bs)

abbrev pub mapa : BitMap
mapa = record {
  Bits = List Bool;
  nuevo = apagados;
  mark = marcar true;
  clear = marcar false;
  test = probar;
  find = hallar;
}

pub length-apagados : (n : ℕ) → length (apagados n) ≡ n
length-apagados zero = refl
length-apagados (suc n) = ap suc (length-apagados n)

pub bit-apagados : (n i : ℕ) → bit_de (apagados n) i ≡ false
bit-apagados zero i = refl
bit-apagados (suc n) zero = refl
bit-apagados (suc n) (suc i) = bit-apagados n i

pub bit-set :
    (v : Bool) (bs : List Bool) (i j : ℕ)
    → i < length bs
    → bit_de (set bs i v) j ≡ (if i == j then v else bit_de bs j)
bit-set v [] i j h = absurd (omega arith)
bit-set v (b ∷ bs) zero zero h = refl
bit-set v (b ∷ bs) zero (suc j) h = ground arith
bit-set v (b ∷ bs) (suc i) zero h = ground arith
bit-set v (b ∷ bs) (suc i) (suc j) h = ground (arith, bit-set v bs i j)

pub o_si : (c d : Bool) → (if c then true else d) ≡ (c || d)
o_si true d = refl
o_si false d = refl

pub hallar_lem :
    (bs : List Bool)
    → (hallar bs ≡ (negsuc 0, bs))
      ⊎ ((i : ℕ) × (cs : List Bool) × (hallar bs ≡ (pos i, cs))
          × (i < length bs)
          × (bit_de bs i ≡ false)
          × (length cs ≡ length bs)
          × ((j : ℕ) → bit_de cs j ≡ ((i == j) || bit_de bs j)))
hallar_lem [] = inl refl
hallar_lem (false ∷ bs) =
    inr (0, true ∷ bs, refl, omega arith, refl, refl, λ j. primero_marcado bs j)
  where
    primero_marcado :
        (bs : List Bool) (j : ℕ) → bit_de (true ∷ bs) j ≡ ((0 == j) || bit_de (false ∷ bs) j)
    primero_marcado bs zero = refl
    primero_marcado bs (suc j) = ground arith
hallar_lem (true ∷ bs) = elim (hallar_lem bs) [
  | inl e ↦ inl (rw e refl)
  | inr (i, cs, e, h, libre, n, cada) ↦
      inr (suc i, true ∷ cs, rw e refl, omega arith, libre, ap suc n, siguiente bs cs i cada)
]
  where
    siguiente :
        (bs cs : List Bool) (i : ℕ)
        → ((j : ℕ) → bit_de cs j ≡ ((i == j) || bit_de bs j))
        → (j : ℕ) → bit_de (true ∷ cs) j ≡ ((suc i == j) || bit_de (true ∷ bs) j)
    siguiente bs cs i h zero = ground arith
    siguiente bs cs i h (suc j) = ground (arith, h j)

unfoldable pub mapas : Mapas mapa
mapas = record {
  num_bits = length;
  bit = bit_de;
  num_bits-nuevo = length-apagados;
  bit-nuevo = bit-apagados;
  mark_lem = λ b. λ i. λ h. (
    set b i true,
    rw (lt→ltb i (length b) h) refl,
    length-set b i true,
    λ j. bit-set true b i j h ∙ o_si (i == j) (bit_de b j),
  );
  clear_lem = λ b. λ i. λ h. (
    set b i false,
    rw (lt→ltb i (length b) h) refl,
    length-set b i false,
    λ j. bit-set false b i j h,
  );
  test_lem = λ b. λ i. λ h. rw (lt→ltb i (length b) h) refl;
  find_lem = hallar_lem;
}

-- The registers and the memory.
pub record Simulada : Type 0 where
  pub registros : ℕ → ℤ
  pub memoria : ℤ → ℕ

abbrev pub simulada : Maquina
simulada = record {
  Estado = Simulada;
  read_register = λ e. λ r. e.registros r;
  WriteRegister = λ e. λ r. λ v. record e { registros = λ q. if r == q then v else e.registros q };
  ReadMem = λ e. λ a. hecho (int_de (e.memoria a));
  WriteMem = λ e.
      λ a. λ v. hecho (record e { memoria = λ c. if eqb_ℤ a c then char_de v else e.memoria c });
}

pub distinto : (r q : ℕ) → q ≢ r → (r == q) ≡ false
distinto r q h = elim (Bool-cases (r == q)) [
  | inl e ↦ absurd (h (sym ((==_iff r q).0 e)))
  | inr e ↦ e
]

pub eqb_ℤ_refl : (a : ℤ) → eqb_ℤ a a ≡ true
eqb_ℤ_refl (pos n) = rw (==_refl n) refl
eqb_ℤ_refl (negsuc n) = rw (==_refl (suc n)) refl

eqb_ℤ_sound : (a c : ℤ) → eqb_ℤ a c ≡ true → a ≡ c
eqb_ℤ_sound a c h = ground arith

pub otro_lugar : (a c : ℤ) → c ≢ a → eqb_ℤ a c ≡ false
otro_lugar a c h = elim (Bool-cases (eqb_ℤ a c)) [
  | inl e ↦ absurd (h (sym (eqb_ℤ_sound a c e)))
  | inr e ↦ e
]

unfoldable pub registros_simulados : Registros simulada
registros_simulados = record {
  read-write = λ e. λ r. λ v. rw (==_refl r) refl;
  read_other = λ e. λ r. λ q. λ v. λ h. rw (distinto r q h) refl;
  read_pc = λ e. λ f. λ a. λ x. λ h. absurd (hecho_excepcion h);
  write_pc = λ e. λ f. λ a. λ v. λ h.
      (ap (λ z. z.registros 34) (hecho_inj (sym h)), ap (λ z. z.registros 35) (hecho_inj (sym h)));
  fault_pc = λ e. λ f. λ a. λ v. λ x. λ h. absurd (hecho_excepcion h);
}
  where
    hecho_excepcion :
        {M A : Type 0} {a : A} {x : Fallo} {f : M}
        → ◌≡◌ {A = Acceso M A} (hecho a) (excepcion x f)
        → ⊥
    hecho_excepcion h = cc

    hecho_inj : {M A : Type 0} {a b : A} → ◌≡◌ {A = Acceso M A} (hecho a) (hecho b) → a ≡ b
    hecho_inj h = cc

unfoldable pub memoria_simulada : Memoria simulada
memoria_simulada = record {
  byte = λ e. λ a. e.memoria a;
  mapeada = λ e. λ a. true;
  ReadMem_lem = λ e. λ a. λ h. refl;
  WriteMem_lem = λ e. λ a. λ v. λ h. (
    record e { memoria = λ c. if eqb_ℤ a c then char_de v else e.memoria c },
    refl,
    rw (eqb_ℤ_refl a) refl,
    λ c. λ ne. rw (otro_lugar a c ne) refl,
    λ c. refl,
  );
}

-- A host on which every call fails.
abbrev pub anfitrion : Unix
anfitrion = record {
  Mundo = Unit {0};
  crear = λ u. λ ruta. (negsuc 0, u);
  abrir = λ u. λ ruta. (negsuc 0, u);
  lseek = λ u. λ fd. λ p. u;
  write = λ u. λ fd. λ bs. (negsuc 0, u);
  recv = λ u. λ fd. λ n. ([], negsuc 0, u);
  close = λ u. λ fd. u;
  scanf = λ u. (none, u);
  printf = λ u. λ bs. u;
  socket = λ u. λ f. λ t. (negsuc 0, u);
  getsockname = λ u. λ fd. none;
  connect = λ u. λ fd. λ a. (negsuc 0, u);
  bind = λ u. λ fd. λ a. (negsuc 0, u);
  listen = λ u. λ fd. λ n. (negsuc 0, u);
  accept = λ u. λ fd. (negsuc 0, u);
  shutdown = λ u. λ fd. λ n. (negsuc 0, u);
  inet_addr = λ bs. 0;
  inet_pton = λ bs. none;
  af_inet = pos 2;
  af_inet6 = pos 10;
  sock_stream = pos 1;
  sock_dgram = pos 2;
  shut_rd = pos 0;
  shut_wr = pos 1;
  shut_rdwr = pos 2;
  inaddr_any = 0;
  in6addr_any = 0;
  nuevo_char = apagada;
  basura_int = pos 0;
  basura_direccion = 0;
}
  where
    apagada : ℕ → Bytes
    apagada zero = []
    apagada (suc n) = 0 ∷ apagada n

abbrev pub base : Base
base = record { bits = mapa; maquina = simulada; unix = anfitrion }
