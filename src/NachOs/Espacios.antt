-- ===== src/NachOs/Espacios.antt =====
-- The address spaces that are alive, and what loading, copying and destroying one does to the pages
-- (nachOS/code/userprog/addrspace.cc).
use server_load_balancer_cli.Prelude.{
  ℕ, zero, suc, ◌+◌, ◌-◌, ◌≡◌, refl, ap, ◌∙◌, sym, Bool, true, false, Option, none, some, some_inj,
  List, [], ◌∷◌, ◌++◌, get_elem?, erase_at, ◌>>=◌, ltb, if◌then◌else◌, arith,
}
use server_load_balancer_cli.NachOs.Base.{BitMap}
use server_load_balancer_cli.NachOs.Resultado.{Resultado, sigue, abortado, o_indefinido}
use server_load_balancer_cli.NachOs.AddrSpace.{
  AddrSpace, NoffHeader, OpenFile, TranslationEntry, Paginas, pages_real, pages_copyable, reservar,
  compartir,
}
use server_load_balancer_cli.NachOs.Carga.{
  Fisica, llenar, copiar, cabecera, cargar, cargar_programa, duplicar,
}
use server_load_balancer_cli.NachOs.Cuentas.{refs}

-- How many entries of the live spaces name the page.
abbrev pub refs_todas : List AddrSpace → ℕ → ℕ
refs_todas [] p = 0
refs_todas (a ∷ vivos) p = refs a.page_table p + refs_todas vivos p

pub refs_todas_at :
    (vivos : List AddrSpace) (i p : ℕ) {a : AddrSpace}
    → get_elem? vivos i ≡ some a
    → refs_todas vivos p ≡ refs a.page_table p + refs_todas (erase_at vivos i) p
refs_todas_at [] i p h = cc
refs_todas_at (b ∷ vivos) zero p h = ap (λ c. refs c.page_table p + refs_todas vivos p) (some_inj h)
refs_todas_at (b ∷ vivos) (suc i) p h = omega (arith, refs_todas_at vivos i p h)

pub refs-append : (t u : List TranslationEntry) (p : ℕ) → refs (t ++ u) p ≡ refs t p + refs u p
refs-append [] u p = omega arith
refs-append (e ∷ t) u p = omega (arith, refs-append t u p)

-- The first result of a chain that gives one.
bind_cases :
    {A B : Type 0} (o : Option A) (k : A → Option B) {b : B}
    → (o >>= k) ≡ some b
    → (a : A) × (o ≡ some a) × (k a ≡ some b)
bind_cases none k h = cc
bind_cases (some a) k h = (a, refl, h)

if_none :
    {A : Type 0} (c : Bool) (o : Option A) {b : A} → (if c then none else o) ≡ some b → o ≡ some b
if_none true o h = cc
if_none false o h = h

if_abortado :
    {S A : Type 0} (c : Bool) (o : Resultado S A) {b : A}
    → (if c then o else abortado) ≡ sigue b
    → o ≡ sigue b
if_abortado true o h = h
if_abortado false o h = cc

o_indefinido_cases :
    {S A : Type 0} (o : Option A) {b : A} → o_indefinido {S = S} o ≡ sigue b → o ≡ some b
o_indefinido_cases none h = cc
o_indefinido_cases (some a) h = cc

module _ (m : BitMap) where
  -- The constructor allocates the pages of its table, and nothing else changes the bit map.
  pub cargar_programa_cases :
      (f : OpenFile) (h : NoffHeader) (x : Fisica m) {a : AddrSpace} {y : Fisica m}
      → cargar_programa m f h x ≡ some (a, y)
      → reservar m (pages_real h) 0 x.paginas ≡ some (a.page_table, y.paginas)
  unfolding cargar_programa
  cargar_programa_cases f h x {a} {y} eq =
      let ((t, ps), r, k) = bind_cases (reservar m (pages_real h) 0 x.paginas) _ eq in
      let (memoria, r₂, k₂) = bind_cases (llenar f h t x.main_memory) _ k in
      r ∙ ap {A = AddrSpace × Fisica m} (λ v. some (v.0.page_table, v.1.paginas)) (some_inj k₂)

  pub cargar_cases :
      {S : Type 0} (w : ℕ → ℕ) (f : OpenFile) (x : Fisica m) {a : AddrSpace} {y : Fisica m}
      → cargar m {S = S} w f x ≡ sigue (a, y)
      → cargar_programa m f (cabecera w f.header) x ≡ some (a, y)
  unfolding cargar
  cargar_cases w f x {a} {y} eq = o_indefinido_cases _ (if_abortado _ _ eq)

  pub duplicar_cases :
      (o : AddrSpace) (x : Fisica m) {a : AddrSpace} {y : Fisica m}
      → duplicar m o x ≡ some (a, y)
      → (n : ℕ) × (k : ℕ) × (j : ℕ) × (t : List TranslationEntry) × (ps : Paginas m) × (u : List
          TranslationEntry)
        × (compartir m k o.page_table x.paginas ≡ some (t, ps))
        × (reservar m n j ps ≡ some (u, y.paginas))
        × (a.page_table ≡ t ++ u)
  unfolding duplicar
  duplicar_cases o x {a} {y} eq =
      let h = o.noff_h in
      let n = pages_real h in
      let k = pages_copyable h in
      let ((t, ps), c, eq₁) =
        bind_cases (compartir m k o.page_table x.paginas) _ (if_none (ltb n k) _ eq) in
      let ((u, ps₂), r, eq₂) = bind_cases (reservar m (n - k) k ps) _ eq₁ in
      let (memoria, r₂, eq₃) = bind_cases (copiar h (t ++ u) o.page_table x.main_memory) _ eq₂ in
      let z = some_inj eq₃ in
      (
        n - k,
        k,
        k,
        t,
        ps,
        u,
        c,
        r ∙ ap {A = AddrSpace × Fisica m} (λ v. some (u, v.1.paginas)) z,
        sym (ap {A = AddrSpace × Fisica m} (λ v. v.0.page_table) z),
      )
