-- ===== src/NachOs/Reunion.antt =====
-- No thread goes on behind a `Barrier` (nachOS/code/threads/synch.cc) before all have come to it.
use server_load_balancer_cli.Prelude.{
  ℕ, zero, suc, ◌≤◌, ◌≡◌, ◌≢◌, refl, sym, ◌∙◌, ap, inl, inr, Option, some, some_inj, List, set,
  get_elem?, arith,
}
use server_load_balancer_cli.Prelude.Int.{
  ℤ, pos, ◌+ℤ◌, ◌-ℤ◌, ◌≤ℤ◌, int_laws, eq_of_parts, pos_part, neg_part,
}
use server_load_balancer_cli.NachOs.Synch.{
  Cerrojo, dentro, Mueve, cierra, intenta, abre, suelta, termina,
}
use server_load_balancer_cli.NachOs.Exclusion.{IsUnico, Mueve-IsUnico, tomados_two, tomados-fueras}
use server_load_balancer_cli.NachOs.Cola.{
  get_elem?-set_cases, Ordenado, Mueve-Ordenado, SinAbrir, Mueve-dentro,
}
use server_load_balancer_cli.NachOs.Barrera.{
  Lugar, carga, mira, vista, pasa, Barrera, EnContador, PasoBarrera, en_contador, en_barrera, lee,
  guarda, ve, sale, vuelve, LlegaBarrera, aqui, y_paso, llegados, llegados-set, entran,
  barrera_nueva,
}

-- The counter is what the arrivals have left of `count`; a thread between its read and its write is inside
-- `contador`, with the counter as it is; and what a thread has seen is not below it.
pub record IsCuenta (count : ℕ) (b : Barrera) : Type 0 where
  pub unico : IsUnico b.contador
  pub ordenado : Ordenado b.contador
  pub cuenta : b.counter +ℤ pos (llegados b.lugares) ≡ pos count
  pub cargados :
      (t : ℕ) (v : ℤ)
      → get_elem? b.lugares t ≡ some (carga v)
      → (get_elem? b.contador.fases t ≡ some dentro) × (v ≡ b.counter)
  pub vistos : (t : ℕ) (v : ℤ) → get_elem? b.lugares t ≡ some (vista v) → b.counter ≤ℤ v
  pub pasados : (t : ℕ) → get_elem? b.lugares t ≡ some pasa → b.counter ≤ℤ pos 0

-- A thread between read and write does not unlock.
sin_abrir :
    {c d : Cerrojo} (m : Mueve c d) (ls : List Lugar) (u : ℕ) (v : ℤ)
    → EnContador m ls
    → get_elem? ls u ≡ some (carga v)
    → SinAbrir m u
sin_abrir (cierra c t h) ls u v e k = tt
sin_abrir (abre c t h) ls u v e k =
    λ z. no_mira v (some_inj (sym k ∙ ap (get_elem? ls) (sym z) ∙ e))
  where
    no_mira : (v : ℤ) → carga v ≢ mira
    no_mira v = λ z. cc
sin_abrir (intenta c t h) ls u v e k = tt
sin_abrir (suelta c t h) ls u v e k = tt
sin_abrir (termina c t h) ls u v e k = tt

otro_lugar :
    (ls : List Lugar) (t u : ℕ) (l w : Lugar)
    → get_elem? (set ls t l) u ≡ some w
    → w ≢ l
    → get_elem? ls u ≡ some w
otro_lugar ls t u l w h ne = elim (get_elem?-set_cases ls t u l w h) [
  | inl (e, f) ↦ absurd (ne f)
  | inr (e, f) ↦ f
]

resta_llegada : (z : ℤ) (n m k : ℕ) → z +ℤ pos n ≡ pos m → k ≡ suc n → (z -ℤ pos 1) +ℤ pos k ≡ pos m
resta_llegada z n m k h e = rw e (omega (int_laws, ap pos_part h, ap neg_part h))

resta-le : (z w : ℤ) → z ≤ℤ w → z -ℤ pos 1 ≤ℤ w
resta-le z w h = omega int_laws

PasoBarrera-IsCuenta :
    {b c : Barrera} (count : ℕ) → PasoBarrera b c → IsCuenta count b → IsCuenta count c
PasoBarrera-IsCuenta count (en_contador b m e) v = record {
  unico = Mueve-IsUnico m v.unico;
  ordenado = Mueve-Ordenado m v.ordenado;
  cuenta = v.cuenta;
  cargados = λ t. λ w. λ h.
      let (d, q) = v.cargados t w h in
      (Mueve-dentro m t (sin_abrir m b.lugares t w e h) v.ordenado d, q);
  vistos = v.vistos;
  pasados = v.pasados;
}
PasoBarrera-IsCuenta count (en_barrera b m e) v = record {
  unico = v.unico;
  ordenado = v.ordenado;
  cuenta = v.cuenta;
  cargados = v.cargados;
  vistos = v.vistos;
  pasados = v.pasados;
}
PasoBarrera-IsCuenta count (lee b t h k) v = record {
  unico = v.unico;
  ordenado = v.ordenado;
  cuenta =
      ap (λ n. b.counter +ℤ pos n) (omega (arith, llegados-set b.lugares t (carga b.counter) h))
      ∙ v.cuenta;
  cargados = λ u. λ w. λ g. elim (get_elem?-set_cases b.lugares t u (carga b.counter) (carga w) g) [
    | inl (e, f) ↦ (ap (get_elem? b.contador.fases) (sym e) ∙ k, cc)
    | inr (e, f) ↦ v.cargados u w f
  ];
  vistos = λ u. λ w. λ g. v.vistos u w (otro_lugar b.lugares t u _ _ g (λ z. cc));
  pasados = λ u. λ g. v.pasados u (otro_lugar b.lugares t u _ _ g (λ z. cc));
}
PasoBarrera-IsCuenta count (guarda b t w h) v =
    let (en_t, es) = v.cargados t w h in
    record {
      unico = v.unico;
      ordenado = v.ordenado;
      cuenta = rw es (
          resta_llegada b.counter (llegados b.lugares) count _ v.cuenta
            (omega (arith, llegados-set b.lugares t mira h)));
      cargados = λ u. λ x. λ g. elim (get_elem?-set_cases b.lugares t u mira (carga x) g) [
        | inl (e, f) ↦ absurd (cc)
        | inr (e, f) ↦
            absurd
              (omega (arith, tomados_two b.contador.fases t u e en_t (v.cargados u x f).0, v.unico))
      ];
      vistos = λ u. λ x. λ g.
          rw es (resta-le b.counter x (v.vistos u x (otro_lugar b.lugares t u _ _ g (λ z. cc))));
      pasados = λ u. λ g.
          rw es
            (resta-le b.counter (pos 0) (v.pasados u (otro_lugar b.lugares t u _ _ g (λ z. cc))));
    }
PasoBarrera-IsCuenta count (ve b t h k) v = record {
  unico = v.unico;
  ordenado = v.ordenado;
  cuenta =
      ap (λ n. b.counter +ℤ pos n) (omega (arith, llegados-set b.lugares t (vista b.counter) h))
      ∙ v.cuenta;
  cargados = λ u. λ w. λ g. v.cargados u w (otro_lugar b.lugares t u _ _ g (λ z. cc));
  vistos = λ u. λ w. λ g. elim (get_elem?-set_cases b.lugares t u (vista b.counter) (vista w) g) [
    | inl (e, f) ↦ let q : w ≡ b.counter = cc in rw q (omega arith)
    | inr (e, f) ↦ v.vistos u w f
  ];
  pasados = λ u. λ g. v.pasados u (otro_lugar b.lugares t u _ _ g (λ z. cc));
}
PasoBarrera-IsCuenta count (sale b t w h k l) v = record {
  unico = v.unico;
  ordenado = v.ordenado;
  cuenta = ap (λ n. b.counter +ℤ pos n) (omega (arith, llegados-set b.lugares t pasa h)) ∙ v.cuenta;
  cargados = λ u. λ x. λ g. v.cargados u x (otro_lugar b.lugares t u _ _ g (λ z. cc));
  vistos = λ u. λ x. λ g. v.vistos u x (otro_lugar b.lugares t u _ _ g (λ z. cc));
  pasados = λ u. λ g. elim (get_elem?-set_cases b.lugares t u pasa pasa g) [
    | inl (e, f) ↦ omega (arith, v.vistos t w h)
    | inr (e, f) ↦ v.pasados u f
  ];
}
PasoBarrera-IsCuenta count (vuelve b t w h k l) v = record {
  unico = v.unico;
  ordenado = v.ordenado;
  cuenta = ap (λ n. b.counter +ℤ pos n) (omega (arith, llegados-set b.lugares t mira h)) ∙ v.cuenta;
  cargados = λ u. λ x. λ g. v.cargados u x (otro_lugar b.lugares t u _ _ g (λ z. cc));
  vistos = λ u. λ x. λ g. v.vistos u x (otro_lugar b.lugares t u _ _ g (λ z. cc));
  pasados = λ u. λ g. v.pasados u (otro_lugar b.lugares t u _ _ g (λ z. cc));
}

LlegaBarrera-IsCuenta :
    {b c : Barrera} (count : ℕ) → LlegaBarrera b c → IsCuenta count b → IsCuenta count c
LlegaBarrera-IsCuenta count aqui v = v
LlegaBarrera-IsCuenta count (y_paso r p) v =
    PasoBarrera-IsCuenta count p (LlegaBarrera-IsCuenta count r v)

nadie_carga : (n t : ℕ) (v : ℤ) → get_elem? (entran n) t ≢ some (carga v)
nadie_carga zero t v = λ h. cc
nadie_carga (suc n) zero v = λ h. cc
nadie_carga (suc n) (suc t) v = nadie_carga n t v

nadie_mira : (n t : ℕ) (v : ℤ) → get_elem? (entran n) t ≢ some (vista v)
nadie_mira zero t v = λ h. cc
nadie_mira (suc n) zero v = λ h. cc
nadie_mira (suc n) (suc t) v = nadie_mira n t v

nadie_pasa : (n t : ℕ) → get_elem? (entran n) t ≢ some pasa
nadie_pasa zero t = λ h. cc
nadie_pasa (suc n) zero = λ h. cc
nadie_pasa (suc n) (suc t) = nadie_pasa n t

llegados-entran : (n : ℕ) → llegados (entran n) ≡ 0
llegados-entran zero = refl
llegados-entran (suc n) = omega (arith, llegados-entran n)

nueva-IsCuenta :
    (basura basura' : Option ℕ) (count n : ℕ)
    → IsCuenta count (barrera_nueva basura basura' count n)
nueva-IsCuenta basura basura' count n = record {
  unico = omega (arith, tomados-fueras n);
  ordenado = tt;
  cuenta = eq_of_parts _ _ (omega (int_laws, llegados-entran n));
  cargados = λ t. λ v. λ h. absurd (nadie_carga n t v h);
  vistos = λ t. λ v. λ h. absurd (nadie_mira n t v h);
  pasados = λ t. λ h. absurd (nadie_pasa n t h);
}

-- However the threads that use a new barrier are interleaved, also between the read and the write of the
-- counter, and whatever the two mutexes held: while one is behind it, at least `count` have come to it
-- and have been counted.
pub LlegaBarrera-pasa :
    (basura basura' : Option ℕ) (count n : ℕ) {b : Barrera} (t : ℕ)
    → LlegaBarrera (barrera_nueva basura basura' count n) b
    → get_elem? b.lugares t ≡ some pasa
    → count ≤ llegados b.lugares
LlegaBarrera-pasa basura basura' count n {b} t r h =
    let v = LlegaBarrera-IsCuenta count r (nueva-IsCuenta basura basura' count n) in
    omega (int_laws, v.pasados t h, ap pos_part v.cuenta, ap neg_part v.cuenta)
