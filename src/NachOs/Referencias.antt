-- ===== src/NachOs/Referencias.antt =====
-- Pages that are taken, shared and given back (nachOS/code/userprog/addrspace.cc): the counts and
-- the bit map go with the page tables.
use server_load_balancer_cli.Prelude.{
  ℕ, zero, suc, ◌+◌, ◌<◌, ◌≡◌, refl, ap, ◌∙◌, sym, Bool, false, some, some_inj, List, [], ◌∷◌,
  length, set, get_elem?, take, get_elem?-set_self, ltb, ◌==◌, ==_iff, ==_refl, if◌then◌else◌,
  arith, Bool-cases, Option-cases, inl, inr, ltb→lt,
}
use server_load_balancer_cli.Prelude.Int.{ℤ, pos, ◌+ℤ◌, ◌-ℤ◌}
use server_load_balancer_cli.NachOs.Base.{BitMap, Mapas}
use server_load_balancer_cli.NachOs.AddrSpace.{
  TranslationEntry, Paginas, pages_of_counts, cambiar, una_mas, una_menos, entrada_nueva,
  reservar_hallada, reservar_pagina, reservar, compartir, limpiar, liberar_pagina, liberar,
}
use server_load_balancer_cli.NachOs.Cuentas.{
  uno, refs, Cuadra, Cuadra-ext, Cuadra-cambio, cambiar_cases, uno_otra, uno_usada,
}

module _ (m : BitMap) (x : Mapas m) where
  reservar_hallada_cases :
      (i q : ℕ) (cs : List ℤ) (b : m.Bits) {e : TranslationEntry} {ps : Paginas m}
      → reservar_hallada m i cs (pos q, b) ≡ some (e, ps)
      → (ds : List ℤ) × (cambiar una_mas cs q ≡ some ds)
        × (e ≡ entrada_nueva i q)
        × (ps ≡ record { memory_bit_map = b; threads_on_phy_page = ds })
  unfolding reservar_hallada
  reservar_hallada_cases i q cs b {e} {ps} h = elim (Option-cases (cambiar una_mas cs q)) [
    | inl n ↦ absurd (let k = rw (n, reservar_hallada) at h in cc)
    | inr (ds, c) ↦
        let k = some_inj (let z = rw (c, reservar_hallada) at h in z) in
        (ds, c, sym (ap (λ t. t.0) k), sym (ap (λ t. t.1) k))
  ]

  -- A page that `Find` gives was on no table, and is now on one.
  reservar_pagina_lem :
      (i : ℕ) (ps : Paginas m) (r : ℕ → ℕ) {e : TranslationEntry} {qs : Paginas m}
      → Cuadra m x ps r
      → reservar_pagina m i ps ≡ some (e, qs)
      → (r e.physical_page ≡ 0) × Cuadra m x qs (λ p. uno e.physical_page p + r p)
  unfolding reservar_pagina reservar_hallada ◌+ℤ◌
  reservar_pagina_lem i ps r {e} {qs} k h = elim (x.find_lem ps.memory_bit_map) [
    | inl f ↦ absurd (let z = rw (f, reservar_pagina, reservar_hallada) at h in cc)
    | inr (q, b, f, menor, libre, n, bits) ↦
        let (ds, cam, ee, ep) =
          reservar_hallada_cases i q ps.threads_on_phy_page b
            (let z = rw (f, reservar_pagina) at h in z) in
        let (c, corto, viejo, nuevo) = cambiar_cases una_mas ps.threads_on_phy_page q cam in
        let bajo : q < pages_of_counts = rw (sym k.cuentas) corto in
        let cero : r q ≡ 0 = (let z = k.bit q in ground arith) in
        let uno_c : c ≡ pos (r q) = some_inj (sym viejo ∙ k.cuenta q bajo) in
        rw (ee, ep, nuevo)
          (
            cero,
            Cuadra-cambio m x ps r (λ p. uno q p + r p) q b (una_mas c) k bajo
                (rw (uno_c, cero, ==_refl q) refl) (λ p. λ ne. uno_otra q p (r p) ne) n
                (λ p. bits p ∙ (let z = k.bit p in ground arith)),
          )
  ]

  reservar_cases :
      (n i : ℕ) (ps : Paginas m) {t : List TranslationEntry} {qs : Paginas m}
      → reservar m (suc n) i ps ≡ some (t, qs)
      → (e : TranslationEntry) × (ps₂ : Paginas m) × (t₂ : List TranslationEntry) × (reservar_pagina
            m i ps
          ≡ some (e, ps₂))
        × (reservar m n (suc i) ps₂ ≡ some (t₂, qs))
        × (t ≡ e ∷ t₂)
  unfolding reservar
  reservar_cases n i ps {t} {qs} h = elim (Option-cases (reservar_pagina m i ps)) [
    | inl f ↦ absurd (let z = rw (f, reservar) at h in cc)
    | inr ((e, ps₂), f) ↦ elim (Option-cases (reservar m n (suc i) ps₂)) [
      | inl g ↦ absurd (let z = rw (f, reservar, g) at h in cc)
      | inr ((t₂, ps₃), g) ↦
          let k = some_inj (let z = rw (f, reservar, g) at h in z) in
          (e, ps₂, t₂, f, rw g (ap (λ u. some (t₂, u.1)) k), sym (ap (λ u. u.0) k))
    ]
  ]

  -- New pages are each on the new table once, and on no other.
  abbrev pub Nuevas : List TranslationEntry → (ℕ → ℕ) → Type 0
  Nuevas t r = (p : ℕ) → 0 < refs t p → (refs t p ≡ 1) × (r p ≡ 0)

  Nuevas-cons :
      (q p n : ℕ) (r : ℕ → ℕ)
      → r q ≡ 0
      → (0 < n → (n ≡ 1) × (uno q p + r p ≡ 0))
      → 0 < uno q p + n
      → (uno q p + n ≡ 1) × (r p ≡ 0)
  Nuevas-cons q p n r cero h f = elim (Bool-cases (q == p)) [
    | inl y ↦
        let rp : r p ≡ 0 = ap r (sym ((==_iff q p).0 y)) ∙ cero in
        elim (Bool-cases (ltb 0 n)) [
          | inl w ↦ absurd (let z = (h (ltb→lt 0 n w)).1 in ground arith)
          | inr w ↦ (ground arith, rp)
        ]
    | inr y ↦ let z = h (ground arith) in (ground arith, ground arith)
  ]

  pub reservar_lem :
      (n i : ℕ) (ps : Paginas m) (r : ℕ → ℕ) {t : List TranslationEntry} {qs : Paginas m}
      → Cuadra m x ps r
      → reservar m n i ps ≡ some (t, qs)
      → Nuevas t r × Cuadra m x qs (λ p. refs t p + r p)
  unfolding reservar
  reservar_lem zero i ps r {t} {qs} k h =
      let z = some_inj h in
      rw (sym (ap (λ u. u.0) z), sym (ap (λ u. u.1) z))
        ((λ p. λ f. absurd (omega arith)), Cuadra-ext m x ps r (λ p. 0 + r p) (λ p. omega arith) k)
  reservar_lem (suc n) i ps r {t} {qs} k h =
      let (e, ps₂, t₂, f, g, et) = reservar_cases n i ps h in
      let (cero, k₂) = reservar_pagina_lem i ps r k f in
      let (nuevas, k₃) = reservar_lem n (suc i) ps₂ (λ p. uno e.physical_page p + r p) k₂ g in
      rw et (
        (λ p. λ f. Nuevas-cons e.physical_page p (refs t₂ p) r cero (nuevas p) f),
        Cuadra-ext m x qs (λ p. refs t₂ p + (uno e.physical_page p + r p))
            (λ p. uno e.physical_page p + refs t₂ p + r p) (λ p. omega arith) k₃,
      )

  -- One more thread on a page that is in use.
  compartida :
      (ps : Paginas m) (r : ℕ → ℕ) (q : ℕ) (cs : List ℤ)
      → Cuadra m x ps r
      → 0 < r q
      → cambiar una_mas ps.threads_on_phy_page q ≡ some cs
      → Cuadra m x (record ps { threads_on_phy_page = cs }) (λ p. uno q p + r p)
  unfolding ◌+ℤ◌
  compartida ps r q cs k usada h =
      let (c, corto, viejo, nuevo) = cambiar_cases una_mas ps.threads_on_phy_page q h in
      let bajo : q < pages_of_counts = rw (sym k.cuentas) corto in
      let igual : c ≡ pos (r q) = some_inj (sym viejo ∙ k.cuenta q bajo) in
      rw nuevo (
        Cuadra-cambio m x ps r (λ p. uno q p + r p) q ps.memory_bit_map (una_mas c) k bajo
          (rw (igual, ==_refl q) (ground arith)) (λ p. λ ne. uno_otra q p (r p) ne) refl
          (λ p. k.bit p ∙ uno_usada q p r usada))

  -- The entries that a copy shares are those of its source, whose pages are in use.
  pub compartir_lem :
      (n : ℕ) (t : List TranslationEntry) (ps : Paginas m) (r : ℕ → ℕ) {c : List TranslationEntry}
      {qs : Paginas m}
      → Cuadra m x ps r
      → ((p : ℕ) → 0 < refs t p → 0 < r p)
      → compartir m n t ps ≡ some (c, qs)
      → (c ≡ take n t) × Cuadra m x qs (λ p. refs c p + r p)
  unfolding compartir
  compartir_lem zero t ps r {c} {qs} k u h =
      let z = some_inj h in
      rw (sym (ap (λ v. v.0) z), sym (ap (λ v. v.1) z))
        (refl, Cuadra-ext m x ps r (λ p. 0 + r p) (λ p. omega arith) k)
  compartir_lem (suc n) [] ps r {c} {qs} k u h = cc
  compartir_lem (suc n) (e ∷ t) ps r {c} {qs} k u h =
      let q = e.physical_page in
      elim (Option-cases (cambiar una_mas ps.threads_on_phy_page q)) [
        | inl f ↦ absurd (let z = rw (compartir, f) at h in cc)
        | inr (cs, f) ↦
            elim (Option-cases (compartir m n t (record ps { threads_on_phy_page = cs }))) [
              | inl g ↦ absurd (let z = rw (compartir, f, g) at h in cc)
              | inr ((d, ps₂), g) ↦
                  let z = some_inj (let y = rw (compartir, f, g) at h in y) in
                  let (igual, k₂) =
                    compartir_lem n t (record ps { threads_on_phy_page = cs }) (λ p. uno q p + r p)
                      (compartida ps r q cs k (u q (rw (==_refl q) (omega arith))) f)
                      (λ p. λ y. (let w = u p in omega arith)) g in
                  rw (sym (ap (λ v. v.0) z), sym (ap (λ v. v.1) z))
                    (
                      ap (◌∷◌ e) igual,
                      Cuadra-ext m x ps₂ (λ p. refs d p + (uno q p + r p))
                          (λ p. uno q p + refs d p + r p) (λ p. omega arith) k₂,
                    )
            ]
      ]

  una_menos_lem : (n : ℕ) → una_menos (pos (1 + n)) ≡ pos n
  unfolding ◌-ℤ◌
  una_menos_lem n = ground arith

  bit_libre :
      (q p : ℕ) (r : ℕ → ℕ) (viejo : Bool)
      → r q ≡ 0
      → viejo ≡ ltb 0 (uno q p + r p)
      → (if q == p then false else viejo) ≡ ltb 0 (r p)
  bit_libre q p r viejo cero h = elim (Bool-cases (q == p)) [
    | inl e ↦ let rp : r p ≡ 0 = ap r (sym ((==_iff q p).0 e)) ∙ cero in rw (e, rp) refl
    | inr e ↦ (let z = rw e at h in rw (e, z) (ground arith))
  ]

  -- A page loses one thread: its count goes down, and the last one clears its bit.
  liberar_pagina_lem :
      (q : ℕ) (ps : Paginas m) (r : ℕ → ℕ)
      → Cuadra m x ps (λ p. uno q p + r p)
      → (qs : Paginas m) × (liberar_pagina m q ps ≡ some qs) × Cuadra m x qs r
  unfolding liberar_pagina cambiar limpiar
  liberar_pagina_lem q ps r k =
      let bajo : q < pages_of_counts = (elim (Bool-cases (ltb q pages_of_counts)) [
        | inl e ↦ ltb→lt q pages_of_counts e
        | inr e ↦ absurd (
            let z : uno q q + r q ≡ 0 = k.lejos q (ground arith) in
            let y : 1 + r q ≡ 0 = rw (==_refl q) at z in omega arith)
      ]) in
      let cuenta : get_elem? ps.threads_on_phy_page q ≡ some (pos (1 + r q)) =
        (let z = k.cuenta q bajo in rw (==_refl q) at z) in
      let dentro : q < length ps.threads_on_phy_page = rw k.cuentas bajo in
      let menos = una_menos_lem (r q) in
      let quedan = get_elem?-set_self ps.threads_on_phy_page q (pos (r q)) dentro in
      elim (Bool-cases (r q == 0)) [
        | inl e ↦
            let (b, c, n, bits) = x.clear_lem ps.memory_bit_map q (rw k.num_bits (omega arith)) in
            (
              record {
                memory_bit_map = b;
                threads_on_phy_page = set ps.threads_on_phy_page q (pos (r q));
              },
              rw (liberar_pagina, cambiar, cuenta, menos, limpiar, quedan, e, c) refl,
              Cuadra-cambio m x ps (λ p. uno q p + r p) r q b (pos (r q)) k bajo refl
                  (λ p. λ ne. sym (uno_otra q p (r p) ne)) n
                  (λ p.
                    bits p
                    ∙ bit_libre q p r (x.bit ps.memory_bit_map p) ((==_iff (r q) 0).0 e) (k.bit p)),
            )
        | inr e ↦ (
          record ps { threads_on_phy_page = set ps.threads_on_phy_page q (pos (r q)) },
          rw (liberar_pagina, cambiar, cuenta, menos, limpiar, quedan, e) refl,
          Cuadra-cambio m x ps (λ p. uno q p + r p) r q ps.memory_bit_map (pos (r q)) k bajo refl
              (λ p. λ ne. sym (uno_otra q p (r p) ne)) refl
              (λ p. k.bit p ∙ sym (uno_usada q p r (ground arith))),
        )
      ]

  -- A table whose pages are counted can be given back, and the others' counts are left.
  pub liberar_lem :
      (t : List TranslationEntry) (ps : Paginas m) (r : ℕ → ℕ)
      → Cuadra m x ps (λ p. refs t p + r p)
      → (qs : Paginas m) × (liberar m t ps ≡ some qs) × Cuadra m x qs r
  unfolding liberar
  liberar_lem [] ps r k = (ps, refl, Cuadra-ext m x ps (λ p. 0 + r p) r (λ p. omega arith) k)
  liberar_lem (e ∷ t) ps r k =
      let (ps₂, f, k₂) =
        liberar_pagina_lem e.physical_page ps (λ p. refs t p + r p)
          (Cuadra-ext m x ps (λ p. uno e.physical_page p + refs t p + r p)
            (λ p. uno e.physical_page p + (refs t p + r p)) (λ p. omega arith) k) in
      let (qs, g, k₃) = liberar_lem t ps₂ r k₂ in (qs, rw (liberar, f) g, k₃)
