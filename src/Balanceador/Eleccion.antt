-- ===== src/Balanceador/Eleccion.antt =====
-- The turn and the least load (`hilo_Cliente`, `buscarServidorConMenorCarga` of src/Balanceador.cpp).
use native.Mathlib.Nat.{mod-eq_of_lt, mod_self, mod-lt, mod-add-mod, add-zero}
use server_load_balancer_cli.Prelude.{
  ℕ, zero, suc, ◌+◌, ◌%◌, ◌<◌, ◌≡◌, refl, sym, ap, subst, some_inj, ◌∙◌, ◌⊎◌, inl, inr, true,
  Option, none, some, List, [], ◌∷◌, length, get_elem?, arith, leb, Bool-cases, ◌>>=◌,
}
use server_load_balancer_cli.Prelude.Int.{ℤ, pos, ltb_ℤ, ◌≤ℤ◌}
use server_load_balancer_cli.Balanceador.{Servidor, Balanceador, round_robin}
use server_load_balancer_cli.Balanceador.Seleccion.{
  siguiente, elegir, elegir_por, menor_carga_loop, buscar_servidor_con_menor_carga, int32_max,
}

siguiente_mod : (n v : ℕ) → v < n → siguiente n v ≡ suc v % n
unfolding siguiente
siguiente_mod n v h = elim (Bool-cases (leb n (suc v))) [
  | inl e ↦
      let lleno : suc v ≡ n = ground arith in
      rw (siguiente, e) (sym (ap (λ k. k % n) lleno ∙ mod_self n))
  | inr e ↦ rw (siguiente, e) (sym (mod-eq_of_lt (let d : suc v < n = ground arith in d)))
]

module _ (inet_ntoa : ℕ → ℕ) (fuel : ℕ) where
  -- The state after one choice for each client of the list, with the value of `rand` at each.
  unfoldable pub turnos : List (ℕ × ℕ) → Balanceador → Option Balanceador
  unfolding elegir
  turnos [] b = some b
  turnos ((direccion, r) ∷ cs) b = do e ← elegir inet_ntoa fuel b direccion r; turnos cs e.0

  avanzar : Balanceador → Balanceador
  avanzar b = record b { round_robin_actual = siguiente (length b.servidores) b.round_robin_actual }

  elegir-round_robin :
      (b : Balanceador) (direccion r : ℕ)
      → b.algoritmo_balanceo ≡ round_robin
      → elegir inet_ntoa fuel b direccion r ≡ some (avanzar b, b.round_robin_actual)
  unfolding elegir elegir_por avanzar
  elegir-round_robin b direccion r a = ap (λ x. elegir_por inet_ntoa x fuel b direccion r) a

  -- With round robin, and the turn within the vector, the client that comes after k others is sent to the server at (turn + k) modulo the
  -- number of servers, and no choice changes the servers.
  pub turnos-round_robin :
      (cs : List (ℕ × ℕ)) (b : Balanceador) (direccion r : ℕ)
      → b.algoritmo_balanceo ≡ round_robin
      → b.round_robin_actual < length b.servidores
      → (b' : Balanceador) × (turnos cs b ≡ some b')
        × (b'.servidores ≡ b.servidores)
        × (b'.round_robin_actual < length b.servidores)
        × ((f : Balanceador) × (elegir inet_ntoa fuel b' direccion r
              ≡ some (f, (b.round_robin_actual + length cs) % length b.servidores)))
  unfolding turnos avanzar
  turnos-round_robin [] b direccion r a dentro = (
    b,
    refl,
    refl,
    dentro,
    (avanzar b, rw (add-zero, mod-eq_of_lt dentro) (elegir-round_robin b direccion r a)),
  )
  turnos-round_robin ((d₁, r₁) ∷ cs) b direccion r a dentro =
      let n = length b.servidores in
      let vuelta : siguiente n b.round_robin_actual ≡ suc b.round_robin_actual % n =
        siguiente_mod n b.round_robin_actual dentro in
      let dentro' : siguiente n b.round_robin_actual < n =
        rw vuelta (mod-lt (suc b.round_robin_actual) (omega arith)) in
      let (b', t, ss, d, (f, e)) = turnos-round_robin cs (avanzar b) direccion r a dentro' in
      let lugar : (siguiente n b.round_robin_actual + length cs) % n
          ≡ (b.round_robin_actual + suc (length cs)) % n =
        rw vuelta
          (mod-add-mod (suc b.round_robin_actual) n (length cs) ∙ ap (λ k. k % n) (omega arith)) in
      (b', rw (turnos, elegir-round_robin b d₁ r₁ a) t, ss, d, (f, e ∙ ap (λ k. some (f, k)) lugar))

-- Every server of the vector carries at least the load.
abbrev pub CargaDesde : ℤ → List Servidor → Type 0
CargaDesde m [] = Unit
CargaDesde m (s ∷ ss) = (m ≤ℤ s.carga_actual) × CargaDesde m ss

CargaDesde-mono : (m n : ℤ) (ss : List Servidor) → m ≤ℤ n → CargaDesde n ss → CargaDesde m ss
CargaDesde-mono m n [] h t = tt
CargaDesde-mono m n (s ∷ ss) h t = (omega (arith, t.0), CargaDesde-mono m n ss h t.1)

-- The server at place `k` carries the least load, which is below `m`.
abbrev pub IsMinimo : ℤ → List Servidor → ℕ → Type 0
IsMinimo m ss k =
    (s : Servidor) × (get_elem? ss k ≡ some s)
    × (ltb_ℤ s.carga_actual m ≡ true)
    × CargaDesde s.carga_actual ss

-- The loop keeps its place, or finds the least load below the bound.
menor_carga_loop_lem :
    (ss : List Servidor) (i : ℕ) (m : ℤ) (p : Option ℕ)
    → ((menor_carga_loop ss i m p ≡ p) × CargaDesde m ss)
      ⊎ ((k : ℕ) × (menor_carga_loop ss i m p ≡ some (i + k)) × IsMinimo m ss k)
unfolding menor_carga_loop
menor_carga_loop_lem [] i m p = inl (refl, tt)
menor_carga_loop_lem (s ∷ ss) i m p = elim (Bool-cases (ltb_ℤ s.carga_actual m)) [
  | inl e ↦ elim (menor_carga_loop_lem ss (suc i) s.carga_actual (some i)) [
    | inl (r, minimo) ↦ inr (
      0,
      rw (menor_carga_loop, e, r) (ap some (omega arith)),
      (s, refl, e, (omega arith, minimo)),
    )
    | inr (k, r, (t, esta, menor, minimo)) ↦ inr (
      suc k,
      rw (menor_carga_loop, e, r) (ap some (omega arith)),
      (t, esta, ground arith, (ground arith, minimo)),
    )
  ]
  | inr e ↦ elim (menor_carga_loop_lem ss (suc i) m p) [
    | inl (r, minimo) ↦ inl (rw (menor_carga_loop, e) r, (ground arith, minimo))
    | inr (k, r, (t, esta, menor, minimo)) ↦ inr (
      suc k,
      rw (menor_carga_loop, e, r) (ap some (omega arith)),
      (t, esta, menor, (ground arith, minimo)),
    )
  ]
]

CargaDesde_at :
    (m : ℤ) (ss : List Servidor) (j : ℕ) (t : Servidor)
    → CargaDesde m ss
    → get_elem? ss j ≡ some t
    → m ≤ℤ t.carga_actual
CargaDesde_at m [] j t d h = cc
CargaDesde_at m (s ∷ ss) zero t d h = subst (λ x. m ≤ℤ x.carga_actual) (some_inj h) d.0
CargaDesde_at m (s ∷ ss) (suc j) t d h = CargaDesde_at m ss j t d.1 h

-- Where some server carries less than the largest `int`, a server within the vector is chosen, and no
-- server of the vector carries less than it.
pub menor_carga_total :
    (ss : List Servidor) (j : ℕ) (t : Servidor)
    → get_elem? ss j ≡ some t
    → ltb_ℤ t.carga_actual (pos int32_max) ≡ true
    → (i : ℕ) × (s : Servidor) × (buscar_servidor_con_menor_carga ss ≡ some i)
      × (get_elem? ss i ≡ some s)
      × CargaDesde s.carga_actual ss
unfolding buscar_servidor_con_menor_carga
menor_carga_total ss j t esta menor = elim (menor_carga_loop_lem ss 0 (pos int32_max) none) [
  | inl (r, desde) ↦ absurd (
      let h : pos int32_max ≤ℤ t.carga_actual = CargaDesde_at (pos int32_max) ss j t desde esta in
      ground arith)
  | inr (k, r, (s, e, m, desde)) ↦ (k, s, r ∙ ap some (omega arith), e, desde)
]
