-- ===== src/Balanceador/Pesos.antt =====
-- The weighted turn of `hilo_Cliente` (src/Balanceador.cpp).
use server_load_balancer_cli.Prelude.{
  none, ◌-◌, ◌⊎◌, inl, inr, ◌∙◌, Bool-cases, ltb, ltb→lt, ℕ, zero, suc, ◌+◌, ◌≤◌, ◌<◌, ◌≡◌, refl,
  sym, ap, subst, Bool, true, false, some, some_inj, List, [], ◌∷◌, length, get_elem?, arith,
  get_elem?_within, get_elem?-lt_length,
}
use server_load_balancer_cli.Prelude.Int.{ltb_ℤ}
use server_load_balancer_cli.Balanceador.{Servidor}
use server_load_balancer_cli.Balanceador.Seleccion.{siguiente, buscar_libre}

-- The load of a server is above its bound.
abbrev pub sobrecargado : Servidor → Bool
sobrecargado s = ltb_ℤ s.carga_maxima s.carga_actual

-- Every server before place `k`, from place `v` on, is above its bound.
abbrev Sobrecargados : List Servidor → ℕ → ℕ → Type 0
Sobrecargados ss v k =
    (j : ℕ) (s : Servidor) → v ≤ j → j < k → get_elem? ss j ≡ some s → sobrecargado s ≡ true

-- The first `k` servers are above their bounds.
abbrev pub Llenos : ℕ → List Servidor → Type 0
Llenos zero ss = Unit
Llenos (suc k) [] = Unit
Llenos (suc k) (s ∷ ss) = (sobrecargado s ≡ true) × Llenos k ss

Llenos-at :
    (k : ℕ) (ss : List Servidor) (j : ℕ) (s : Servidor)
    → Llenos k ss
    → j < k
    → get_elem? ss j ≡ some s
    → sobrecargado s ≡ true
Llenos-at zero ss j s l h e = elim h [ ]
Llenos-at (suc k) [] j s l h e = cc
Llenos-at (suc k) (t ∷ ss) zero s l h e = subst (λ x. sobrecargado x ≡ true) (some_inj e) l.0
Llenos-at (suc k) (t ∷ ss) (suc j) s l h e = Llenos-at k ss j s l.1 (omega arith) e

-- One round at a place within the vector.
ronda_libre :
    (f v : ℕ) (ss : List Servidor) (s : Servidor)
    → get_elem? ss v ≡ some s
    → sobrecargado s ≡ false
    → buscar_libre (suc f) ss v ≡ some v
unfolding buscar_libre
ronda_libre f v ss s esta libre = rw (buscar_libre, esta, libre) refl

ronda_sobrecargada :
    (f v : ℕ) (ss : List Servidor) (s : Servidor)
    → get_elem? ss v ≡ some s
    → sobrecargado s ≡ true
    → buscar_libre (suc f) ss v ≡ buscar_libre f ss (siguiente (length ss) v)
unfolding buscar_libre siguiente
ronda_sobrecargada f v ss s esta lleno = rw (buscar_libre, esta, lleno) refl

siguiente_dentro : (n v : ℕ) → suc v < n → siguiente n v ≡ suc v
unfolding siguiente
siguiente_dentro n v h = ground arith

siguiente-lt : (n v : ℕ) → v < n → siguiente n v < n
unfolding siguiente
siguiente-lt n v h = ground arith

-- From place `v` on the loop stops `d` places further, when the places before are above their bounds.
buscar_libre_desde :
    (d v k f : ℕ) (ss : List Servidor) (s : Servidor)
    → v + d ≡ k
    → get_elem? ss k ≡ some s
    → sobrecargado s ≡ false
    → Sobrecargados ss v k
    → d < f
    → buscar_libre f ss v ≡ some k
buscar_libre_desde d v k zero ss s lugar esta libre antes h = elim h [ ]
buscar_libre_desde zero v k (suc f) ss s lugar esta libre antes h =
    let mismo : v ≡ k = omega arith in
    rw (ronda_libre f v ss s (subst (λ x. get_elem? ss x ≡ some s) (sym mismo) esta) libre)
      (ap some mismo)
buscar_libre_desde (suc d) v k (suc f) ss s lugar esta libre antes h =
    let dentro = get_elem?-lt_length ss k esta in
    let (t, en_v) = get_elem?_within ss v (omega arith) in
    rw
      (
        ronda_sobrecargada f v ss t en_v (antes v t (omega arith) (omega arith) en_v),
        siguiente_dentro (length ss) v (omega arith),
      )
      (buscar_libre_desde d (suc v) k f ss s (omega arith) esta libre
        (λ j. λ u. λ desde. antes j u (omega arith)) (omega arith))

-- The loop stops at the first server whose load is not above its bound, after one round per place.
pub buscar_libre_primero :
    (k f : ℕ) (ss : List Servidor) (s : Servidor)
    → get_elem? ss k ≡ some s
    → sobrecargado s ≡ false
    → Llenos k ss
    → k < f
    → buscar_libre f ss 0 ≡ some k
buscar_libre_primero k f ss s esta libre antes h =
    buscar_libre_desde k 0 k f ss s (omega arith) esta libre
      (λ j. λ t. λ desde. λ hasta. Llenos-at k ss j t antes hasta) h

-- The loop has stopped at a server whose load is not above its bound.
abbrev pub Parada : ℕ → List Servidor → ℕ → Type 0
Parada f ss v =
    (j : ℕ) × (t : Servidor) × (get_elem? ss j ≡ some t)
    × (sobrecargado t ≡ false)
    × (buscar_libre f ss v ≡ some j)

-- A round: the loop stops here, or goes on at the next place.
ronda_cases :
    (f v : ℕ) (ss : List Servidor)
    → v < length ss
    → Parada (suc f) ss v
      ⊎ (buscar_libre (suc f) ss v ≡ buscar_libre f ss (siguiente (length ss) v))
ronda_cases f v ss dentro =
    let (t, esta) = get_elem?_within ss v dentro in
    elim (Bool-cases (sobrecargado t)) [
      | inl e ↦ inr (ronda_sobrecargada f v ss t esta e)
      | inr e ↦ inl (v, t, esta, e, ronda_libre f v ss t esta e)
    ]

Parada-sigue :
    (f v : ℕ) (ss : List Servidor)
    → buscar_libre (suc f) ss v ≡ buscar_libre f ss (siguiente (length ss) v)
    → Parada f ss (siguiente (length ss) v)
    → Parada (suc f) ss v
Parada-sigue f v ss e (j, t, esta, libre, p) = (j, t, esta, libre, e ∙ p)

-- A server `d` places further on that is not above its bound stops the loop.
Parada-adelante :
    (d v f : ℕ) (ss : List Servidor) (s : Servidor)
    → get_elem? ss (v + d) ≡ some s
    → sobrecargado s ≡ false
    → d < f
    → Parada f ss v
Parada-adelante d v zero ss s esta libre h = elim h [ ]
Parada-adelante zero v (suc f) ss s esta libre h =
    let aqui : get_elem? ss v ≡ some s = subst (λ x. get_elem? ss x ≡ some s) (omega arith) esta in
    (v, s, aqui, libre, ronda_libre f v ss s aqui libre)
Parada-adelante (suc d) v (suc f) ss s esta libre h =
    let dentro = get_elem?-lt_length ss (v + suc d) esta in
    elim (ronda_cases f v ss (omega (arith, dentro))) [
      | inl p ↦ p
      | inr e ↦
          let otro = siguiente_dentro (length ss) v (omega (arith, dentro)) in
          Parada-sigue f v ss e (
            rw otro (
              Parada-adelante d (suc v) f ss s
                (subst (λ x. get_elem? ss x ≡ some s) (omega arith) esta) libre (omega arith)))
    ]

siguiente_ultimo : (n v : ℕ) → suc v ≡ n → siguiente n v ≡ 0
unfolding siguiente
siguiente_ultimo n v h = ground arith

-- So does one that the loop comes to behind the end of the vector, `d` places before the last one.
Parada-vuelta :
    (d v k f : ℕ) (ss : List Servidor) (s : Servidor)
    → suc (v + d) ≡ length ss
    → get_elem? ss k ≡ some s
    → sobrecargado s ≡ false
    → suc (d + k) < f
    → Parada f ss v
Parada-vuelta d v k zero ss s fin esta libre h = elim h [ ]
Parada-vuelta zero v k (suc f) ss s fin esta libre h = elim (ronda_cases f v ss (omega arith)) [
  | inl p ↦ p
  | inr e ↦
      let otro = siguiente_ultimo (length ss) v (omega (arith, fin)) in
      Parada-sigue f v ss e (
        rw otro (
          Parada-adelante k 0 f ss s (subst (λ x. get_elem? ss x ≡ some s) (omega arith) esta) libre
            (omega arith)))
]
Parada-vuelta (suc d) v k (suc f) ss s fin esta libre h = elim (ronda_cases f v ss (omega arith)) [
  | inl p ↦ p
  | inr e ↦
      let otro = siguiente_dentro (length ss) v (omega (arith, fin)) in
      Parada-sigue f v ss e
        (rw otro (Parada-vuelta d (suc v) k f ss s (omega (arith, fin)) esta libre (omega arith)))
]

Llenos-cases :
    (ss : List Servidor)
    → Llenos (length ss) ss
      ⊎ ((k : ℕ) × (s : Servidor) × (get_elem? ss k ≡ some s) × (sobrecargado s ≡ false))
Llenos-cases [] = inl tt
Llenos-cases (s ∷ ss) = elim (Bool-cases (sobrecargado s)) [
  | inr e ↦ inr (0, s, refl, e)
  | inl e ↦ elim (Llenos-cases ss) [
    | inl l ↦ inl (e, l)
    | inr (k, t, esta, libre) ↦ inr (suc k, t, esta, libre)
  ]
]

sin_parada :
    (f v : ℕ) (ss : List Servidor)
    → v < length ss
    → Llenos (length ss) ss
    → buscar_libre f ss v ≡ none
unfolding buscar_libre
sin_parada zero v ss dentro todos = refl
sin_parada (suc f) v ss dentro todos =
    let (s, esta) = get_elem?_within ss v dentro in
    rw (ronda_sobrecargada f v ss s esta (Llenos-at (length ss) ss v s todos dentro esta))
      (sin_parada f (siguiente (length ss) v) ss (siguiente-lt (length ss) v dentro) todos)

-- From any place of the vector, the loop has stopped at a server whose load is not above its bound after as
-- many rounds as there are servers, behind the end of the vector too; or every server is above its bound,
-- and no number of rounds ends the loop.
pub buscar_libre_cases :
    (v f : ℕ) (ss : List Servidor)
    → v < length ss
    → length ss ≤ f
    → Parada f ss v ⊎ (Llenos (length ss) ss × ((g : ℕ) → buscar_libre g ss v ≡ none))
buscar_libre_cases v f ss dentro h = elim (Llenos-cases ss) [
  | inl l ↦ inr (l, λ g. sin_parada g v ss dentro l)
  | inr (k, s, esta, libre) ↦
      let en = get_elem?-lt_length ss k esta in
      inl (elim (Bool-cases (ltb k v)) [
        | inr e ↦
            Parada-adelante (k - v) v f ss s
              (subst (λ x. get_elem? ss x ≡ some s) (ground (arith, e)) esta) libre
              (omega (arith, en, h))
        | inl e ↦
            let antes = ltb→lt k v e in
            Parada-vuelta (length ss - v - 1) v k f ss s (omega (arith, dentro)) esta libre
              (omega (arith, antes, dentro, h))
      ])
]
