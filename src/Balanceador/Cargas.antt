-- ===== src/Balanceador/Cargas.antt =====
-- What a session changes in the vector of servers (`hilo_Cliente` of src/Balanceador.cpp): the load
-- of one place.
use server_load_balancer_cli.Prelude.{
  ℕ, ◌≡◌, ◌≢◌, sym, ap, ◌∙◌, subst, ◌⊎◌, inl, inr, false, some, some_inj, List, get_elem?, set,
  arith, ◌==◌, ==_iff, Bool-cases, Option-cases, get_elem?-set_self, get_elem?-set_ne,
  get_elem?-lt_length,
}
use server_load_balancer_cli.Prelude.Int.{ℤ, pos, ◌+ℤ◌, ◌-ℤ◌}
use server_load_balancer_cli.Balanceador.{
  Servidor, Balanceador, Algoritmo, log, round_robin, round_robin_pesos, direccion_cliente,
  conexiones_activa,
}
use server_load_balancer_cli.Balanceador.Seleccion.{
  elegir, elegir_por, agregar_cliente, cambiar_carga, sumar_carga, restar_carga, abrir_sesion,
}

-- A change of load at one place: that server's load changes, the others stay.
pub cambiar_carga_lem :
    (ss ss' : List Servidor) (i : ℕ) (f : ℤ → ℤ)
    → cambiar_carga ss i f ≡ some ss'
    → (s : Servidor) × (get_elem? ss i ≡ some s)
      × (get_elem? ss' i ≡ some (record s { carga_actual = f s.carga_actual }))
      × ((j : ℕ) → i ≢ j → get_elem? ss' j ≡ get_elem? ss j)
unfolding cambiar_carga
cambiar_carga_lem ss ss' i f h = elim (Option-cases (get_elem? ss i)) [
  | inl e ↦ absurd (let r = rw (e, cambiar_carga) at h in cc)
  | inr (s, e) ↦
      let cambiado : Servidor = record s { carga_actual = f s.carga_actual } in
      let igual : set ss i cambiado ≡ ss' = some_inj (rw (cambiar_carga, e) at h) in
      (
        s,
        e,
        subst (λ x. get_elem? x i ≡ some cambiado) igual
            (get_elem?-set_self ss i cambiado (get_elem?-lt_length ss i e)),
        λ j. λ otro.
            subst (λ x. get_elem? x j ≡ get_elem? ss j) igual (get_elem?-set_ne ss cambiado otro),
      )
]

-- What stands at a place after the change stood there before, or carries the changed load.
pub carga_tras :
    (ss ss' : List Servidor) (i : ℕ) (f : ℤ → ℤ) (j : ℕ) (s : Servidor)
    → cambiar_carga ss i f ≡ some ss'
    → get_elem? ss' j ≡ some s
    → ((i ≡ j) × (t : Servidor) × (get_elem? ss j ≡ some t) × (s.carga_actual ≡ f t.carga_actual))
      ⊎ (((i == j) ≡ false) × (get_elem? ss j ≡ some s))
carga_tras ss ss' i f j s h esta =
    let (t, en_i, cambiado, otros) = cambiar_carga_lem ss ss' i f h in
    elim (Bool-cases (i == j)) [
      | inl e ↦
          let mismo = (==_iff i j).0 e in
          let en_j : get_elem? ss' j ≡ some (record t { carga_actual = f t.carga_actual }) =
            subst (λ x. get_elem? ss' x ≡ some (record t { carga_actual = f t.carga_actual })) mismo
              cambiado in
          inl (
            mismo,
            t,
            subst (λ x. get_elem? ss x ≡ some t) mismo en_i,
            ap (λ x. x.carga_actual) (some_inj (sym esta ∙ en_j)),
          )
      | inr e ↦ inr (e, sym (otros j (λ m. absurd (ground (arith, ==_iff i j)))) ∙ esta)
    ]

pub restar_carga-cambia :
    (b b' : Balanceador) (i : ℕ)
    → restar_carga b i ≡ some b'
    → cambiar_carga b.servidores i (λ c. c -ℤ pos 1) ≡ some b'.servidores
unfolding restar_carga
restar_carga-cambia b b' i h =
    elim (Option-cases (cambiar_carga b.servidores i (λ c. c -ℤ pos 1))) [
      | inl e ↦ absurd (let r = rw (restar_carga, e) at h in cc)
      | inr (ss, e) ↦ e ∙ ap (λ x. some x.servidores) (some_inj (rw (restar_carga, e) at h))
    ]

sumar_carga-cambia :
    (b b' : Balanceador) (i : ℕ)
    → sumar_carga b i ≡ some b'
    → cambiar_carga b.servidores i (λ c. c +ℤ pos 1) ≡ some b'.servidores
unfolding sumar_carga
sumar_carga-cambia b b' i h = elim (Option-cases (cambiar_carga b.servidores i (λ c. c +ℤ pos 1))) [
  | inl e ↦ absurd (let r = rw (sumar_carga, e) at h in cc)
  | inr (ss, e) ↦ e ∙ ap (λ x. some x.servidores) (some_inj (rw (sumar_carga, e) at h))
]

agregar_cliente-servidores :
    (inet_ntoa : ℕ → ℕ) (b b' : Balanceador) (direccion r : ℕ)
    → agregar_cliente inet_ntoa b direccion r ≡ some b'
    → b'.servidores ≡ b.servidores
unfolding agregar_cliente log
agregar_cliente-servidores inet_ntoa b b' direccion r h = ground arith

-- A choice leaves the servers as they are.
elegir_por-servidores :
    (inet_ntoa : ℕ → ℕ) (a : Algoritmo) (fuel : ℕ) (b b' : Balanceador) (direccion r i : ℕ)
    → elegir_por inet_ntoa a fuel b direccion r ≡ some (b', i)
    → b'.servidores ≡ b.servidores
unfolding elegir_por
elegir_por-servidores inet_ntoa round_robin fuel b b' direccion r i h =
    ap (λ x. x.0.servidores) (sym (some_inj h))
elegir_por-servidores inet_ntoa round_robin_pesos fuel b b' direccion r i h = ground arith
elegir_por-servidores inet_ntoa direccion_cliente fuel b b' direccion r i h =
    ground (arith, agregar_cliente-servidores inet_ntoa b b' direccion r)
elegir_por-servidores inet_ntoa conexiones_activa fuel b b' direccion r i h = ground arith

pub abrir_sesion-cambia :
    (inet_ntoa : ℕ → ℕ) (fuel : ℕ) (b b' : Balanceador) (direccion r i : ℕ)
    → abrir_sesion inet_ntoa fuel b direccion r ≡ some (b', i)
    → cambiar_carga b.servidores i (λ c. c +ℤ pos 1) ≡ some b'.servidores
unfolding abrir_sesion elegir
abrir_sesion-cambia inet_ntoa fuel b b' direccion r i h =
    elim (Option-cases (elegir_por inet_ntoa b.algoritmo_balanceo fuel b direccion r)) [
      | inl e ↦ absurd (let q = rw (abrir_sesion, elegir, e) at h in cc)
      | inr ((b₁, k), e) ↦ elim (Option-cases (sumar_carga b₁ k)) [
        | inl g ↦ absurd (let q = rw (abrir_sesion, elegir, e, g) at h in cc)
        | inr (b₂, g) ↦
            let igual = some_inj (rw (abrir_sesion, elegir, e, g) at h) in
            let mismos =
              elegir_por-servidores inet_ntoa b.algoritmo_balanceo fuel b b₁ direccion r k e in
            let cambio = sumar_carga-cambia b₁ b₂ k g in
            subst (λ x. cambiar_carga b.servidores x.1 (λ c. c +ℤ pos 1) ≡ some x.0.servidores)
              igual
              (subst (λ ss. cambiar_carga ss k (λ c. c +ℤ pos 1) ≡ some b₂.servidores) mismos
                cambio)
      ]
    ]
