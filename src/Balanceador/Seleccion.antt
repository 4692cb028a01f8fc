-- ===== src/Balanceador/Seleccion.antt =====
-- `hilo_Cliente` of src/Balanceador.cpp: which server a client is sent to, and the count of its load.
use server_load_balancer_cli.Prelude.{
  ℕ, zero, suc, true, false, Option, none, some, List, [], ◌∷◌, ◌++◌, length, get_elem?, set, leb,
  ◌==◌, if◌then◌else◌, ◌>>=◌,
}
use server_load_balancer_cli.Prelude.Int.{ℤ, pos, pos_part, ◌+ℤ◌, ◌-ℤ◌, ltb_ℤ}
use server_load_balancer_cli.Prelude.Text.{codes}
use server_load_balancer_cli.Utilidades.{get_numero_random}
use server_load_balancer_cli.Balanceador.{
  Servidor, Cliente, Balanceador, Algoritmo, round_robin, round_robin_pesos, direccion_cliente,
  conexiones_activa, log,
}

-- The next place in turn, back to the front at the end of the vector.
unfoldable pub siguiente : ℕ → ℕ → ℕ
siguiente size value = if leb size (suc value) then 0 else suc value

-- The loop of the weighted turn, from `value` on, with fuel: the first place whose load is not above
-- its bound. `none`: the place is out of the vector, or the fuel is used up.
unfoldable pub buscar_libre : ℕ → List Servidor → ℕ → Option ℕ
unfolding siguiente
buscar_libre zero ss value = none
buscar_libre (suc f) ss value = elim (get_elem? ss value) [
  | none ↦ none
  | some s ↦ elim (ltb_ℤ s.carga_maxima s.carga_actual) [
    | true ↦ buscar_libre f ss (siguiente (length ss) value)
    | false ↦ some value
  ]
]

-- `buscarServidorConMenorCarga`: the loop over the vector, at place `i`, with the least load so far
-- and its place (`none` is -1).
unfoldable pub menor_carga_loop : List Servidor → ℕ → ℤ → Option ℕ → Option ℕ
menor_carga_loop [] i carga_menor posicion = posicion
menor_carga_loop (s ∷ ss) i carga_menor posicion =
    if ltb_ℤ s.carga_actual carga_menor
    then menor_carga_loop ss (suc i) s.carga_actual (some i)
    else menor_carga_loop ss (suc i) carga_menor posicion

abbrev pub int32_max : ℕ
int32_max = 2147483647

unfoldable pub buscar_servidor_con_menor_carga : List Servidor → Option ℕ
unfolding menor_carga_loop
buscar_servidor_con_menor_carga ss = menor_carga_loop ss 0 (pos int32_max) none

-- `inet_ntoa` gives a place in memory for an address; the source compares the places.
module _ (inet_ntoa : ℕ → ℕ) where
  unfoldable pub buscar_cliente : List Cliente → ℕ → Option ℕ
  buscar_cliente [] direccion = none
  buscar_cliente (c ∷ cs) direccion = elim (inet_ntoa direccion == inet_ntoa c.direccion) [
    | true ↦ some 0
    | false ↦ elim (buscar_cliente cs direccion) [ none ↦ none | some i ↦ some (suc i) ]
  ]

  -- `agregarCliente`, for the value `r` of `rand`.
  unfoldable pub agregar_cliente : Balanceador → ℕ → ℕ → Option Balanceador
  unfolding buscar_cliente log
  agregar_cliente b direccion r = elim (buscar_cliente b.clientes direccion) [
    | some i ↦ some b
    | none ↦ do
      n ← get_numero_random r (pos 0) (pos (length b.servidores) -ℤ pos 1)
      let nuevo : Cliente = record { direccion = direccion; servidor_asociado = pos_part n }
      some (
          log (record b { clientes = b.clientes ++ nuevo ∷ [] })
            (codes " * Cliente nuevo registrado para el metodo de Balanceo. \n"))
  ]

  -- The `switch`: the new state and `indice_ip`, which is 0 unless a branch sets it. `fuel` bounds the
  -- loop of the weighted turn; `none` is also an index of -1.
  unfoldable pub elegir_por : Algoritmo → ℕ → Balanceador → ℕ → ℕ → Option (Balanceador × ℕ)
  unfolding siguiente buscar_libre buscar_servidor_con_menor_carga agregar_cliente
  elegir_por round_robin fuel b direccion r = some (
    record b { round_robin_actual = siguiente (length b.servidores) b.round_robin_actual },
    b.round_robin_actual,
  )
  elegir_por round_robin_pesos fuel b direccion r = do
    i ← buscar_libre fuel b.servidores 0
    some (b, i)
  elegir_por direccion_cliente fuel b direccion r = elim (buscar_cliente b.clientes direccion) [
    | some i ↦ some (b, 0)
    | none ↦ do b' ← agregar_cliente b direccion r; some (b', 0)
  ]
  elegir_por conexiones_activa fuel b direccion r = do
    i ← buscar_servidor_con_menor_carga b.servidores
    some (b, i)

  unfoldable pub elegir : ℕ → Balanceador → ℕ → ℕ → Option (Balanceador × ℕ)
  unfolding elegir_por
  elegir fuel b direccion r = elegir_por b.algoritmo_balanceo fuel b direccion r

-- `servidores[indice].carga_actual += n`. `none`: the place is out of the vector.
unfoldable pub cambiar_carga : List Servidor → ℕ → (ℤ → ℤ) → Option (List Servidor)
cambiar_carga ss i f = do
  s ← get_elem? ss i
  some (set ss i (record s { carga_actual = f s.carga_actual }))

unfoldable pub sumar_carga : Balanceador → ℕ → Option Balanceador
unfolding cambiar_carga
sumar_carga b i = do
  ss ← cambiar_carga b.servidores i (λ c. c +ℤ pos 1)
  some (record b { servidores = ss })

unfoldable pub restar_carga : Balanceador → ℕ → Option Balanceador
unfolding cambiar_carga
restar_carga b i = do
  ss ← cambiar_carga b.servidores i (λ c. c -ℤ pos 1)
  some (record b { servidores = ss })

-- The start of a session: the choice, and the load of the chosen server one higher.
module _ (inet_ntoa : ℕ → ℕ) where
  unfoldable pub abrir_sesion : ℕ → Balanceador → ℕ → ℕ → Option (Balanceador × ℕ)
  unfolding elegir sumar_carga
  abrir_sesion fuel b direccion r = do
    elegido ← elegir inet_ntoa fuel b direccion r
    b' ← sumar_carga elegido.0 elegido.1
    some (b', elegido.1)
