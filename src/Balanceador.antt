-- ===== src/Balanceador.antt =====
-- src/Balanceador.cpp: the state of the balancer, the log, and the registry of servers and clients.
-- What is broadcast is kept as the list `enviados`; `rand` and libc's address functions are arguments.
pub mod Seleccion
pub mod Busqueda
pub mod Registro
pub mod Conjunto
pub mod Anuncio
pub mod Eleccion
pub mod Pesos
pub mod Bitacora
pub mod Reporte
pub mod Reenvio
pub mod SinServidores
pub mod Puertos
pub mod Difusion
pub mod Inicio
pub mod Cargas
pub mod Sesiones
pub mod Desfase
mod Tests
mod TestsReporte
mod TestsPuertos
use server_load_balancer_cli.Prelude.{
  ℕ, zero, suc, ◌+◌, ◌-◌, Bool, true, false, not, ◌&&◌, ◌||◌, Option, none, some, List, [], ◌∷◌,
  ◌++◌, length, take, drop, erase_at, get_elem?, ltb, leb, ◌==◌, if◌then◌else◌, ◌>>=◌,
}
use server_load_balancer_cli.Prelude.Int.{ℤ, pos, negsuc, ◌+ℤ◌, ◌-ℤ◌, leb_ℤ, pos_part}
use server_load_balancer_cli.Prelude.Text.{Bytes, codes, text_eq, find, c_str}
use server_load_balancer_cli.Prelude.Decimal.{to_string, to_string_ℕ, atoi}
use server_load_balancer_cli.Utilidades.{get_numero_random, split_linea}

-- `ServidorRegistrado`. `ip` is the 32 bytes of the array: the text is what stands before a NUL.
pub record Servidor : Type 0 where
  pub comparador : Bytes
  pub ip : Bytes
  pub port : ℤ
  pub carga_actual : ℤ
  pub carga_maxima : ℤ

-- `ClienteRegistrado`: the address, and the place of its server in the vector.
pub record Cliente : Type 0 where
  pub direccion : ℕ
  pub servidor_asociado : ℕ

pub data Algoritmo : Type 0 where
  round_robin round_robin_pesos direccion_cliente conexiones_activa : Algoritmo

pub record Balanceador : Type 0 where
  pub ip_subnet : Bytes
  pub puerto_cliente : ℤ
  pub servidores : List Servidor
  pub clientes : List Cliente
  pub servidores_actuales : ℤ
  pub round_robin_actual : ℕ
  pub algoritmo_balanceo : Algoritmo
  pub log_mensajes : List Bytes
  pub file_position : ℕ
  -- What `enviarDatagram` was called with, the last text first, whatever `sendto` answered.
  pub enviados : List Bytes

abbrev pub max_servidores : ℕ
max_servidores = 12

-- The colour codes.
abbrev pub red : Bytes
red = 27 ∷ codes "[31m"

abbrev pub white : Bytes
white = 27 ∷ codes "[0m"

unfoldable pub log : Balanceador → Bytes → Balanceador
log b mensaje = record b { log_mensajes = b.log_mensajes ++ mensaje ∷ [] }

unfoldable pub log_red : Balanceador → Bytes → Balanceador
unfolding log
log_red b mensaje = log (log (log b red) mensaje) white

unfoldable pub mostrar_estadisticas : Balanceador → Balanceador
unfolding log
mostrar_estadisticas b =
    log
      (log
        (log (log (log b (codes " * (SERVIDORES CONECTADOS: ")) (to_string b.servidores_actuales))
          (codes "/"))
        (to_string_ℕ max_servidores))
      (codes ")\n")

-- `avisarServidores`: the message on the new broadcast socket; leaving is logged first.
unfoldable pub avisar_servidores : Balanceador → Bool → Balanceador
unfolding log
avisar_servidores b desconectar =
    let orden = if desconectar then codes "B/D/" else codes "B/C/" in
    let mensaje = orden ++ (b.ip_subnet ++ (codes "/" ++ to_string b.puerto_cliente)) in
    let b' : Balanceador =
      if desconectar
      then log b (codes " * El balanceador envia DISCONNECT al servidor. \n")
      else b in
    record b' { enviados = mensaje ∷ b.enviados }

-- `ALGORITMO`, from the number that a user gives.
unfoldable pub algoritmo_de : ℤ → Option Algoritmo
algoritmo_de (negsuc n) = none
algoritmo_de (pos n) =
    if n == 0
    then some round_robin
    else if n == 1
    then some round_robin_pesos
    else if n == 2
    then some direccion_cliente
    else if n == 3
    then some conexiones_activa
    else none

nombre_algoritmo : Algoritmo → Bytes
nombre_algoritmo round_robin = codes "Round Robin)\n"
nombre_algoritmo round_robin_pesos = codes "Round Robin con pesos)\n"
nombre_algoritmo direccion_cliente = codes "Direccion Cliente)\n"
nombre_algoritmo conexiones_activa = codes "Conexiones Activas)\n"

unfoldable pub set_algoritmo_balanceo : Balanceador → ℤ → Balanceador
unfolding algoritmo_de nombre_algoritmo log
set_algoritmo_balanceo b n = elim (algoritmo_de n) [
  | none ↦ b
  | some a ↦
      log (log (record b { algoritmo_balanceo = a }) (codes " * (METODO DE BALANCEO ACTUAL: "))
        (nombre_algoritmo a)
]

-- One round of `hilo_Input`, on a line of the console.
unfoldable pub entrada : Balanceador → Bytes → Balanceador
unfolding set_algoritmo_balanceo
entrada b linea =
    let partes = split_linea linea (codes " ") in
    let num = atoi partes.1 in
    if text_eq partes.0 (codes "metodo")
    then (if not (text_eq partes.1 []) && (leb_ℤ (pos 0) num && leb_ℤ num (pos 3))
        then set_algoritmo_balanceo b num
        else log b (codes " * Metodo de balanceo invalido.\n"))
    else log b (codes " * Comando invalido.\n")

-- `buscarServidor`: the first server that was registered under the text.
unfoldable pub buscar_servidor : List Servidor → Bytes → Option ℕ
buscar_servidor [] hilera = none
buscar_servidor (s ∷ ss) hilera = elim (text_eq hilera s.comparador) [
  | true ↦ some 0
  | false ↦ elim (buscar_servidor ss hilera) [ none ↦ none | some i ↦ some (suc i) ]
]

-- The address and the port of an announcement behind its first four bytes. With no separator
-- `strpos` is -2, and both are the whole text.
unfoldable pub partir_anuncio : Bytes → Bytes × Bytes
partir_anuncio ip = elim (find ip (codes "/")) [
  | none ↦ (ip, ip)
  | some p ↦ (take p ip, drop (p + 1) ip)
]

-- `strncpy(s.ip, addr, addr.length())` into 32 bytes that hold `basura`: no NUL is written.
-- `none`: the address is longer than the array.
unfoldable pub copiar_ip : Bytes → Bytes → Option Bytes
copiar_ip addr basura =
    if ltb 32 (length addr) then none else some (addr ++ drop (length addr) basura)

-- The rest of `agregarServidor`, for a text that is new, with its two parts, the load bound and the
-- bytes of the new `s.ip`.
unfoldable pub registrar : Balanceador → Bytes → Bytes × Bytes → ℤ → Bytes → Balanceador
unfolding log avisar_servidores mostrar_estadisticas
registrar b ip partes maxima guardada =
    let nuevo : Servidor = record {
      comparador = ip;
      ip = guardada;
      port = atoi partes.1;
      carga_actual = pos 0;
      carga_maxima = maxima;
    } in
    let b₁ : Balanceador = record b { servidores = b.servidores ++ nuevo ∷ [] } in
    let b₂ : Balanceador = log b₁ (
      codes " * Se ha agregado un servidor: "
      ++ (partes.0 ++ (codes ":" ++ (partes.1 ++ codes "\n")))) in
    let b₃ : Balanceador = record b₂ { servidores_actuales = b₂.servidores_actuales +ℤ pos 1 } in
    mostrar_estadisticas (avisar_servidores b₃ false)

-- `agregarServidor`, for the value `r` of `rand` and the bytes `basura` of the new `s.ip`.
unfoldable pub agregar_servidor : Balanceador → Bytes → ℕ → Bytes → Option Balanceador
unfolding registrar
agregar_servidor b mensaje r basura =
    let ip = c_str (drop 4 mensaje) in
    let partes = partir_anuncio ip in
    elim (buscar_servidor b.servidores ip) [
      | some i ↦ some b
      | none ↦ do
        maxima ← get_numero_random r (pos 5) (pos 10)
        guardada ← copiar_ip partes.0 basura
        some (registrar b ip partes maxima guardada)
    ]

unfoldable pub eliminar_servidor : Balanceador → Bytes → Balanceador
unfolding log mostrar_estadisticas
eliminar_servidor b mensaje =
    let ip = c_str (drop 4 mensaje) in
    let partes = partir_anuncio ip in
    elim (buscar_servidor b.servidores ip) [
      | none ↦ b
      | some i ↦ mostrar_estadisticas (
          log
            (record b {
              servidores = erase_at b.servidores i;
              servidores_actuales = b.servidores_actuales -ℤ pos 1;
            })
            (codes " * Se ha eliminado el servidor: "
              ++ (partes.0 ++ (codes ":" ++ (partes.1 ++ codes "\n")))))
    ]

-- Does the datagram hold the byte at the place?
unfoldable pub es_byte : Bytes → ℕ → ℕ → Bool
es_byte datos i c = elim (get_elem? datos i) [ none ↦ false | some x ↦ x == c ]

-- Does the round read behind the NUL that it writes? The third byte of a datagram of one byte, and the
-- text behind `S/C` or `S/D` alone, are not set.
unfoldable pub sin_fijar : Bytes → Bool
unfolding es_byte
sin_fijar datos =
    (length datos == 1) || ((length datos == 3) && (es_byte datos 2 b'C' || es_byte datos 2 b'D'))

-- One round of `hilo_Escuchador_Servidores`, on the `leidos` bytes of a datagram in a buffer of 64.
-- `none`: the end of text is written out of the buffer, when 64 bytes come or `recvfrom` fails, or a
-- byte is read that nothing sets.
unfoldable pub recibir_anuncio : Balanceador → Option Bytes → ℕ → Bytes → Option Balanceador
unfolding es_byte sin_fijar agregar_servidor eliminar_servidor
recibir_anuncio b none r basura = none
recibir_anuncio b (some datos) r basura =
    if leb 64 (length datos)
    then none
    else if not (es_byte datos 0 b'S')
    then some b
    else if sin_fijar datos
    then none
    else do
      b' ← if es_byte datos 2 b'C' then agregar_servidor b datos r basura else some b
      some (if es_byte datos 2 b'D' then eliminar_servidor b' datos else b')
