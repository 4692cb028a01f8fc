-- ===== src/WebServidor/Procesos.antt =====
-- The processes of src/WebServidor.cpp around the sockets: the constructor, the announcements, the wait
-- for a balancer, and the end. The flags `ejecutandose` and `conectado` are in shared memory.
use server_load_balancer_cli.Prelude.{
  ℕ, zero, suc, Bool, true, false, ◌&&◌, Option, none, some, List, [], ◌∷◌, ◌++◌, length, set, drop,
  get_elem?, ◌==◌, leb, if◌then◌else◌, ◌>>=◌,
}
use server_load_balancer_cli.Prelude.Int.{ℤ, pos, negsuc, eqb_ℤ, ltb_ℤ}
use server_load_balancer_cli.Prelude.Text.{Bytes}
use server_load_balancer_cli.Prelude.Decimal.{atoi}
use server_load_balancer_cli.WebServidor.{aviso}
use server_load_balancer_cli.Socket.{
  Red, Socket, nuevo_socket, vincular, vincular_broadcast, escuchar, escribir_a, leer_de, apagar,
  cerrar,
}

-- The flags, the sockets, the address and the two ports, and the processes that are remembered.
pub record WebServidor : Type 0 where
  pub ejecutandose : Bool
  pub conectado : Bool
  pub conexion : Socket
  pub broadcast : Option Socket
  pub direccion_host : Bytes
  pub puerto_requests : ℤ
  pub puerto_broadcast : ℤ
  pub procesos : List ℤ

-- How the constructor ends: `_exit(1)`, or an object.
pub data Inicio (M : Type 0) : Type 0 where
  abortado : M → Inicio M
  iniciado : WebServidor → M → Inicio M

-- `bufferBalanceadorRespuesta[i] == c`.
abbrev pub es_letra : Bytes → ℕ → ℕ → Bool
es_letra buffer i c = letra (get_elem? buffer i)
  where
    letra : Option ℕ → Bool
    letra none = false
    letra (some x) = x == c

-- The buffer of 64 bytes after a read: the bytes, and a NUL at the result. `none`: the NUL is written
-- outside, behind 64 bytes or before the first.
unfoldable pub con_nul : Bytes → ℤ → Bytes → Option Bytes
con_nul buffer (pos n) datos =
    if leb (length buffer) n then none else some (set (datos ++ drop (length datos) buffer) n 0)
con_nul buffer (negsuc n) datos = none

module _ (r : Red) where
  abbrev pub cerrar_broadcast : Option Socket → r.Mundo → r.Mundo
  unfolding apagar cerrar
  cerrar_broadcast none u = u
  cerrar_broadcast (some s) u = cerrar r s (apagar r s (pos 2) u).1

  -- `subred` is what `getBroadcastIP` gives. The old socket is closed, its object is not deleted.
  unfoldable pub avisar_balanceadores :
      Bytes → ℕ → Bool → WebServidor → r.Mundo → WebServidor × r.Mundo
  unfolding nuevo_socket vincular_broadcast escribir_a aviso apagar cerrar
  avisar_balanceadores subred basura desconectar w u =
      let (s, u₂) = nuevo_socket r (cerrar_broadcast w.broadcast u) basura false false in
      let (estado, s₂, u₃) = vincular_broadcast r s subred w.puerto_broadcast true u₂ in
      let (escritos, u₄) =
        escribir_a r s₂ (aviso desconectar w.direccion_host w.puerto_requests) u₃ in
      (record w { broadcast = some s₂ }, u₄)

  unfoldable pub iniciar_broadcast : Bytes → ℕ → WebServidor → r.Mundo → Inicio r.Mundo
  unfolding nuevo_socket vincular_broadcast
  iniciar_broadcast subred basura w u =
      let (s, u₂) = nuevo_socket r u basura false false in
      let (estado, s₂, u₃) = vincular_broadcast r s subred w.puerto_broadcast true u₂ in
      if eqb_ℤ estado (negsuc 0)
      then abortado u₃
      else iniciado (record w { broadcast = some s₂; ejecutandose = true }) u₃

  abbrev pub con_ip : Option Bytes → (Bytes → Inicio r.Mundo) → r.Mundo → Inicio r.Mundo
  con_ip none k u = abortado u
  con_ip (some ip) k u = k ip

  -- The constructor, on the socket that its member's constructor made.
  unfoldable pub iniciar : Bytes → ℕ → Socket → ℤ → ℤ → Option Bytes → r.Mundo → Inicio r.Mundo
  unfolding vincular escuchar iniciar_broadcast
  iniciar subred basura conexion p p2 ip u =
      let (estado, s, u₂) = vincular r conexion none p u in
      let (escucha, u₃) = escuchar r s (pos 128) u₂ in
      let sigue : Bytes → Inicio r.Mundo = λ host.
        iniciar_broadcast subred basura
          (record {
            ejecutandose = true;
            conectado = false;
            conexion = s;
            broadcast = none;
            direccion_host = host;
            puerto_requests = p;
            puerto_broadcast = p2;
            procesos = [];
          })
          u₃ in
      if eqb_ℤ estado (negsuc 0) then abortado u₂ else con_ip ip sigue u₃

  -- The destructor, whose message goes out only if `conectado`.
  unfoldable pub destruir : Bytes → ℕ → WebServidor → r.Mundo → r.Mundo
  unfolding avisar_balanceadores apagar cerrar
  destruir subred basura w u =
      let (w₂, u₂) = avisar_balanceadores subred basura true w u in
      let (w₃, u₃) = if w.conectado then (w₂, u₂) else (w, u) in
      cerrar_broadcast w₃.broadcast (cerrar r w₃.conexion (apagar r w₃.conexion (pos 2) u₃).1)

  -- One read of the wait: `none` is a NUL outside the buffer. The first result is the buffer.
  unfoldable pub leer_respuesta : Socket → Bytes → r.Mundo → Option (Bytes × Socket × r.Mundo)
  unfolding leer_de con_nul
  leer_respuesta s buffer u =
      let (datos, leidos, s₂, u₂) = leer_de r s 64 u in
      con_nul buffer leidos datos >>= λ lleno. some (lleno, s₂, u₂)

  -- The loop `while(*conectado == false)`, with fuel: it ends at a datagram `B?C`, announces the server
  -- again, and sets the flag. `none`: undefined behaviour, or the fuel is used up.
  unfoldable pub esperar_balanceador :
      Bytes → ℕ → ℕ → Socket → Bytes → WebServidor → r.Mundo → Option (WebServidor × r.Mundo)
  unfolding leer_respuesta avisar_balanceadores
  esperar_balanceador subred basura zero s buffer w u = none
  esperar_balanceador subred basura (suc f) s buffer w u =
      leer_respuesta s buffer u >>= λ (lleno, s₂, u₂).
      let w₂ : WebServidor = record w { broadcast = some s₂ } in
      let (w₃, u₃) = avisar_balanceadores subred basura false w₂ u₂ in
      let sigue = esperar_balanceador subred basura f s₂ lleno w₂ u₂ in
      if es_letra lleno 0 b'B' && es_letra lleno 2 b'C'
      then some (record w₃ { conectado = true }, u₃)
      else sigue

  -- A round of the loop that waits for the balancer's end.
  unfoldable pub atender_cierre :
      Socket → Bytes → WebServidor → r.Mundo → Option (Bytes × WebServidor × r.Mundo)
  unfolding leer_respuesta
  atender_cierre s buffer w u = leer_respuesta s buffer u >>= λ (lleno, s₂, u₂).
      let w₂ : WebServidor = record w { broadcast = some s₂ } in
      some (
        lleno,
        if es_letra lleno 0 b'B' && es_letra lleno 2 b'D'
            then record w₂ { ejecutandose = false }
            else w₂,
        u₂,
      )

-- `crearProceso`, on what `fork` gives; `none` is `exit(1)`.
unfoldable pub crear_proceso : ℤ → Bool → WebServidor → Option (ℤ × WebServidor)
crear_proceso pid recordar w =
    if eqb_ℤ pid (negsuc 0)
    then none
    else if ltb_ℤ (pos 0) pid && recordar
    then some (pid, record w { procesos = w.procesos ++ pid ∷ [] })
    else some (pid, w)

-- The processes that the parent ends with SIGTERM.
unfoldable pub terminar : ℤ → WebServidor → List ℤ
terminar pid w = if ltb_ℤ (pos 0) pid then w.procesos else []

-- The arguments of `main`: the ports and the address; `none` is `exit(1)`.
unfoldable pub argumentos : List Bytes → Option (ℤ × ℤ × Bytes)
argumentos (programa ∷ ip ∷ http ∷ broadcast ∷ mas) = some (atoi http, atoi broadcast, ip)
argumentos pocos = none
