-- ===== src/Balanceador/Puertos.antt =====
-- The sockets of the balancer (src/Balanceador.cpp): the binding of its ports, its announcements on a new
-- broadcast socket, and the end by Control+C.
use server_load_balancer_cli.Prelude.{
  ℕ, Bool, true, false, Option, none, some, List, [], ◌∷◌, ◌++◌, if◌then◌else◌,
}
use server_load_balancer_cli.Prelude.Int.{ℤ, pos, negsuc, eqb_ℤ}
use server_load_balancer_cli.Prelude.Text.{Bytes, codes, c_str}
use server_load_balancer_cli.Prelude.Decimal.{to_string}
use server_load_balancer_cli.Socket.{
  Red, Socket, nuevo_socket, vincular, vincular_broadcast, escuchar, escribir_a, apagar, cerrar,
}
use server_load_balancer_cli.Balanceador.{
  Balanceador, log, log_red, avisar_servidores, set_algoritmo_balanceo,
}
use server_load_balancer_cli.Balanceador.Bitacora.{Volcado, manejar_bitacora}

-- The balancer with its sockets.
pub record Puertos : Type 0 where
  pub balanceador : Balanceador
  pub puerto_servidor : ℤ
  pub direccion_host : Bytes
  pub ejecutandose : Bool
  pub escuchador_http : Option Socket
  pub escuchador_broadcast : Option Socket

-- `_exit(1)` with the log as it is written then, undefined behaviour, or the balancer.
pub data Arranque (M : Type 0) : Type 0 where
  salida : Puertos → Volcado → M → Arranque M
  indefinido : Arranque M
  en_marcha : Puertos → M → Arranque M

-- The log of `imprimirErrorEscucha`.
unfoldable pub error_anotado : Puertos → ℤ → Balanceador
unfolding log log_red
error_anotado p puerto =
    let b₁ = log_red p.balanceador (codes " * Acceso denegado al puerto ") in
    let b₂ = log_red b₁ (to_string puerto) in
    let b₃ = log_red b₂ (codes ", intente con otro puerto. \n") in
    let b₄ = log b₃ (codes " * Uso: ./bin/Balanceador <puertoHttp> <puertoBroadcast> \n") in
    log_red b₄ (codes " * Abortando el programa... \n")

-- `imprimirErrorEscucha`, up to its `_exit(1)`.
unfoldable pub imprimir_error_escucha : {M : Type 0} → Puertos → ℤ → M → Arranque M
unfolding error_anotado manejar_bitacora
imprimir_error_escucha p puerto u = elim (manejar_bitacora (error_anotado p puerto)) [
  | none ↦ indefinido
  | some (b, volcado) ↦ salida (record p { balanceador = b; ejecutandose = false }) volcado u
]

-- The lines that a balancer which runs logs, for the text of `getBroadcastIP`.
unfoldable pub anotar_puertos : Puertos → Bytes → Balanceador
unfolding log
anotar_puertos p difusion =
    let b = p.balanceador in
    let b₁ =
      log b (codes " * Puerto de Requests: " ++ (to_string b.puerto_cliente ++ codes "\n")) in
    let b₂ =
      log b₁ (codes " * Puerto de Broadcast: " ++ (to_string p.puerto_servidor ++ codes "\n")) in
    let b₃ = log b₂ (codes " * Direccion IP Local: " ++ (p.direccion_host ++ codes "\n")) in
    let b₄ = log b₃ (codes " * Direccion IP Subnet: " ++ (b.ip_subnet ++ codes "\n")) in
    log b₄ (codes " * Direccion IP Broadcast: " ++ (difusion ++ codes "\n"))

abbrev pub ultimo_enviado : List Bytes → Bytes
ultimo_enviado [] = []
ultimo_enviado (d ∷ ds) = d

module _ (r : Red) where
  abbrev pub cerrar_socket : Option Socket → r.Mundo → r.Mundo
  unfolding apagar cerrar
  cerrar_socket none u = u
  cerrar_socket (some s) u = cerrar r s (apagar r s (pos 2) u).1

  -- `avisarServidores`, with its sockets: the old one is closed, and the message goes out on a new one.
  unfoldable pub avisar : Bytes → ℕ → Bool → Puertos → r.Mundo → Puertos × r.Mundo
  unfolding nuevo_socket vincular_broadcast escribir_a avisar_servidores c_str apagar cerrar
  avisar difusion basura desconectar p u =
      let (s, u₂) = nuevo_socket r (cerrar_socket p.escuchador_broadcast u) basura false false in
      let (estado, s₂, u₃) = vincular_broadcast r s difusion p.puerto_servidor true u₂ in
      let b = avisar_servidores p.balanceador desconectar in
      let (escritos, u₄) = escribir_a r s₂ (c_str (ultimo_enviado b.enviados)) u₃ in
      (record p { balanceador = b; escuchador_broadcast = some s₂ }, u₄)

  -- The part of `vincularPuertos` behind the HTTP socket.
  unfoldable pub vincular_segundo : Bytes → ℕ → Puertos → r.Mundo → Arranque r.Mundo
  unfolding nuevo_socket vincular_broadcast imprimir_error_escucha anotar_puertos
      set_algoritmo_balanceo avisar
  vincular_segundo difusion basura p u =
      let (s, u₂) = nuevo_socket r u basura false false in
      let (estado, s₂, u₃) = vincular_broadcast r s difusion p.puerto_servidor true u₂ in
      let p₂ : Puertos = record p { escuchador_broadcast = some s₂ } in
      let p₃ : Puertos = record p₂ {
        balanceador = set_algoritmo_balanceo (anotar_puertos p₂ difusion) (pos 0);
      } in
      let (p₄, u₄) = avisar difusion basura false p₃ u₃ in
      if eqb_ℤ estado (negsuc 0)
      then imprimir_error_escucha p₂ p.puerto_servidor u₃
      else if p.ejecutandose
      then en_marcha p₄ u₄
      else en_marcha p₂ u₃

  unfoldable pub vincular_puertos : Bytes → ℕ → Puertos → r.Mundo → Arranque r.Mundo
  unfolding nuevo_socket vincular escuchar imprimir_error_escucha vincular_segundo
  vincular_puertos difusion basura p u =
      let (s, u₂) = nuevo_socket r u basura true false in
      let (estado, s₂, u₃) = vincular r s none p.balanceador.puerto_cliente u₂ in
      let p₂ : Puertos = record p { escuchador_http = some s₂ } in
      let segundo = vincular_segundo difusion basura p₂ (escuchar r s₂ (pos 128) u₃).1 in
      if eqb_ℤ estado (negsuc 0)
      then imprimir_error_escucha p₂ p.balanceador.puerto_cliente u₃
      else segundo

  -- `controladorCtrlC`.
  unfoldable pub controlador_ctrl_c : Bytes → ℕ → Puertos → r.Mundo → Puertos × r.Mundo
  unfolding log avisar apagar cerrar
  controlador_ctrl_c difusion basura p u =
      let p₂ : Puertos = record p {
        balanceador = log p.balanceador (codes "\n");
        ejecutandose = false;
      } in
      let (p₃, u₂) = avisar difusion basura true p₂ u in
      (p₃, cerrar_socket p₃.escuchador_broadcast (cerrar_socket p₃.escuchador_http u₂))
