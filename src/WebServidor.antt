-- ===== src/WebServidor.antt =====
-- src/WebServidor.cpp: the child process that answers one request, the announcements, and the
-- processes that wait for a balancer. Sockets give and take bytes; `fork` and `kill` are not modelled.
pub mod Respuesta
pub mod Servicio
pub mod Procesos
mod Tests
use server_load_balancer_cli.Prelude.{
  ℕ, zero, suc, ◌+◌, ◌-◌, Bool, true, false, ◌&&◌, Option, none, some, List, [], ◌∷◌, ◌++◌, length,
  take, drop, get_elem?, ◌==◌, if◌then◌else◌, ◌>>=◌,
}
use server_load_balancer_cli.Prelude.Int.{ℤ, pos, negsuc, ltb_ℤ, size_t, pos_part}
use server_load_balancer_cli.Prelude.Text.{Bytes, codes, find, is_found}
use server_load_balancer_cli.Prelude.Decimal.{to_string}
use server_load_balancer_cli.Utilidades.{crlf, buffer_size}
use server_load_balancer_cli.Socket.{texto_de}
use server_load_balancer_cli.FileSystem.Llamadas.{Sistema}
use server_load_balancer_cli.InterpreteHttp.{
  InterpreteHttp, CuerpoLeido, construir_respuesta, recuperar_header, recuperar_body,
}

-- The loop that reads a request: what each `leer` reads goes into a buffer that no one clears, `memorias`
-- has what it held, and its text up to a NUL is added until the blank line is there. `none`: no NUL stands
-- in the buffer, or the reads end first, and the loop would go on.
unfoldable pub recibir_peticion : List Bytes → List Bytes → Bytes → Option Bytes
unfolding texto_de
recibir_peticion [] memorias peticion = none
recibir_peticion (datos ∷ mas) [] peticion = none
recibir_peticion (datos ∷ mas) (memoria ∷ memorias) peticion = do
  parcial ← texto_de (datos ++ drop (length datos) memoria)
  let junta = peticion ++ parcial
  let resto = recibir_peticion mas memorias junta
  if is_found (find junta (crlf ++ crlf)) then some junta else resto

-- A round of the loop over the body: the test `bytesLeidos > 0`, the write, and the rounds behind it.
enviar_pieza : ℤ → Bytes → (ℕ → Option Bytes) → Option Bytes
enviar_pieza (negsuc n) datos sigue = some []
enviar_pieza (pos zero) datos sigue = some []
enviar_pieza (pos (suc n)) datos sigue = do mas ← sigue (suc n); some (take (suc n) datos ++ mas)

module _ (s : Sistema) where
  open s use {Disco, Fd}

  -- The loop over the body, with fuel: what is written to the socket. `none`: the fuel is used up.
  unfoldable pub enviar_cuerpo : ℕ → Disco → InterpreteHttp Fd → ℕ → Option Bytes
  unfolding enviar_pieza
  enviar_cuerpo zero d h posicion = none
  enviar_cuerpo (suc f) d h posicion =
      let c = recuperar_body s d h posicion buffer_size in
      enviar_pieza c.leidos c.datos (λ n. enviar_cuerpo f d c.http (posicion + n))

module _ (s : Sistema) (fecha_gmt : ℕ → Bytes) where
  open s use {Disco, Fd}

  -- All that a connection gets for a request: the header, and the body in pieces.
  unfoldable pub responder : ℕ → Disco → InterpreteHttp Fd → Bytes → Bytes → Option (Bytes × Bytes)
  unfolding enviar_cuerpo
  responder f d h fecha peticion = do
    h' ← construir_respuesta s fecha_gmt d h peticion
    cuerpo ← enviar_cuerpo s f d h' 0
    some (recuperar_header h' fecha, cuerpo)

-- `avisarBalanceadores`: the datagram that says that this server comes or goes.
unfoldable pub aviso : Bool → Bytes → ℤ → Bytes
aviso desconectar host puerto =
    (if desconectar then codes "S/D/" else codes "S/C/")
    ++ (host ++ (codes "/" ++ to_string puerto))
