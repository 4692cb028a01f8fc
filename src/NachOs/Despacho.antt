-- ===== src/NachOs/Despacho.antt =====
-- `ExceptionHandler` (nachOS/code/userprog/exception.cc): from the code in register 2 to the call.
use server_load_balancer_cli.Prelude.{ℕ, Option, none, some, List, [], ◌∷◌, ◌==◌, if◌then◌else◌}
use server_load_balancer_cli.Prelude.Int.{ℤ, pos, negsuc}
use server_load_balancer_cli.NachOs.Base.{Base, ExceptionType, syscall_exception, fallo}
use server_load_balancer_cli.NachOs.Resultado.{sigue, abortado, luego}
use server_load_balancer_cli.NachOs.Copia.{atender, return_from_system_call}
use server_load_balancer_cli.NachOs.Nucleo.{
  Nucleo, Fin, registro, nachos_halt, nachos_exit, nachos_create, nachos_open, nachos_write,
  nachos_close, nachos_sin_cuerpo,
}
use server_load_balancer_cli.NachOs.Lectura.{nachos_read}
use server_load_balancer_cli.NachOs.Sockets.{
  nachos_socket, nachos_connect, nachos_bind, nachos_listen, nachos_accept, nachos_shutdown,
}

-- The calls by their codes: the fourteen that do something, and those whose body is empty.
pub data Llamada : Type 0 where
  sc_halt : Llamada
  sc_exit : Llamada
  sc_create : Llamada
  sc_open : Llamada
  sc_read : Llamada
  sc_write : Llamada
  sc_close : Llamada
  sc_socket : Llamada
  sc_connect : Llamada
  sc_bind : Llamada
  sc_listen : Llamada
  sc_accept : Llamada
  sc_shutdown : Llamada
  sc_sin_cuerpo : Llamada

abbrev pub codigos : List (ℕ × Llamada)
codigos =
    (0, sc_halt)
    ∷ (1, sc_exit)
    ∷ (2, sc_sin_cuerpo)
    ∷ (3, sc_sin_cuerpo)
    ∷ (4, sc_create)
    ∷ (5, sc_open)
    ∷ (6, sc_read)
    ∷ (7, sc_write)
    ∷ (8, sc_close)
    ∷ (9, sc_sin_cuerpo)
    ∷ (10, sc_sin_cuerpo)
    ∷ (11, sc_sin_cuerpo)
    ∷ (12, sc_sin_cuerpo)
    ∷ (13, sc_sin_cuerpo)
    ∷ (14, sc_sin_cuerpo)
    ∷ (15, sc_sin_cuerpo)
    ∷ (16, sc_sin_cuerpo)
    ∷ (17, sc_sin_cuerpo)
    ∷ (18, sc_sin_cuerpo)
    ∷ (19, sc_sin_cuerpo)
    ∷ (20, sc_sin_cuerpo)
    ∷ (21, sc_sin_cuerpo)
    ∷ (22, sc_sin_cuerpo)
    ∷ (23, sc_sin_cuerpo)
    ∷ (30, sc_socket)
    ∷ (31, sc_connect)
    ∷ (32, sc_bind)
    ∷ (33, sc_listen)
    ∷ (34, sc_accept)
    ∷ (35, sc_shutdown)
    ∷ []

unfoldable pub buscar_codigo : List (ℕ × Llamada) → ℕ → Option Llamada
buscar_codigo [] n = none
buscar_codigo ((c, l) ∷ cs) n = let resto = buscar_codigo cs n in if c == n then some l else resto

unfoldable pub llamada_de : ℤ → Option Llamada
unfolding buscar_codigo
llamada_de (pos n) = buscar_codigo codigos n
llamada_de (negsuc n) = none

module _ (b : Base) where
  -- An unexpected code is a failed ASSERT.
  unfoldable pub llamar : Option Llamada → Nucleo b → Fin b
  unfolding nachos_halt nachos_exit nachos_create nachos_open nachos_write nachos_close
      nachos_sin_cuerpo nachos_read nachos_socket nachos_connect nachos_bind nachos_listen
      nachos_accept nachos_shutdown
  llamar none n = abortado
  llamar (some sc_halt) n = nachos_halt b n
  llamar (some sc_exit) n = nachos_exit b n
  llamar (some sc_create) n = nachos_create b n
  llamar (some sc_open) n = nachos_open b n
  llamar (some sc_read) n = nachos_read b n
  llamar (some sc_write) n = nachos_write b n
  llamar (some sc_close) n = nachos_close b n
  llamar (some sc_socket) n = nachos_socket b n
  llamar (some sc_connect) n = nachos_connect b n
  llamar (some sc_bind) n = nachos_bind b n
  llamar (some sc_listen) n = nachos_listen b n
  llamar (some sc_accept) n = nachos_accept b n
  llamar (some sc_shutdown) n = nachos_shutdown b n
  llamar (some sc_sin_cuerpo) n = nachos_sin_cuerpo b n

  unfoldable pub exception_handler : ExceptionType → Nucleo b → Fin b
  unfolding llamada_de llamar atender return_from_system_call
  exception_handler syscall_exception n =
      luego (llamar (llamada_de (registro b n 2)) n)
        (λ n₂. sigue (record n₂ { maquina = return_from_system_call b.maquina n₂.maquina }))
  exception_handler (fallo f) n = atender f n
