-- ===== src/NachOs/Rechazo.antt =====
-- What the system calls on sockets refuse (nachOS/code/userprog/exception.cc).
use server_load_balancer_cli.Prelude.{
  ℕ, ◌≡◌, ◌≢◌, refl, ap, false, Option, none, some, ◌⊎◌, inl, inr, arith, ◌==◌, ==_iff, Bool-cases,
}
use server_load_balancer_cli.Prelude.Int.{ℤ, pos, negsuc, eqb_ℤ}
use server_load_balancer_cli.NachOs.Base.{Base, syscall_exception}
use server_load_balancer_cli.NachOs.Resultado.{sigue}
use server_load_balancer_cli.NachOs.Copia.{return_from_system_call}
use server_load_balancer_cli.NachOs.Nucleo.{Nucleo, registro, responde}
use server_load_balancer_cli.NachOs.Sockets.{tipo_de, familia_de, socket_con, nachos_socket}
use server_load_balancer_cli.NachOs.Despacho.{llamar, llamada_de, buscar_codigo, exception_handler}

eqb_ℤ-ne : (z : ℤ) (n : ℕ) → z ≢ pos n → eqb_ℤ z (pos n) ≡ false
eqb_ℤ-ne (pos k) n h = elim (Bool-cases (k == n)) [
  | inl e ↦ absurd (h (ap pos ((==_iff k n).0 e)))
  | inr e ↦ rw e refl
]
eqb_ℤ-ne (negsuc k) n h = ground arith

module _ (b : Base) where
  tipo_de-none : (z : ℤ) → z ≢ pos 0 → z ≢ pos 1 → tipo_de b z ≡ none
  unfolding tipo_de
  tipo_de-none z h k = rw (eqb_ℤ-ne z 0 h, eqb_ℤ-ne z 1 k) refl

  familia_de-none : (z : ℤ) → z ≢ pos 0 → z ≢ pos 1 → familia_de b z ≡ none
  unfolding familia_de
  familia_de-none z h k = rw (eqb_ℤ-ne z 0 h, eqb_ℤ-ne z 1 k) refl

  socket_con-none :
      (tipo : Option ℤ) (n : Nucleo b) → socket_con b tipo none n ≡ sigue (responde b n (negsuc 0))
  unfolding socket_con
  socket_con-none none n = refl
  socket_con-none (some t) n = refl

  -- A `Socket` with a type or a family that is neither of its two answers -1 and returns, opens no socket
  -- of the host and leaves the table of open files.
  pub exception_handler-rechaza :
      (n : Nucleo b)
      → registro b n 2 ≡ pos 30
      → ((registro b n 5 ≢ pos 0) × (registro b n 5 ≢ pos 1))
        ⊎ ((registro b n 4 ≢ pos 0) × (registro b n 4 ≢ pos 1))
      → exception_handler b syscall_exception n
        ≡ sigue (record n {
          maquina = return_from_system_call b.maquina (responde b n (negsuc 0)).maquina;
        })
  unfolding exception_handler llamada_de llamar nachos_socket buscar_codigo
  exception_handler-rechaza n c (inl (h, k)) =
      rw (c, llamar, nachos_socket, tipo_de-none (registro b n 5) h k, socket_con) refl
  exception_handler-rechaza n c (inr (h, k)) =
      rw
        (
          c,
          llamar,
          nachos_socket,
          familia_de-none (registro b n 4) h k,
          socket_con-none (tipo_de b (registro b n 5)) n,
        )
        refl
