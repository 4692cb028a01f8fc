-- ===== src/NachOs/Avance.antt =====
-- Every system call that returns leaves the program at its next instruction (nachOS/code/userprog/exception.cc).
use server_load_balancer_cli.Prelude.{
  ◌≡◌, refl, Option, none, some, ◌∙◌, arith, ap, subst, Bool, true, false, if◌then◌else◌,
}
use server_load_balancer_cli.Prelude.Int.{ℤ, pos, negsuc, ◌+ℤ◌}
use server_load_balancer_cli.Prelude.Text.{Bytes, c_str}
use server_load_balancer_cli.NachOs.Base.{
  Registros, Base, syscall_exception, pc_reg, next_pc_reg, prev_pc_reg,
}
use server_load_balancer_cli.NachOs.Resultado.{sigue}
use server_load_balancer_cli.NachOs.Contador.{Vale, Vale-luego}
use server_load_balancer_cli.NachOs.Quietud.{
  Quieto, Quieto-responde, Quieto-traer, Quieto-tras, Quieto-create, Quieto-open, Quieto-write,
  Quieto-read, Quieto-close, Quieto-exit,
}
use server_load_balancer_cli.NachOs.Copia.{return_from_system_call}
use server_load_balancer_cli.NachOs.OpenFilesTable.{oft_open}
use server_load_balancer_cli.NachOs.Nucleo.{
  Nucleo, registro, responde, nachos_halt, nachos_sin_cuerpo,
}
use server_load_balancer_cli.NachOs.Sockets.{
  Familia, inet, inet6, otra_familia, tipo_de, familia_de, familia, socket_con, nachos_socket,
  connect_en, nachos_connect, bind_en, nachos_bind, nachos_listen, accept_en, nachos_accept,
  nachos_shutdown,
}
use server_load_balancer_cli.NachOs.Despacho.{
  Llamada, sc_halt, sc_exit, sc_create, sc_open, sc_read, sc_write, sc_close, sc_socket, sc_connect,
  sc_bind, sc_listen, sc_accept, sc_shutdown, sc_sin_cuerpo, llamar, llamada_de, exception_handler,
}

module _ (b : Base) (r : Registros b.maquina) where
  Quieto-socket_con :
      (tipo familia : Option ℤ) (n : Nucleo b) → Vale (Quieto b r n) (socket_con b tipo familia n)
  unfolding socket_con
  Quieto-socket_con none familia n = Quieto-responde b r n (negsuc 0)
  Quieto-socket_con (some tipo) none n = Quieto-responde b r n (negsuc 0)
  Quieto-socket_con (some tipo) (some familia) n =
      let (socket_fd, u) = b.unix.socket n.unix familia tipo in
      Quieto-tras b r n (oft_open b.bits n.oft socket_fd)
        (λ (nachos_fd, t). sigue (responde b (record n { unix = u; oft = t }) nachos_fd))
        (λ (nachos_fd, t). Quieto-responde b r n nachos_fd)

  Quieto-socket : (n : Nucleo b) → Vale (Quieto b r n) (nachos_socket b n)
  unfolding nachos_socket
  Quieto-socket n = Quieto-socket_con (tipo_de b (registro b n 5)) (familia_de b (registro b n 4)) n

  Quieto-connect_en :
      (f : Familia) (socket_fd port : ℤ) (socket_addr : Bytes) (n : Nucleo b)
      → Quieto b r n (connect_en b f socket_fd port socket_addr n)
  unfolding connect_en
  Quieto-connect_en inet socket_fd port socket_addr n = Quieto-responde b r n _
  Quieto-connect_en inet6 socket_fd port socket_addr n = Quieto-responde b r n _
  Quieto-connect_en otra_familia socket_fd port socket_addr n = Quieto-responde b r n (negsuc 0)

  Quieto-connect : (n : Nucleo b) → Vale (Quieto b r n) (nachos_connect b n)
  unfolding nachos_connect
  Quieto-connect n =
      let fd = registro b n 4 in
      Quieto-traer b r n (registro b n 5) (pos 32)
        (λ addr. λ n₂. sigue (connect_en b (familia b n₂ fd) fd (registro b n₂ 6) (c_str addr) n₂))
        (λ addr. λ n₂. Quieto-connect_en (familia b n₂ fd) fd (registro b n₂ 6) (c_str addr) n₂)

  Quieto-bind_en :
      (f : Familia) (socket_fd port : ℤ) (n : Nucleo b)
      → Quieto b r n (bind_en b f socket_fd port n)
  unfolding bind_en
  Quieto-bind_en inet socket_fd port n = Quieto-responde b r n _
  Quieto-bind_en inet6 socket_fd port n = Quieto-responde b r n _
  Quieto-bind_en otra_familia socket_fd port n = Quieto-responde b r n (negsuc 0)

  Quieto-accept_en :
      (f : Familia) (socket_fd : ℤ) (n : Nucleo b) → Quieto b r n (accept_en b f socket_fd n)
  unfolding accept_en
  Quieto-accept_en inet socket_fd n = Quieto-responde b r n _
  Quieto-accept_en inet6 socket_fd n = Quieto-responde b r n _
  Quieto-accept_en otra_familia socket_fd n = Quieto-responde b r n (negsuc 0)

  Quieto-cond :
      (c : Bool) (n p q : Nucleo b)
      → Quieto b r n p
      → Quieto b r n q
      → Quieto b r n (if c then p else q)
  Quieto-cond true n p q h k = h
  Quieto-cond false n p q h k = k

  Quieto-shutdown : (n : Nucleo b) → Vale (Quieto b r n) (nachos_shutdown b n)
  unfolding nachos_shutdown
  Quieto-shutdown n =
      Quieto-cond _ n _ _ (Quieto-responde b r n _) (Quieto-responde b r n (negsuc 0))

  Quieto-llamar : (l : Option Llamada) (n : Nucleo b) → Vale (Quieto b r n) (llamar b l n)
  unfolding llamar nachos_halt nachos_sin_cuerpo nachos_bind nachos_listen nachos_accept
  Quieto-llamar none n = tt
  Quieto-llamar (some sc_halt) n = tt
  Quieto-llamar (some sc_exit) n = Quieto-exit b r n
  Quieto-llamar (some sc_create) n = Quieto-create b r n
  Quieto-llamar (some sc_open) n = Quieto-open b r n
  Quieto-llamar (some sc_read) n = Quieto-read b r n
  Quieto-llamar (some sc_write) n = Quieto-write b r n
  Quieto-llamar (some sc_close) n = Quieto-close b r n
  Quieto-llamar (some sc_socket) n = Quieto-socket n
  Quieto-llamar (some sc_connect) n = Quieto-connect n
  Quieto-llamar (some sc_bind) n =
      Quieto-bind_en (familia b n (registro b n 4)) (registro b n 4) (registro b n 5) n
  Quieto-llamar (some sc_listen) n = Quieto-responde b r n _
  Quieto-llamar (some sc_accept) n =
      Quieto-accept_en (familia b n (registro b n 4)) (registro b n 4) n
  Quieto-llamar (some sc_shutdown) n = Quieto-shutdown n
  Quieto-llamar (some sc_sin_cuerpo) n = (refl, refl)

  -- The counters after `returnFromSystemCall`.
  abbrev Avanza : Nucleo b → Nucleo b → Type 0
  Avanza n n' =
      (registro b n' prev_pc_reg ≡ registro b n pc_reg)
      × (registro b n' pc_reg ≡ registro b n next_pc_reg)
      × (registro b n' next_pc_reg ≡ registro b n next_pc_reg +ℤ pos 4)

  return-avanza :
      (e : b.maquina.Estado)
      → let f = return_from_system_call b.maquina e in
        (b.maquina.read_register f prev_pc_reg ≡ b.maquina.read_register e pc_reg)
        × (b.maquina.read_register f pc_reg ≡ b.maquina.read_register e next_pc_reg)
        × (b.maquina.read_register f next_pc_reg ≡ b.maquina.read_register e next_pc_reg +ℤ pos 4)
  unfolding return_from_system_call
  return-avanza e =
      let pc = b.maquina.read_register e pc_reg in
      let npc = b.maquina.read_register e next_pc_reg in
      let e₁ = b.maquina.WriteRegister e prev_pc_reg pc in
      let e₂ = b.maquina.WriteRegister e₁ pc_reg npc in
      (
        r.read_other e₂ next_pc_reg prev_pc_reg (npc +ℤ pos 4) (λ h. omega arith)
            ∙ (r.read_other e₁ pc_reg prev_pc_reg npc (λ h. omega arith)
                ∙ r.read-write e prev_pc_reg pc),
        r.read_other e₂ next_pc_reg pc_reg (npc +ℤ pos 4) (λ h. omega arith)
            ∙ r.read-write e₁ pc_reg npc,
        r.read-write e₂ next_pc_reg (npc +ℤ pos 4),
      )

  -- A system call that returns has moved the previous counter to the counter, the counter to the next
  -- one, and the next one by four, whatever the call did.
  pub exception_handler-avanza :
      (n n' : Nucleo b)
      → exception_handler b syscall_exception n ≡ sigue n'
      → (registro b n' prev_pc_reg ≡ registro b n pc_reg)
        × (registro b n' pc_reg ≡ registro b n next_pc_reg)
        × (registro b n' next_pc_reg ≡ registro b n next_pc_reg +ℤ pos 4)
  unfolding exception_handler
  exception_handler-avanza n n' h = subst (Vale (Avanza n)) h (
      Vale-luego (Quieto b r n) (Avanza n) (llamar b (llamada_de (registro b n 2)) n)
        (λ n₂. sigue (record n₂ { maquina = return_from_system_call b.maquina n₂.maquina }))
        (Quieto-llamar (llamada_de (registro b n 2)) n)
        (λ n₂. λ q.
          let (p, c, s) = return-avanza n₂.maquina in
          (p ∙ q.0, c ∙ q.1, s ∙ ap (λ z. z +ℤ pos 4) q.1)))
