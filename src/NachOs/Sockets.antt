-- ===== src/NachOs/Sockets.antt =====
-- The system calls on sockets (nachOS/code/userprog/exception.cc). All but `Socket` pass the user's
-- number to the host as it is.
use server_load_balancer_cli.Prelude.{ℕ, ◌%◌, ◌^◌, ◌||◌, Option, none, some, if◌then◌else◌}
use server_load_balancer_cli.Prelude.Int.{ℤ, pos, negsuc, size_t, eqb_ℤ}
use server_load_balancer_cli.Prelude.Text.{Bytes, c_str}
use server_load_balancer_cli.NachOs.Base.{Base, sockaddr_in, sockaddr_in6}
use server_load_balancer_cli.NachOs.Resultado.{sigue, luego, o_indefinido}
use server_load_balancer_cli.NachOs.OpenFilesTable.{oft_open}
use server_load_balancer_cli.NachOs.Copia.{system_to_nachos}
use server_load_balancer_cli.NachOs.Nucleo.{Nucleo, Fin, registro, responde, traer}

-- The port of an `int`, in 16 bits.
abbrev pub puerto_de : ℤ → ℕ
puerto_de z = size_t z % 2 ^ 16

-- `inet_addr`, and then `inet_pton` over it where the text is an address.
abbrev pub o_si_no : Option ℕ → ℕ → ℕ
o_si_no none direccion = direccion
o_si_no (some leida) direccion = leida

pub data Familia : Type 0 where
  inet : Familia
  inet6 : Familia
  otra_familia : Familia

module _ (b : Base) where
  -- The host's constant for the user's socket type, and for the family.
  unfoldable pub tipo_de : ℤ → Option ℤ
  tipo_de socket_type =
      if eqb_ℤ socket_type (pos 0)
      then some b.unix.sock_stream
      else if eqb_ℤ socket_type (pos 1)
      then some b.unix.sock_dgram
      else none

  unfoldable pub familia_de : ℤ → Option ℤ
  familia_de family =
      if eqb_ℤ family (pos 0)
      then some b.unix.af_inet
      else if eqb_ℤ family (pos 1)
      then some b.unix.af_inet6
      else none

  unfoldable pub socket_con : Option ℤ → Option ℤ → Nucleo b → Fin b
  unfolding oft_open
  socket_con none familia n = sigue (responde b n (negsuc 0))
  socket_con (some tipo) none n = sigue (responde b n (negsuc 0))
  socket_con (some tipo) (some familia) n =
      let (socket_fd, u) = b.unix.socket n.unix familia tipo in
      luego (o_indefinido (oft_open b.bits n.oft socket_fd))
        (λ (nachos_fd, t). sigue (responde b (record n { unix = u; oft = t }) nachos_fd))

  unfoldable pub nachos_socket : Nucleo b → Fin b
  unfolding tipo_de familia_de socket_con
  nachos_socket n = socket_con (tipo_de (registro b n 5)) (familia_de (registro b n 4)) n

  -- `addressFamily.sa_family`, which is not initialised when `getsockname` fails.
  unfoldable pub familia_leida : Option ℤ → ℤ
  familia_leida none = b.unix.basura_int
  familia_leida (some f) = f

  unfoldable pub familia : Nucleo b → ℤ → Familia
  unfolding familia_leida
  familia n socket_fd =
      let f = familia_leida (b.unix.getsockname n.unix socket_fd) in
      if eqb_ℤ f b.unix.af_inet
      then inet
      else if eqb_ℤ f b.unix.af_inet6
      then inet6
      else otra_familia

  -- The host's status becomes the user's number, or -1.
  abbrev pub conectado : Nucleo b → ℤ → ℤ × b.unix.Mundo → Nucleo b
  conectado n socket_fd (status, u) =
      responde b (record n { unix = u }) (if eqb_ℤ status (negsuc 0) then negsuc 0 else socket_fd)

  abbrev pub responde_con : Nucleo b → ℤ × b.unix.Mundo → Nucleo b
  responde_con n (status, u) = responde b (record n { unix = u }) status

  -- The address of an IPv6 socket is not initialised.
  unfoldable pub connect_en : Familia → ℤ → ℤ → Bytes → Nucleo b → Nucleo b
  connect_en inet socket_fd port socket_addr n = conectado n socket_fd (
      b.unix.connect n.unix socket_fd (
        sockaddr_in (puerto_de port)
          (o_si_no (b.unix.inet_pton socket_addr) (b.unix.inet_addr socket_addr))))
  connect_en inet6 socket_fd port socket_addr n =
      conectado n socket_fd
        (b.unix.connect n.unix socket_fd (sockaddr_in6 (puerto_de port) b.unix.basura_direccion))
  connect_en otra_familia socket_fd port socket_addr n = responde b n (negsuc 0)

  unfoldable pub nachos_connect : Nucleo b → Fin b
  unfolding system_to_nachos familia connect_en
  nachos_connect n =
      let socket_fd = registro b n 4 in
      traer b n (registro b n 5) (pos 32) (λ socket_addr. λ n₂.
        let port = registro b n₂ 6 in
        sigue (connect_en (familia n₂ socket_fd) socket_fd port (c_str socket_addr) n₂))

  unfoldable pub bind_en : Familia → ℤ → ℤ → Nucleo b → Nucleo b
  bind_en inet socket_fd port n =
      responde_con n (b.unix.bind n.unix socket_fd (sockaddr_in (puerto_de port) b.unix.inaddr_any))
  bind_en inet6 socket_fd port n =
      responde_con n
        (b.unix.bind n.unix socket_fd (sockaddr_in6 (puerto_de port) b.unix.in6addr_any))
  bind_en otra_familia socket_fd port n = responde b n (negsuc 0)

  unfoldable pub nachos_bind : Nucleo b → Fin b
  unfolding familia bind_en
  nachos_bind n =
      let socket_fd = registro b n 4 in
      sigue (bind_en (familia n socket_fd) socket_fd (registro b n 5) n)

  unfoldable pub nachos_listen : Nucleo b → Fin b
  nachos_listen n = sigue (responde_con n (b.unix.listen n.unix (registro b n 4) (registro b n 5)))

  unfoldable pub accept_en : Familia → ℤ → Nucleo b → Nucleo b
  accept_en inet socket_fd n = responde_con n (b.unix.accept n.unix socket_fd)
  accept_en inet6 socket_fd n = responde_con n (b.unix.accept n.unix socket_fd)
  accept_en otra_familia socket_fd n = responde b n (negsuc 0)

  unfoldable pub nachos_accept : Nucleo b → Fin b
  unfolding familia accept_en
  nachos_accept n =
      let socket_fd = registro b n 4 in sigue (accept_en (familia n socket_fd) socket_fd n)

  unfoldable pub nachos_shutdown : Nucleo b → Fin b
  nachos_shutdown n =
      let mode = registro b n 5 in
      sigue (
        if eqb_ℤ mode b.unix.shut_rd || (eqb_ℤ mode b.unix.shut_wr || eqb_ℤ mode b.unix.shut_rdwr)
        then responde_con n (b.unix.shutdown n.unix (registro b n 4) mode)
        else responde b n (negsuc 0))
