-- ===== src/Socket.antt =====
-- The class `Socket` (src/Socket.cpp, include/Socket.hpp) over the calls of the operating system.
pub mod Fuga
mod Tests
use server_load_balancer_cli.Prelude.{
  ℕ, ◌%◌, ◌^◌, ◌≡◌, ◌≢◌, Bool, true, false, ◌||◌, Option, none, some, List, [], ◌∷◌, ◌++◌, length,
  drop, take, ◌==◌, ◌>>=◌, if◌then◌else◌, leb,
}
use server_load_balancer_cli.Prelude.Int.{ℤ, pos, negsuc, size_t, eqb_ℤ, ltb_ℤ}
use server_load_balancer_cli.Prelude.Text.{Bytes, c_str}

-- `struct sockaddr_in` and `struct sockaddr_in6`: family, port and address, in the host's byte order.
pub record SockaddrIn : Type 0 where
  pub sin_family : ℤ
  pub sin_port : ℕ
  pub sin_addr : ℕ

pub record SockaddrIn6 : Type 0 where
  pub sin6_family : ℤ
  pub sin6_port : ℕ
  pub sin6_addr : ℕ

pub data Direccion : Type 0 where
  ipv4 : SockaddrIn → Direccion
  ipv6 : SockaddrIn6 → Direccion

-- The calls on sockets. A result below 0 is a failure.
pub record Red : Type 1 where
  pub Mundo : Type 0
  pub socket : Mundo → ℤ → ℤ → ℤ × Mundo
  -- The option and its value, both options of the level SOL_SOCKET.
  pub setsockopt : Mundo → ℤ → ℤ → ℕ → ℤ × Mundo
  pub close : Mundo → ℤ → Mundo
  pub connect : Mundo → ℤ → Direccion → ℤ × Mundo
  -- The bytes that are stored, and the result.
  pub recv : Mundo → ℤ → ℕ → ℤ → Bytes × ℤ × Mundo
  pub read : Mundo → ℤ → ℕ → Bytes × ℤ × Mundo
  -- With MSG_WAITALL, into an address that holds zeros; the third result is the address then.
  pub recvfrom : Mundo → ℤ → ℕ → Bytes × ℤ × SockaddrIn × Mundo
  pub write : Mundo → ℤ → Bytes → ℤ × Mundo
  pub sendto : Mundo → ℤ → Bytes → SockaddrIn → ℤ × Mundo
  pub bind : Mundo → ℤ → Direccion → ℤ × Mundo
  pub listen : Mundo → ℤ → ℤ → ℤ × Mundo
  -- The descriptor, and the address that is stored in the one given.
  pub accept : Mundo → ℤ → Direccion → ℤ × Direccion × Mundo
  pub shutdown : Mundo → ℤ → ℤ → ℤ × Mundo
  pub inet_addr : Bytes → ℕ
  pub inet_pton : Bytes → Option ℕ
  pub inet_pton6 : Bytes → Option ℕ
  pub af_inet : ℤ
  pub af_inet6 : ℤ
  pub sock_stream : ℤ
  pub sock_dgram : ℤ
  pub so_rcvtimeo : ℤ
  pub so_sndtimeo : ℤ
  pub so_reuseport : ℤ
  pub so_broadcast : ℤ

pub record Socket : Type 0 where
  pub stream : Bool
  pub es_ipv6 : Bool
  pub id : ℤ
  pub in_ipv4 : SockaddrIn
  pub in_ipv6 : SockaddrIn6

-- The port of an `int`, in 16 bits.
abbrev pub puerto_corto : ℤ → ℕ
puerto_corto z = size_t z % 2 ^ 16

abbrev pub direccion_leida : Option ℕ → ℕ → ℕ
direccion_leida none antes = antes
direccion_leida (some d) antes = d

-- A C string in a buffer; `none`: no NUL stands in it, and the text runs on behind it.
unfoldable pub texto_de : Bytes → Option Bytes
texto_de [] = none
texto_de (c ∷ s) = let resto = texto_de s >>= λ t. some (c ∷ t) in if c == 0 then some [] else resto

module _ (r : Red) where
  -- `Socket(bool, bool)`. The two `memset` clear the size of a pointer: the whole IPv4 address, and of
  -- the IPv6 address not the address itself, which `basura` has.
  unfoldable pub nuevo_socket : r.Mundo → ℕ → Bool → Bool → Socket × r.Mundo
  nuevo_socket u basura usar_stream protocolo_v6 =
      let dominio = if protocolo_v6 then r.af_inet6 else r.af_inet in
      let tipo = if usar_stream then r.sock_stream else r.sock_dgram in
      let (id, u₂) = r.socket u dominio tipo in
      (
        record {
          stream = usar_stream;
          es_ipv6 = protocolo_v6;
          id = id;
          in_ipv4 = record { sin_family = r.af_inet; sin_port = 0; sin_addr = 0 };
          in_ipv6 = record { sin6_family = r.af_inet6; sin6_port = 0; sin6_addr = basura };
        },
        u₂,
      )

  -- `Socket()`, whose addresses nothing has set.
  unfoldable pub socket_comun : r.Mundo → SockaddrIn → SockaddrIn6 → Socket × r.Mundo
  socket_comun u basura basura6 =
      let (id, u₂) = r.socket u r.af_inet r.sock_stream in
      (
        record {
          stream = true;
          es_ipv6 = false;
          id = id;
          in_ipv4 = record basura { sin_family = r.af_inet };
          in_ipv6 = record basura6 { sin6_family = r.af_inet6 };
        },
        u₂,
      )

  -- Five seconds each.
  unfoldable pub preparar_time_out : Socket → r.Mundo → r.Mundo
  preparar_time_out s u =
      (r.setsockopt (r.setsockopt u s.id r.so_rcvtimeo 5).1 s.id r.so_sndtimeo 5).1

  -- The destructor too.
  unfoldable pub cerrar : Socket → r.Mundo → r.Mundo
  cerrar s u = r.close u s.id

  abbrev pub direccion : Socket → Direccion
  direccion s = if s.es_ipv6 then ipv6 s.in_ipv6 else ipv4 s.in_ipv4

  unfoldable pub conectar : Socket → Bytes → ℤ → r.Mundo → ℤ × Socket × r.Mundo
  conectar s hostv puerto u =
      let host = c_str hostv in
      let s₂ : Socket = record s {
        in_ipv4 = record s.in_ipv4 {
          sin_port = puerto_corto puerto;
          sin_addr = direccion_leida (r.inet_pton host) (r.inet_addr host);
        };
        in_ipv6 = record s.in_ipv6 {
          sin6_port = puerto_corto puerto;
          sin6_addr = direccion_leida (r.inet_pton6 host) s.in_ipv6.sin6_addr;
        };
      } in
      let (estado, u₂) = r.connect u s.id (direccion s₂) in (estado, s₂, u₂)

  -- `leer(char*, …)`: the bytes that are stored, and the result.
  unfoldable pub leer_bytes : Socket → ℕ → ℤ → r.Mundo → Bytes × ℤ × r.Mundo
  leer_bytes s len flag u = if eqb_ℤ flag (pos 0) then r.read u s.id len else r.recv u s.id len flag

  -- `leer(string*, …)`: the buffer of `len` bytes holds what memory held behind what is read.
  unfoldable pub leer : Socket → Bytes → ℤ → r.Mundo → Option (Bytes × ℤ × r.Mundo)
  unfolding leer_bytes texto_de
  leer s basura flag u =
      let (datos, estado, u₂) = leer_bytes s (length basura) flag u in
      texto_de (datos ++ drop (length datos) basura) >>= λ texto. some (texto, estado, u₂)

  unfoldable pub leer_de : Socket → ℕ → r.Mundo → Bytes × ℤ × Socket × r.Mundo
  leer_de s len u =
      let (datos, estado, fuente, u₂) = r.recvfrom u s.id len in
      (datos, estado, record s { in_ipv4 = fuente }, u₂)

  unfoldable pub leer_texto_de : Socket → Bytes → r.Mundo → Option (Bytes × ℤ × Socket × r.Mundo)
  unfolding leer_de texto_de
  leer_texto_de s basura u =
      let (datos, estado, s₂, u₂) = leer_de s (length basura) u in
      texto_de (datos ++ drop (length datos) basura) >>= λ texto. some (texto, estado, s₂, u₂)

  -- `escribir(string)` and `escribir(const char*, int)`.
  unfoldable pub escribir : Socket → Bytes → r.Mundo → ℤ × r.Mundo
  escribir s text u = r.write u s.id text

  -- `escribirA(string)` and `escribirA(const char*, int)`.
  unfoldable pub escribir_a : Socket → Bytes → r.Mundo → ℤ × r.Mundo
  escribir_a s text u = r.sendto u s.id text s.in_ipv4

  -- The address that is given is written over: every address of the host is bound.
  unfoldable pub vincular : Socket → Option Bytes → ℤ → r.Mundo → ℤ × Socket × r.Mundo
  vincular s ip puerto u =
      let s₂ : Socket = record s {
        in_ipv4 = record s.in_ipv4 { sin_port = puerto_corto puerto; sin_addr = 0 };
        in_ipv6 = record s.in_ipv6 { sin6_port = puerto_corto puerto };
      } in
      let (_, u₂) = r.setsockopt u s.id r.so_reuseport 1 in
      let (estado, u₃) = r.bind u₂ s.id (direccion s₂) in (estado, s₂, u₃)

  unfoldable pub vincular_broadcast : Socket → Bytes → ℤ → Bool → r.Mundo → ℤ × Socket × r.Mundo
  vincular_broadcast s ip puerto soy_servidor u =
      let s₂ : Socket = record s {
        in_ipv4 = record {
          sin_family = r.af_inet;
          sin_port = puerto_corto puerto;
          sin_addr = r.inet_addr ip;
        };
      } in
      let (reusar, u₂) = r.setsockopt u s.id r.so_reuseport 1 in
      let (difundir, u₃) = r.setsockopt u₂ s.id r.so_broadcast 1 in
      let (estado, u₄) = r.bind u₃ s.id (ipv4 s₂.in_ipv4) in
      if ltb_ℤ reusar (pos 0)
      then (negsuc 0, s₂, u₂)
      else if ltb_ℤ difundir (pos 0)
      then (negsuc 0, s₂, u₃)
      else if soy_servidor
      then (estado, s₂, u₄)
      else (pos 0, s₂, u₃)

  unfoldable pub escuchar : Socket → ℤ → r.Mundo → ℤ × r.Mundo
  escuchar s cola u = r.listen u s.id cola

  unfoldable pub apagar : Socket → ℤ → r.Mundo → ℤ × r.Mundo
  apagar s modo u = r.shutdown u s.id modo

  unfoldable pub asignar_id : Socket → ℤ → Socket
  asignar_id s id_nuevo = record s { id = id_nuevo }

  -- The address that `accept` stores.
  abbrev pub con_direccion : Socket → Direccion → Socket
  con_direccion s (ipv4 a) = record s { in_ipv4 = a }
  con_direccion s (ipv6 a) = record s { in_ipv6 = a }

  -- The new object opens a socket of its own; `none` is the null pointer.
  unfoldable pub aceptar : Socket → ℕ → r.Mundo → Option Socket × r.Mundo
  unfolding nuevo_socket asignar_id
  aceptar s basura u =
      let (nuevo, u₂) = nuevo_socket u basura s.stream s.es_ipv6 in
      let (id_nuevo, fuente, u₃) = r.accept u₂ s.id (direccion nuevo) in
      (
        if eqb_ℤ id_nuevo (negsuc 0)
            then none
            else some (asignar_id (con_direccion nuevo fuente) id_nuevo),
        u₃,
      )
