-- ===== src/Balanceador/TestsPuertos.antt =====
-- The start of src/Balanceador.cpp at a host that refuses the port 80 and no other.
use server_load_balancer_cli.Prelude.{
  ℕ, ◌≡◌, refl, true, false, none, List, [], ◌∷◌, length, if◌then◌else◌, Bool, ◌==◌,
}
use server_load_balancer_cli.Prelude.Int.{ℤ, pos, negsuc, size_t}
use server_load_balancer_cli.Prelude.Text.{Bytes, codes}
use server_load_balancer_cli.Socket.{
  Red, SockaddrIn, Direccion, ipv4, ipv6, nuevo_socket, vincular, vincular_broadcast,
}
use server_load_balancer_cli.Prueba.{balanceador_con}
use server_load_balancer_cli.Balanceador.Puertos.{Puertos}
use server_load_balancer_cli.Balanceador.Difusion.{Diario, rechazado}

abbrev nadie : SockaddrIn
nadie = record { sin_family = pos 2; sin_port = 0; sin_addr = 0 }

abbrev pide_80 : Direccion → Bool
pide_80 (ipv4 a) = a.sin_port == 80
pide_80 (ipv6 a) = false

-- The state is what was sent.
abbrev sin_80 : Red
sin_80 = record {
  Mundo = List (Bytes × SockaddrIn);
  socket = λ u. λ d. λ t. (pos 4, u);
  setsockopt = λ u. λ id. λ o. λ v. (pos 0, u);
  close = λ u. λ id. u;
  connect = λ u. λ id. λ a. (negsuc 0, u);
  recv = λ u. λ id. λ n. λ f. ([], negsuc 0, u);
  read = λ u. λ id. λ n. ([], negsuc 0, u);
  recvfrom = λ u. λ id. λ n. ([], negsuc 0, nadie, u);
  write = λ u. λ id. λ bs. (negsuc 0, u);
  sendto = λ u. λ id. λ bs. λ a. (pos (length bs), (bs, a) ∷ u);
  bind = λ u. λ id. λ a. if pide_80 a then (negsuc 0, u) else (pos 0, u);
  listen = λ u. λ id. λ n. (pos 0, u);
  accept = λ u. λ id. λ a. (negsuc 0, a, u);
  shutdown = λ u. λ id. λ n. (pos 0, u);
  inet_addr = λ bs. 0;
  inet_pton = λ bs. none;
  inet_pton6 = λ bs. none;
  af_inet = pos 2;
  af_inet6 = pos 10;
  sock_stream = pos 1;
  sock_dgram = pos 2;
  so_rcvtimeo = pos 20;
  so_sndtimeo = pos 21;
  so_reuseport = pos 15;
  so_broadcast = pos 6;
}

sin_efecto :
    (b : Bool) (u : List (Bytes × SockaddrIn))
    → (if◌then◌else◌ {A = ℤ × List (Bytes × SockaddrIn)} b (negsuc 0, u) (pos 0, u)).1 ≡ u
sin_efecto true u = refl
sin_efecto false u = refl

abbrev en_puerto : ℕ → Puertos
en_puerto n = record {
  balanceador = record (balanceador_con []) { puerto_cliente = pos n };
  puerto_servidor = pos 9786;
  direccion_host = codes "10.0.0.1";
  ejecutandose = true;
  escuchador_http = none;
  escuchador_broadcast = none;
}

abbrev diario : Diario sin_80
diario = record {
  enviados = λ u. u;
  sendto_anota = λ u. λ id. λ bs. λ a. refl;
  socket_calla = λ u. λ d. λ t. refl;
  setsockopt_calla = λ u. λ id. λ o. λ v. refl;
  bind_calla = λ u. λ id. λ a. sin_efecto (pide_80 a) u;
  listen_calla = λ u. λ id. λ n. refl;
  shutdown_calla = λ u. λ id. λ n. refl;
  close_calla = λ u. λ id. refl;
}

rechazado_80 : rechazado sin_80 diario (codes "10.0.0.15") 0 (en_puerto 80) [] ≡ true
unfolding vincular nuevo_socket size_t
rechazado_80 = refl

rechazado_3000 : rechazado sin_80 diario (codes "10.0.0.15") 0 (en_puerto 3000) [] ≡ false
unfolding vincular nuevo_socket vincular_broadcast size_t
rechazado_3000 = refl
