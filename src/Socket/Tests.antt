-- ===== src/Socket/Tests.antt =====
-- The theorem on src/Socket.cpp at a host that counts its descriptors.
use server_load_balancer_cli.Prelude.{
  ℕ, suc, ◌≡◌, ◌≢◌, refl, Bool, true, false, ◌&&◌, none, some, [], ltb, lt→ltb, le→ltb, ==_refl,
  if◌then◌else◌, arith,
}
use server_load_balancer_cli.Prelude.Int.{ℤ, pos, negsuc, eqb_ℤ}
use server_load_balancer_cli.Socket.{
  Red, Socket, SockaddrIn, nuevo_socket, asignar_id, aceptar, cerrar,
}
use server_load_balancer_cli.Socket.Fuga.{Descriptores, aceptar-cerrar}

-- The next descriptor, and which of those before it are open.
record Abiertos : Type 0 where
  siguiente : ℕ
  marcas : ℤ → Bool

abbrev dado : ℕ → ℤ → Bool
dado n (pos k) = ltb k n
dado n (negsuc k) = false

abbrev esta_abierto : Abiertos → ℤ → Bool
esta_abierto u fd = dado u.siguiente fd && u.marcas fd

abbrev con_otro : Abiertos → Abiertos
con_otro u = record {
  siguiente = suc u.siguiente;
  marcas = λ z. if eqb_ℤ (pos u.siguiente) z then true else u.marcas z;
}

abbrev nadie : SockaddrIn
nadie = record { sin_family = pos 2; sin_port = 0; sin_addr = 0 }

abbrev contada : Red
contada = record {
  Mundo = Abiertos;
  socket = λ u. λ d. λ t. (pos u.siguiente, con_otro u);
  setsockopt = λ u. λ id. λ o. λ v. (pos 0, u);
  close = λ u. λ id. record u { marcas = λ z. if eqb_ℤ id z then false else u.marcas z };
  connect = λ u. λ id. λ a. (negsuc 0, u);
  recv = λ u. λ id. λ n. λ f. ([], negsuc 0, u);
  read = λ u. λ id. λ n. ([], negsuc 0, u);
  recvfrom = λ u. λ id. λ n. ([], negsuc 0, nadie, u);
  write = λ u. λ id. λ bs. (negsuc 0, u);
  sendto = λ u. λ id. λ bs. λ a. (negsuc 0, u);
  bind = λ u. λ id. λ a. (pos 0, u);
  listen = λ u. λ id. λ n. (pos 0, u);
  accept = λ u. λ id. λ a. (pos u.siguiente, a, con_otro u);
  shutdown = λ u. λ id. λ n. (pos 0, u);
  inet_addr = λ bs. 0;
  inet_pton = λ bs. none;
  inet_pton6 = λ bs. none;
  af_inet = pos 2;
  af_inet6 = pos 10;
  sock_stream = pos 1;
  sock_dgram = pos 2;
  so_rcvtimeo = pos 20;
  so_sndtimeo = pos 21;
  so_reuseport = pos 15;
  so_broadcast = pos 6;
}

pos-ninguno : (n : ℕ) (b : Bool) → (ltb n n && b) ≡ false
pos-ninguno n b = rw (le→ltb n n (omega arith)) refl

pos-recien :
    (n : ℕ) (b : Bool) → (ltb n (suc n) && (if eqb_ℤ (pos n) (pos n) then true else b)) ≡ true
pos-recien n b = rw (lt→ltb n (suc n) (omega arith), ==_refl n) refl

sigue_abierto :
    (u : Abiertos) (fd : ℤ) → esta_abierto u fd ≡ true → esta_abierto (con_otro u) fd ≡ true
sigue_abierto u (pos k) h = ground arith
sigue_abierto u (negsuc k) h = cc

cierra_otro : (u : Abiertos) (id fd : ℤ) → fd ≢ id → eqb_ℤ id fd ≡ false
cierra_otro u (pos j) (pos k) h = ground arith
cierra_otro u (pos j) (negsuc k) h = ground arith
cierra_otro u (negsuc j) (pos k) h = ground arith
cierra_otro u (negsuc j) (negsuc k) h = ground arith

unfoldable contada-Descriptores : Descriptores contada
contada-Descriptores = record {
  abierto = esta_abierto;
  socket_nuevo = λ u. λ d. λ t. λ h. (
    pos-ninguno u.siguiente (u.marcas (pos u.siguiente)),
    pos-recien u.siguiente (u.marcas (pos u.siguiente)),
  );
  accept_nuevo = λ u. λ s. λ a. λ h. pos-ninguno u.siguiente (u.marcas (pos u.siguiente));
  accept_otros = λ u. λ s. λ a. λ fd. λ h. sigue_abierto u fd h;
  close_otros = λ u. λ id. λ fd. λ h. rw (cierra_otro u id fd h) refl;
}

abbrev al_inicio : Abiertos
al_inicio = record { siguiente = 4; marcas = λ z. true }

abbrev escucha : Socket
escucha = record {
  stream = true;
  es_ipv6 = false;
  id = pos 3;
  in_ipv4 = nadie;
  in_ipv6 = record { sin6_family = pos 10; sin6_port = 0; sin6_addr = 0 };
}

-- The new object opens 4, and the connection is 5.
abbrev conexion : Socket
conexion = record escucha {
  id = pos 5;
  in_ipv4 = record { sin_family = pos 2; sin_port = 0; sin_addr = 0 };
}

conexion_aceptada :
    aceptar contada escucha 0 al_inicio ≡ (some conexion, con_otro (con_otro al_inicio))
unfolding aceptar nuevo_socket asignar_id
conexion_aceptada = refl

id_propio : (nuevo_socket contada al_inicio 0 true false).0.id ≢ negsuc 0
unfolding nuevo_socket
id_propio h = cc

aceptar-cerrar_example :
    (esta_abierto al_inicio (nuevo_socket contada al_inicio 0 true false).0.id ≡ false)
    × (esta_abierto
          (cerrar contada conexion (con_otro (con_otro al_inicio)))
          (nuevo_socket contada al_inicio 0 true false).0.id
        ≡ true)
unfolding contada-Descriptores
aceptar-cerrar_example =
    aceptar-cerrar contada contada-Descriptores escucha conexion 0 al_inicio
      (con_otro (con_otro al_inicio)) conexion_aceptada id_propio
