-- ===== src/Socket/Fuga.antt =====
-- What an accepted connection leaves open (`Socket::aceptar` of src/Socket.cpp).
use server_load_balancer_cli.Prelude.{
  ℕ, ◌≡◌, ◌≢◌, refl, ap, ◌∙◌, sym, subst, Bool, true, false, none, some, some_inj, if◌then◌else◌,
}
use server_load_balancer_cli.Prelude.Int.{ℤ, negsuc, eqb_ℤ}
use server_load_balancer_cli.Socket.{
  Red, Socket, Direccion, direccion, nuevo_socket, asignar_id, aceptar, cerrar,
}

-- The descriptors that are open: a socket or a connection gets one that was not, and `close` closes
-- the one that it is given.
pub record Descriptores (r : Red) : Type 0 where
  pub abierto : r.Mundo → ℤ → Bool
  pub socket_nuevo :
      (u : r.Mundo) (d t : ℤ)
      → (r.socket u d t).0 ≢ negsuc 0
      → (abierto u (r.socket u d t).0 ≡ false)
        × (abierto (r.socket u d t).1 (r.socket u d t).0 ≡ true)
  pub accept_nuevo :
      (u : r.Mundo) (s : ℤ) (a : Direccion)
      → (r.accept u s a).0 ≢ negsuc 0
      → abierto u (r.accept u s a).0 ≡ false
  pub accept_otros :
      (u : r.Mundo) (s : ℤ) (a : Direccion) (fd : ℤ)
      → abierto u fd ≡ true
      → abierto (r.accept u s a).2 fd ≡ true
  pub close_otros : (u : r.Mundo) (id fd : ℤ) → fd ≢ id → abierto (r.close u id) fd ≡ abierto u fd

if_some :
    {A : Type 0} (c : Bool) (a : A) {b : A}
    → (if c then none else some a) ≡ some b
    → (c ≡ false) × (a ≡ b)
if_some true a h = cc
if_some false a h = (refl, some_inj h)

eqb_ℤ-negsuc : (z : ℤ) → eqb_ℤ z (negsuc 0) ≡ false → z ≢ negsuc 0
eqb_ℤ-negsuc z h e = cc

choca : {a b : Bool} → a ≡ b → a ≡ true → b ≡ false → ⊥
choca e h k = cc

module _ (r : Red) (x : Descriptores r) where
  -- Where the host gives the new object of a connection a socket and the connection is accepted, the
  -- descriptor of that socket was not open before, and is open after the object has been destroyed.
  pub aceptar-cerrar :
      (s nuevo : Socket) (basura : ℕ) (u v : r.Mundo)
      → aceptar r s basura u ≡ (some nuevo, v)
      → (nuevo_socket r u basura s.stream s.es_ipv6).0.id ≢ negsuc 0
      → (x.abierto u (nuevo_socket r u basura s.stream s.es_ipv6).0.id ≡ false)
        × (x.abierto (cerrar r nuevo v) (nuevo_socket r u basura s.stream s.es_ipv6).0.id ≡ true)
  unfolding aceptar nuevo_socket asignar_id cerrar
  aceptar-cerrar s nuevo basura u v h valido =
      let dominio = if s.es_ipv6 then r.af_inet6 else r.af_inet in
      let tipo = if s.stream then r.sock_stream else r.sock_dgram in
      let fd = (r.socket u dominio tipo).0 in
      let propio = (nuevo_socket r u basura s.stream s.es_ipv6).0 in
      let u₂ = (r.socket u dominio tipo).1 in
      let id_nuevo = (r.accept u₂ s.id (direccion r propio)).0 in
      let (libre, abierta) = x.socket_nuevo u dominio tipo valido in
      let (aceptado, igual) = if_some (eqb_ℤ id_nuevo (negsuc 0)) _ (ap (λ p. p.0) h) in
      let mundo : (r.accept u₂ s.id (direccion r propio)).2 ≡ v = ap (λ p. p.1) h in
      let id_de : nuevo.id ≡ id_nuevo = sym (ap (λ z. z.id) igual) in
      let ajeno : x.abierto u₂ id_nuevo ≡ false =
        x.accept_nuevo u₂ s.id (direccion r propio) (eqb_ℤ-negsuc id_nuevo aceptado) in
      let sigue : x.abierto v fd ≡ true =
        subst (λ z. x.abierto z fd ≡ true) mundo
          (x.accept_otros u₂ s.id (direccion r propio) fd abierta) in
      (
        libre,
        x.close_otros v nuevo.id fd (λ e. choca (ap (x.abierto u₂) (e ∙ id_de)) abierta ajeno)
            ∙ sigue,
      )
