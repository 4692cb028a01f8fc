-- ===== src/Balanceador/Difusion.antt =====
-- What the start of src/Balanceador.cpp sends on its sockets: the calls of `sendto`.
use server_load_balancer_cli.Prelude.{◌≡◌, Bool, true, false, ◌||◌, none, List, ◌∷◌, ◌++◌, ℕ}
use server_load_balancer_cli.Prelude.Int.{ℤ, pos, negsuc, eqb_ℤ}
use server_load_balancer_cli.Prelude.Text.{Bytes, codes, c_str}
use server_load_balancer_cli.Prelude.Decimal.{to_string}
use server_load_balancer_cli.Socket.{
  Red, Socket, SockaddrIn, Direccion, puerto_corto, nuevo_socket, vincular, vincular_broadcast,
  escuchar,
}
use server_load_balancer_cli.Balanceador.{Balanceador}
use server_load_balancer_cli.Balanceador.Puertos.{Puertos, Arranque, salida, indefinido, en_marcha}

-- The calls of `sendto` that a host has seen, the last one first, each a text and its address; whatever
-- it answers. The other calls of the start add none.
pub record Diario (r : Red) : Type 0 where
  pub enviados : r.Mundo → List (Bytes × SockaddrIn)
  pub sendto_anota :
      (u : r.Mundo) (id : ℤ) (bs : Bytes) (a : SockaddrIn)
      → enviados (r.sendto u id bs a).1 ≡ (bs, a) ∷ enviados u
  pub socket_calla : (u : r.Mundo) (d t : ℤ) → enviados (r.socket u d t).1 ≡ enviados u
  pub setsockopt_calla :
      (u : r.Mundo) (id o : ℤ) (v : ℕ) → enviados (r.setsockopt u id o v).1 ≡ enviados u
  pub bind_calla : (u : r.Mundo) (id : ℤ) (a : Direccion) → enviados (r.bind u id a).1 ≡ enviados u
  pub listen_calla : (u : r.Mundo) (id n : ℤ) → enviados (r.listen u id n).1 ≡ enviados u
  pub shutdown_calla : (u : r.Mundo) (id n : ℤ) → enviados (r.shutdown u id n).1 ≡ enviados u
  pub close_calla : (u : r.Mundo) (id : ℤ) → enviados (r.close u id) ≡ enviados u

module _ (r : Red) (x : Diario r) where
  -- The announcement of a balancer, as a datagram to the broadcast address.
  abbrev pub carta : Bytes → Puertos → Bytes × SockaddrIn
  carta difusion p = (
    c_str (
        codes "B/C/"
        ++ (p.balanceador.ip_subnet ++ (codes "/" ++ to_string p.balanceador.puerto_cliente))),
    record {
      sin_family = r.af_inet;
      sin_port = puerto_corto p.puerto_servidor;
      sin_addr = r.inet_addr difusion;
    },
  )

  -- The result of the bind of the HTTP port, and of the broadcast port in the state `u` behind it.
  abbrev pub bind_http : ℕ → Puertos → r.Mundo → ℤ × Socket × r.Mundo
  bind_http basura p u =
      let (s, u₂) = nuevo_socket r u basura true false in
      vincular r s none p.balanceador.puerto_cliente u₂

  abbrev pub bind_broadcast : Bytes → ℕ → Puertos → r.Mundo → ℤ × Socket × r.Mundo
  bind_broadcast difusion basura p u =
      let (s, u₂) = nuevo_socket r u basura false false in
      vincular_broadcast r s difusion p.puerto_servidor true u₂

  abbrev pub tras_http : ℕ → Puertos → r.Mundo → r.Mundo
  tras_http basura p u = let (estado, s, u₂) = bind_http basura p u in (escuchar r s (pos 128) u₂).1

  -- Does the host refuse one of the two ports?
  abbrev pub rechazado : Bytes → ℕ → Puertos → r.Mundo → Bool
  rechazado difusion basura p u =
      eqb_ℤ (bind_http basura p u).0 (negsuc 0)
      || eqb_ℤ (bind_broadcast difusion basura p (tras_http basura p u)).0 (negsuc 0)

  -- The end for a refused port (`true`), with nothing sent behind `antes`, where the log fits its file;
  -- and for two ports, with the announcement sent once.
  abbrev pub Envio :
      List (Bytes × SockaddrIn) → Bytes × SockaddrIn → Bool → Arranque r.Mundo → Type 0
  Envio antes c true (salida p v u) = x.enviados u ≡ antes
  Envio antes c true indefinido = Unit
  Envio antes c true (en_marcha p u) = ⊥
  Envio antes c false (salida p v u) = ⊥
  Envio antes c false indefinido = ⊥
  Envio antes c false (en_marcha p u) = x.enviados u ≡ c ∷ antes
