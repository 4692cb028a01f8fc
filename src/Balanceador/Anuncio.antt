-- ===== src/Balanceador/Anuncio.antt =====
-- What a server broadcasts (`avisarBalanceadores` of src/WebServidor.cpp) and what the balancer makes
-- of it (src/Balanceador.cpp).
use server_load_balancer_cli.Prelude.{
  ℕ, ◌≤◌, ◌<◌, ◌≡◌, ◌≢◌, refl, ap, ◌∙◌, subst, Bool, true, false, none, some, List, [], ◌∷◌, ◌++◌,
  length, get_elem?, take, drop, erase_at, take-append, drop-append, drop-add, arith, leb, le→ltb,
  append-nil,
}
use server_load_balancer_cli.Prelude.Int.{ℤ, pos}
use server_load_balancer_cli.Prelude.Text.{Bytes, codes, c_str, Lacks, All-append}
use server_load_balancer_cli.Prelude.Decimal.{
  is_digit, to_string, to_string_ℕ, atoi, atoi-to_string_ℕ, to_string_ℕ-IsDigit, IsDigit-Lacks,
}
use server_load_balancer_cli.Prelude.Find.{find-append}
use server_load_balancer_cli.Utilidades.{get_numero_random}
use server_load_balancer_cli.WebServidor.{aviso}
use server_load_balancer_cli.Balanceador.{
  partir_anuncio, buscar_servidor, registrar, agregar_servidor, eliminar_servidor, copiar_ip,
  es_byte, log, mostrar_estadisticas, avisar_servidores, recibir_anuncio, Servidor, Balanceador,
  sin_fijar,
}
use server_load_balancer_cli.Balanceador.Registro.{anunciado, carga_inicial}
use server_load_balancer_cli.Balanceador.Busqueda.{buscar-ultimo}

pub c_str-lem : (s : Bytes) → Lacks 0 s → c_str s ≡ s
unfolding c_str
c_str-lem [] h = refl
c_str-lem (c ∷ s) (d, h) = ground (arith, c_str-lem s h)

-- The text a server is registered under.
abbrev pub nombre : Bytes → ℕ → Bytes
nombre host p = host ++ (codes "/" ++ to_string_ℕ p)

nombre-c_str : (host : Bytes) (p : ℕ) → Lacks 0 host → c_str (nombre host p) ≡ nombre host p
unfolding is_digit
nombre-c_str host p h = c_str-lem (nombre host p) (
    All-append (λ c. c ≢ 0) host (codes "/" ++ to_string_ℕ p) h
      (omega arith, IsDigit-Lacks 0 (to_string_ℕ p) refl (to_string_ℕ-IsDigit p)))

-- The datagram names the server by its text, whether it comes or goes.
anunciado-aviso :
    (d : Bool) (host : Bytes) (p : ℕ)
    → Lacks 0 host
    → anunciado (aviso d host (pos p)) ≡ nombre host p
unfolding aviso to_string
anunciado-aviso true host p h = nombre-c_str host p h
anunciado-aviso false host p h = nombre-c_str host p h

-- The text is taken apart into the address and the number that it was put together from.
partir-nombre :
    (host : Bytes) (p : ℕ)
    → Lacks b'/' host
    → partir_anuncio (nombre host p) ≡ (host, to_string_ℕ p)
unfolding partir_anuncio
partir-nombre host p h =
    let resto = codes "/" ++ to_string_ℕ p in
    rw
      (
        partir_anuncio,
        find-append host b'/' [] (to_string_ℕ p) h,
        take-append host resto,
        drop-add (length host) 1 (nombre host p),
        drop-append host resto,
      )
      refl

erase_at-ultimo : (ss : List Servidor) (n : Servidor) → erase_at (ss ++ n ∷ []) (length ss) ≡ ss
erase_at-ultimo [] n = refl
erase_at-ultimo (s ∷ ss) n = ap (λ x. s ∷ x) (erase_at-ultimo ss n)

get_elem?-ultimo :
    (ss : List Servidor) (n : Servidor) → get_elem? (ss ++ n ∷ []) (length ss) ≡ some n
get_elem?-ultimo [] n = refl
get_elem?-ultimo (s ∷ ss) n = get_elem?-ultimo ss n

-- The server is registered with its port and no load, and `ip` begins with its address: no NUL is
-- written behind it.
abbrev pub IsRegistrado : Bytes → ℕ → Servidor → Type 0
IsRegistrado host p s =
    (take (length host) s.ip ≡ host) × (s.port ≡ pos p) × (s.carga_actual ≡ pos 0)

agregar-nuevo :
    (b : Balanceador) (mensaje : Bytes) (ip addr puerto : Bytes) (r : ℕ) (basura : Bytes) (m : ℤ)
    → anunciado mensaje ≡ ip
    → partir_anuncio ip ≡ (addr, puerto)
    → buscar_servidor b.servidores ip ≡ none
    → get_numero_random r (pos 5) (pos 10) ≡ some m
    → length addr ≤ 32
    → agregar_servidor b mensaje r basura
      ≡ some (registrar b ip (addr, puerto) m (addr ++ drop (length addr) basura))
unfolding agregar_servidor copiar_ip
agregar-nuevo b mensaje ip addr puerto r basura m a p n e cabe =
    rw (agregar_servidor, a, n, e, a, p, copiar_ip, le→ltb 32 (length addr) cabe) refl

pub eliminar-conocido :
    (b : Balanceador) (mensaje ip : Bytes) (i : ℕ)
    → anunciado mensaje ≡ ip
    → buscar_servidor b.servidores ip ≡ some i
    → (eliminar_servidor b mensaje).servidores ≡ erase_at b.servidores i
unfolding eliminar_servidor log mostrar_estadisticas
eliminar-conocido b mensaje ip i a e = rw (eliminar_servidor, a, e) refl

fijo : (datos : Bytes) → 4 ≤ length datos → sin_fijar datos ≡ false
unfolding sin_fijar
fijo datos h = ground arith

recibir-conecta :
    (b b' : Balanceador) (host : Bytes) (p r : ℕ) (basura : Bytes)
    → length (aviso false host (pos p)) < 64
    → agregar_servidor b (aviso false host (pos p)) r basura ≡ some b'
    → recibir_anuncio b (some (aviso false host (pos p))) r basura ≡ some b'
unfolding recibir_anuncio aviso es_byte
recibir-conecta b b' host p r basura corto a =
    let corta : leb 64 (length (aviso false host (pos p))) ≡ false = ground arith in
    rw (recibir_anuncio, corta, fijo (aviso false host (pos p)) (omega arith), a) refl

recibir-desconecta :
    (b : Balanceador) (host : Bytes) (p r : ℕ) (basura : Bytes)
    → length (aviso true host (pos p)) < 64
    → recibir_anuncio b (some (aviso true host (pos p))) r basura
      ≡ some (eliminar_servidor b (aviso true host (pos p)))
unfolding recibir_anuncio aviso es_byte
recibir-desconecta b host p r basura corto =
    let corta : leb 64 (length (aviso true host (pos p))) ≡ false = ground arith in
    rw (recibir_anuncio, corta, fijo (aviso true host (pos p)) (omega arith)) refl

-- A server that is not known yet, whose datagrams fit the buffer and whose address fits the array, is
-- put behind the others by its first announcement, with the port it announced, no load, and an `ip` that
-- begins with its address. Its second announcement, that it goes, gives the servers that there were.
pub aviso_lem :
    (b : Balanceador) (host : Bytes) (p r q : ℕ) (basura basura' : Bytes)
    → Lacks 0 host
    → Lacks b'/' host
    → length (aviso false host (pos p)) < 64
    → length host ≤ 32
    → buscar_servidor b.servidores (nombre host p) ≡ none
    → (b' : Balanceador) × (s : Servidor) × (b'' : Balanceador) × (recibir_anuncio b
          (some (aviso false host (pos p)))
          r
          basura
        ≡ some b')
      × (b'.servidores ≡ b.servidores ++ s ∷ [])
      × IsRegistrado host p s
      × (recibir_anuncio b' (some (aviso true host (pos p))) q basura' ≡ some b'')
      × (b''.servidores ≡ b.servidores)
unfolding registrar log mostrar_estadisticas avisar_servidores aviso
aviso_lem b host p r q basura basura' h g corto cabe nuevo =
    let (m, em, _, _) = carga_inicial r in
    let guardada = host ++ drop (length host) basura in
    let b' = registrar b (nombre host p) (host, to_string_ℕ p) m guardada in
    let s : Servidor = record {
      comparador = nombre host p;
      ip = guardada;
      port = atoi (to_string_ℕ p);
      carga_actual = pos 0;
      carga_maxima = m;
    } in
    (
      b',
      s,
      eliminar_servidor b' (aviso true host (pos p)),
      recibir-conecta b b' host p r basura corto (
          agregar-nuevo b (aviso false host (pos p)) (nombre host p) host (to_string_ℕ p) r basura m
            (anunciado-aviso false host p h) (partir-nombre host p g) nuevo em cabe),
      refl,
      (
        take-append host (drop (length host) basura),
        subst (λ x. atoi x ≡ pos p) (append-nil (to_string_ℕ p)) (atoi-to_string_ℕ p [] tt),
        refl,
      ),
      recibir-desconecta b' host p q basura' corto,
      eliminar-conocido b' (aviso true host (pos p)) (nombre host p) (length b.servidores)
            (anunciado-aviso true host p h) (buscar-ultimo b.servidores s nuevo)
          ∙ erase_at-ultimo b.servidores s,
    )
