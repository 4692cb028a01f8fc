-- ===== src/Cadena/Pedido.antt =====
-- The request that a client of src/WebCliente.cpp makes for a download, and what it reads of the header
-- of the answer.
use server_load_balancer_cli.Prelude.{
  ◌≡◌, refl, true, false, some, none, length-append, append_assoc, [], ◌∷◌, ◌++◌, length, get_elem?,
  inl, inr, Bool-cases, arith, ◌>>=◌,
}
use server_load_balancer_cli.Prelude.Text.{
  Bytes, codes, find, text_eq, Lacks, Lacks-of, lacks, All-append,
}
use server_load_balancer_cli.Utilidades.{crlf, split}
use server_load_balancer_cli.Utilidades.Trozos.{split-primero}
use server_load_balancer_cli.InterpreteHttp.{aceptada, clasificar_version}
use server_load_balancer_cli.InterpreteHttp.Solicitud.{IsParte}
use server_load_balancer_cli.InterpreteHttp.Cabecera.{
  unidas, Limpio, Limpias, Limpio-append, linea_de_estado, unidas-Lacks, find-unidas,
}
use server_load_balancer_cli.Balanceador.Reenvio.{reenviar_peticion}
use server_load_balancer_cli.WebCliente.{WebCliente, Opciones, configurar, realizar_peticion}
use server_load_balancer_cli.WebCliente.Bajada.{descarga, estado_de, segun_estado, rumbo_de}
use server_load_balancer_cli.Cadena.{IsCerrada}

doscientos : get_elem? (split linea_de_estado (codes " ") 2) 1 ≡ some (codes "200")
unfolding split find
doscientos = refl

-- The client reads the 200.
estado_de-ok : (resto : Bytes) → estado_de (linea_de_estado ++ (crlf ++ resto)) ≡ some (codes "200")
unfolding estado_de
estado_de-ok resto =
    rw
      (
        estado_de,
        split-primero 2 linea_de_estado 13 (10 ∷ []) resto (Lacks-of 13 linea_de_estado refl),
        ◌>>=◌,
      )
      doscientos

pub rumbo_de-ok :
    (o : Opciones) (resto : Bytes)
    → o.descargable ≡ true
    → o.more_than_headers ≡ true
    → rumbo_de o (linea_de_estado ++ (crlf ++ resto)) ≡ some descarga
unfolding rumbo_de segun_estado text_eq
rumbo_de-ok o resto d m = elim (Bool-cases o.mostrar_header) [
  | inl e ↦ rw (rumbo_de, segun_estado, estado_de-ok resto, ◌>>=◌, d, m, e) refl
  | inr e ↦ rw (rumbo_de, segun_estado, estado_de-ok resto, ◌>>=◌, d, m, e) refl
]

-- The client of a download.
abbrev pub cliente_de : Bytes → WebCliente
cliente_de ruta = record {
  peticion = codes "GET";
  ruta = codes "/" ++ ruta;
  htmlver = codes "1.1";
  host = codes "www.google.com";
}

pub configurar-descarga :
    (o : Opciones) (ruta : Bytes)
    → o.more_than_headers ≡ true
    → o.bad_request_test ≡ false
    → o.bad_html_version ≡ false
    → configurar o ruta ≡ cliente_de ruta
unfolding configurar
configurar-descarga o ruta m b v = elim (Bool-cases o.mostrar_header) [
  | inl e ↦ rw (configurar, m, b, v, e) refl
  | inr e ↦ rw (configurar, m, b, v, e) refl
]

pub aceptada-1_1 : clasificar_version (codes "HTTP/1.1") ≡ aceptada
unfolding clasificar_version text_eq
aceptada-1_1 = refl

pub get_lem : IsParte (codes "GET")
get_lem = record {
  no_vacia = λ h. cc;
  sin_espacio = Lacks-of b' ' (codes "GET") refl;
  sin_retorno = Lacks-of 13 (codes "GET") refl;
}

pub version_lem : IsParte (codes "HTTP/1.1")
version_lem = record {
  no_vacia = λ h. cc;
  sin_espacio = Lacks-of b' ' (codes "HTTP/1.1") refl;
  sin_retorno = Lacks-of 13 (codes "HTTP/1.1") refl;
}

-- The lines of its request.
abbrev linea_get : Bytes → Bytes
linea_get ruta = codes "GET /" ++ (ruta ++ codes " HTTP/1.1")

abbrev linea_host : Bytes
linea_host = codes "host: www.google.com"

peticion-lineas :
    (ruta : Bytes)
    → realizar_peticion (cliente_de ruta)
      ≡ unidas (linea_get ruta) (linea_host ∷ []) ++ (crlf ++ crlf)
unfolding realizar_peticion
peticion-lineas ruta = simp append_assoc

literal-Limpio : (t : Bytes) → lacks 0 t ≡ true → lacks 13 t ≡ true → Limpio t
literal-Limpio t a b = (Lacks-of 0 t a, Lacks-of 13 t b)

get-Limpio : (ruta : Bytes) → Limpio ruta → Limpio (linea_get ruta)
get-Limpio ruta l =
    Limpio-append (codes "GET /") (ruta ++ codes " HTTP/1.1")
      (literal-Limpio (codes "GET /") refl refl)
      (Limpio-append ruta (codes " HTTP/1.1") l (literal-Limpio (codes " HTTP/1.1") refl refl))

-- The blank line of the request is at its end.
pub peticion-IsCerrada :
    (ruta : Bytes)
    → Limpio ruta
    → Lacks 0 (realizar_peticion (cliente_de ruta))
      × IsCerrada (realizar_peticion (cliente_de ruta))
peticion-IsCerrada ruta l =
    let todo = unidas (linea_get ruta) (linea_host ∷ []) in
    let limpias : Limpias (linea_host ∷ []) = (literal-Limpio linea_host refl refl, tt) in
    rw (peticion-lineas ruta) (
      All-append _ todo _
          (unidas-Lacks (linea_get ruta) (linea_host ∷ []) (get-Limpio ruta l) limpias)
          (Lacks-of 0 (crlf ++ crlf) refl),
      record {
        sitio = length todo;
        hallada = find-unidas (linea_get ruta) (linea_host ∷ []) (get-Limpio ruta l) limpias;
        al_final = omega (arith, length-append todo (crlf ++ crlf));
      },
    )

pub nada_pasa : (sucio : Bytes) → reenviar_peticion sucio [] ≡ none
unfolding reenviar_peticion
nada_pasa sucio = refl
