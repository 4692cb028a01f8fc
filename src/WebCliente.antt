-- ===== src/WebCliente.antt =====
-- src/WebCliente.cpp: the options, the address, the request, and the file that a download writes.
pub mod Peticion
pub mod Descarga
pub mod Bajada
pub mod Guardar
mod Tests
mod TestsBajada
use server_load_balancer_cli.Prelude.{
  ◌^◌, ◌>>=◌, ℕ, zero, suc, ◌+◌, Bool, true, false, not, ◌&&◌, ◌||◌, Option, none, some, List, [],
  ◌∷◌, ◌++◌, length, drop, ltb, ◌==◌, if◌then◌else◌,
}
use server_load_balancer_cli.Prelude.Text.{Bytes, codes, text_eq, find, find_from, is_found}
use server_load_balancer_cli.Utilidades.{crlf, split, split_linea}

-- The members that a request is made of.
pub record WebCliente : Type 0 where
  pub peticion : Bytes
  pub ruta : Bytes
  pub htmlver : Bytes
  pub host : Bytes

-- `realizarPeticion`: what is written to the socket.
unfoldable pub realizar_peticion : WebCliente → Bytes
realizar_peticion c =
    c.peticion
    ++ (codes " "
        ++ (c.ruta
            ++ (codes " HTTP/"
                ++ (c.htmlver ++ (crlf ++ (codes "host: " ++ (c.host ++ (crlf ++ crlf))))))))

-- The flags of `main`. `ip_argv_pos` is `none` for -1.
pub record Opciones : Type 0 where
  pub mostrar_header : Bool
  pub descargable : Bool
  pub bad_request_test : Bool
  pub bad_html_version : Bool
  pub more_than_headers : Bool
  pub ip_argv_pos : Option ℕ

empieza_con_guion : Bytes → Bool
empieza_con_guion [] = false
empieza_con_guion (c ∷ s) = c == b'-'

-- One argument, at place `i`.
leer_argumento : ℕ → Bytes → Opciones → Opciones
unfolding empieza_con_guion
leer_argumento i arg o =
    let descarga = text_eq arg (codes "-download") in
    let mala = text_eq arg (codes "-testBADR") in
    let version = text_eq arg (codes "-testHTML") in
    record {
      mostrar_header = o.mostrar_header || text_eq arg (codes "-headers");
      descargable = o.descargable || descarga;
      bad_request_test = o.bad_request_test || mala;
      bad_html_version = o.bad_html_version || version;
      more_than_headers = o.more_than_headers || (descarga || (mala || version));
      ip_argv_pos = if not (empieza_con_guion arg) && ltb 0 i then some i else o.ip_argv_pos;
    }

-- The loop over `argv`, from place `i` on.
unfoldable pub leer_argumentos : ℕ → List Bytes → Opciones → Opciones
unfolding leer_argumento
leer_argumentos i [] o = o
leer_argumentos i (arg ∷ argv) o = leer_argumentos (suc i) argv (leer_argumento i arg o)

-- The address, the port as a text, and the path of an argument `ip:puerto/ruta`. `none`: the address
-- is empty, and the port is read out of the vector.
unfoldable pub destino : Bytes → Option (Bytes × Bytes × Bytes)
destino arg =
    let ruta = if is_found (find arg (codes "/")) then arg else arg ++ codes "/" in
    let partes = split_linea ruta (codes "/") in
    elim (split partes.0 (codes ":") 1) [
      | [] ↦ none
      | a ∷ ps ↦ elim ps [ [] ↦ some (a, codes "80", partes.1) | p ∷ qs ↦ some (a, p, partes.1) ]
    ]

-- The calls of `main` that set the members of the client, the path without its first separator.
unfoldable pub configurar : Opciones → Bytes → WebCliente
configurar o ruta =
    let metodo =
      if o.mostrar_header && not o.more_than_headers then codes "HEAD" else codes "GET" in
    record {
      peticion = if o.bad_request_test then [] else metodo;
      ruta = if o.bad_request_test then codes "ocarinaOfTime" else codes "/" ++ ruta;
      htmlver =
          if o.bad_html_version
          then codes "2.0"
          else if o.bad_request_test
          then []
          else codes "1.1";
      host = codes "www.google.com";
    }

-- The loop that moves `linea` behind the last separator, with fuel for its rounds.
unfoldable pub tras_barra : ℕ → Bytes → ℕ → Option ℕ
tras_barra zero ruta linea = none
tras_barra (suc f) ruta linea = elim (find_from ruta (codes "/") linea) [
  | none ↦ some linea
  | some p ↦ tras_barra f ruta (p + 1)
]

-- The name of the file that a download writes.
unfoldable pub nombre_de_descarga : Bytes → Option Bytes
unfolding tras_barra
nombre_de_descarga ruta = elim (tras_barra (length ruta + 1) ruta 0) [
  | none ↦ none
  | some linea ↦
      let nombre = drop linea ruta in
      some (if ltb (length nombre) 2 then codes "index.html" else nombre)
]

-- The loop that reads the rest of an answer, up to the first read that gives nothing: the calls of
-- `escribirArchivo`, from the place `pos_buffer` on, which is an `int`. `none`: it overflows.
unfoldable pub descargar_resto : ℕ → List Bytes → Option (List (ℕ × Bytes))
descargar_resto pos_buffer [] = some []
descargar_resto pos_buffer ([] ∷ mas) = some []
descargar_resto pos_buffer ((c ∷ datos) ∷ mas) =
    let sigue = pos_buffer + length (c ∷ datos) in
    let resto = descargar_resto sigue mas >>= λ es. some ((pos_buffer, c ∷ datos) ∷ es) in
    if ltb sigue (2 ^ 31) then resto else none

-- A download: what the first read has behind the header, and the rest.
unfoldable pub descargar : Bytes → List Bytes → Option (List (ℕ × Bytes))
unfolding descargar_resto
descargar primero lecturas = do
  es ← descargar_resto (length primero) lecturas
  some ((0, primero) ∷ es)
