-- ===== src/InterpreteHttp.antt =====
-- src/InterpreteHTTP.cpp: a request read, its status decided, and the header and the body of the
-- response. The files are those of `FileSystem`; the clock and `strftime` are arguments.
pub mod Solicitud
pub mod Estado
pub mod Acierto
pub mod Cuerpo
pub mod Cabecera
mod Tests
use server_load_balancer_cli.Prelude.{
  ℕ, zero, suc, ◌+◌, ◌-◌, Bool, true, false, not, ◌&&◌, ◌||◌, Option, none, some, List, [], ◌∷◌,
  ◌++◌, length, take, get_last?, get_elem?, ltb, ◌==◌, if◌then◌else◌, ◌>>=◌,
}
use server_load_balancer_cli.Prelude.Int.{ℤ, pos, negsuc}
use server_load_balancer_cli.Prelude.Text.{Bytes, codes, text_eq}
use server_load_balancer_cli.Prelude.Decimal.{to_string_ℕ}
use server_load_balancer_cli.Utilidades.{crlf, split, extraer_valor_header}
use server_load_balancer_cli.FileSystem.Llamadas.{Sistema}
use server_load_balancer_cli.FileSystem.{
  FileSystem, Leido, existe_archivo, extension_archivo, get_informacion_archivo, set_ruta,
  leer_archivo,
}

-- The members of the class that its methods read or set.
pub record InterpreteHttp (Fd : Type 0) : Type 0 where
  pub fs : FileSystem Fd
  pub enviar_solo_headers : Bool
  pub error_ocurrido : Bool
  pub respuesta_protocolo : Bytes
  pub respuesta_estado_codigo : ℕ
  pub respuesta_estado_mensaje : Bytes
  pub respuesta_ultima_edicion : Bytes
  pub respuesta_rangos : Bytes
  pub respuesta_size : Bytes
  pub respuesta_mime : Bytes

-- `MIMETYPES`.
unfoldable pub mimetypes : List (Bytes × Bytes)
mimetypes =
    (codes "arc", codes "application/octet-stream")
    ∷ (codes "avi", codes "video/x-msvideo")
    ∷ (codes "azw", codes "application/vnd.amazon.ebook")
    ∷ (codes "bin", codes "application/octet-stream")
    ∷ (codes "bmp", codes "image/bmp")
    ∷ (codes "bz", codes "application/x-bzip")
    ∷ (codes "bz2", codes "application/x-bzip2")
    ∷ (codes "csh", codes "application/x-csh")
    ∷ (codes "css", codes "text/css")
    ∷ (codes "csv", codes "text/csv")
    ∷ (codes "doc", codes "application/msword")
    ∷ (
      codes "docx",
      codes "application/vnd.openxmlformats-officedocument.wordprocessingml.document",
    )
    ∷ (codes "ecmascript", codes "application/ecmascript")
    ∷ (codes "epub", codes "application/epub+zip")
    ∷ (codes "gif", codes "image/gif")
    ∷ (codes "gz", codes "application/gzip")
    ∷ (codes "htm", codes "text/html")
    ∷ (codes "html", codes "text/html")
    ∷ (codes "ico", codes "image/x-icon")
    ∷ (codes "jpeg", codes "image/jpeg")
    ∷ (codes "jpg", codes "image/jpeg")
    ∷ (codes "js", codes "application/javascript")
    ∷ (codes "json", codes "application/json")
    ∷ (codes "markdown", codes "text/markdown")
    ∷ (codes "mjs", codes "text/javascript")
    ∷ (codes "odp", codes "application/vnd.oasis.opendocument.presentation")
    ∷ (codes "ods", codes "application/vnd.oasis.opendocument.spreadsheet")
    ∷ (codes "odt", codes "application/vnd.oasis.opendocument.text")
    ∷ (codes "pdf", codes "application/pdf")
    ∷ (codes "php", codes "application/x-httpd-php")
    ∷ (codes "png", codes "image/png")
    ∷ (codes "ppt", codes "application/vnd.ms-powerpoint")
    ∷ (
      codes "pptx",
      codes "application/vnd.openxmlformats-officedocument.presentationml.presentation",
    )
    ∷ (codes "sh", codes "application/x-sh")
    ∷ (codes "svg", codes "image/svg+xml")
    ∷ (codes "tar", codes "application/x-tar")
    ∷ (codes "tif", codes "image/tiff")
    ∷ (codes "tiff", codes "image/tiff")
    ∷ (codes "txt", codes "text/plain")
    ∷ (codes "xhtml", codes "application/xhtml+xml")
    ∷ (codes "xls", codes "application/vnd.ms-excel")
    ∷ (codes "xlsx", codes "application/vnd.openxmlformats-officedocument.spreadsheetml.sheet")
    ∷ (codes "xml", codes "application/xml")
    ∷ (codes "zip", codes "application/zip")
    ∷ (codes "7z", codes "application/x-7z-compressed")
    ∷ []

unfoldable pub buscar_mime : List (Bytes × Bytes) → Bytes → Option Bytes
buscar_mime [] extension = none
buscar_mime ((e, m) ∷ ms) extension =
    if text_eq e extension then some m else buscar_mime ms extension

-- The text of a status code; a code that the `switch` does not know has none.
unfoldable pub recuperar_estado : ℕ → Bytes
recuperar_estado n =
    if n == 200
    then codes "OK"
    else if n == 400
    then codes "BAD REQUEST"
    else if n == 403
    then codes "FORBIDDEN"
    else if n == 404
    then codes "NOT FOUND"
    else if n == 500
    then codes "INTERNAL SERVER ERROR"
    else if n == 501
    then codes "NOT IMPLEMENTED"
    else if n == 505
    then codes "HTTP VERSION NOT SUPPORTED"
    else []

con_barra : Bytes → Bytes
con_barra ruta = elim (get_last? ruta) [
  | none ↦ ruta ++ codes "/"
  | some c ↦ if c == b'/' then ruta else ruta ++ codes "/"
]

-- The path that `setRutaRecurso` gives to the file system.
unfoldable pub ruta_fisica : Bytes → Bytes
unfolding con_barra
ruta_fisica ruta =
    if text_eq (con_barra ruta) (codes "/")
    then codes "public_html/index.html"
    else codes "public_html" ++ con_barra ruta

-- The three answers to the version of a request: its own, the refusal, or a bad request. The source
-- leaves out `== 0` in its last test, so that it passes for every text but "HTTP/3.0".
pub data Version : Type 0 where
  aceptada no_soportada mala : Version

unfoldable pub clasificar_version : Bytes → Version
clasificar_version htmlv =
    if text_eq htmlv (codes "HTTP/1.0") || text_eq htmlv (codes "HTTP/1.1")
    then aceptada
    else if text_eq htmlv (codes "HTTP/2.0") || not (text_eq htmlv (codes "HTTP/3.0"))
    then no_soportada
    else mala

unfoldable pub es_get_o_head : Bytes → Bool
es_get_o_head metodo = text_eq metodo (codes "GET") || text_eq metodo (codes "HEAD")

hay_vacia : List Bytes → Bool
hay_vacia [] = false
hay_vacia (p ∷ ps) = text_eq p [] || hay_vacia ps

module _ {Fd : Type 0} where
  -- A refusal that also sets the protocol.
  unfoldable pub rechazar : InterpreteHttp Fd → ℕ → InterpreteHttp Fd
  rechazar h codigo = record h {
    respuesta_protocolo = codes "HTTP/1.1";
    respuesta_estado_codigo = codigo;
  }

module _ (s : Sistema) (fecha_gmt : ℕ → Bytes) where
  open s use {Disco, Fd}

  -- The file is there: its type decides between 200 and 501.
  servir : Disco → InterpreteHttp Fd → InterpreteHttp Fd
  servir d h =
      let fs₁ : FileSystem Fd = extension_archivo h.fs in
      elim (buscar_mime mimetypes fs₁.extension) [
        | none ↦ record h { fs = fs₁; respuesta_estado_codigo = 501 }
        | some mime ↦
            let fs₂ : FileSystem Fd = get_informacion_archivo s d fs₁ in
            record h {
              fs = fs₂;
              respuesta_mime = mime;
              respuesta_estado_codigo = 200;
              respuesta_ultima_edicion = fecha_gmt fs₂.fecha_modificacion;
              respuesta_size = to_string_ℕ fs₂.tamano_archivo;
            }
      ]

  -- The branch of GET and HEAD. HEAD sets `enviarSoloHeaders` to false, as the source has it.
  atender_recurso : Disco → InterpreteHttp Fd → Bytes → Bytes → Option (InterpreteHttp Fd)
  unfolding servir
  atender_recurso d h metodo ruta = do
    fs ← set_ruta s d h.fs (ruta_fisica ruta)
    let solo = if text_eq metodo (codes "HEAD") then false else h.enviar_solo_headers
    let h' = record h { fs = fs; enviar_solo_headers = solo }
    some (if existe_archivo fs then servir d h' else record h' { respuesta_estado_codigo = 404 })

  -- What follows the version: the method, and the protocol that the response names.
  procesar_version :
      Version → Disco → InterpreteHttp Fd → Bytes → Bytes → Bytes → Option (InterpreteHttp Fd)
  unfolding atender_recurso es_get_o_head rechazar
  procesar_version no_soportada d h metodo ruta htmlv = some (rechazar h 505)
  procesar_version mala d h metodo ruta htmlv = some (rechazar h 400)
  procesar_version aceptada d h metodo ruta htmlv =
      let h' : InterpreteHttp Fd = record h { respuesta_protocolo = htmlv } in
      if es_get_o_head metodo
      then atender_recurso d h' metodo ruta
      else some (record h' { respuesta_estado_codigo = 400 })

  unfoldable pub procesar_request :
      Disco → InterpreteHttp Fd → Bytes → Bytes → Bytes → Bytes → Option (InterpreteHttp Fd)
  unfolding procesar_version
  procesar_request d h metodo ruta htmlv headers =
      if text_eq (extraer_valor_header headers (codes "ost: ")) []
      then some (record h { respuesta_estado_codigo = 400 })
      else procesar_version (clasificar_version htmlv) d h metodo ruta htmlv

  -- The parts of the request line and the headers, where both are there.
  procesar_partes : Disco → InterpreteHttp Fd → List Bytes → Bytes → Option (InterpreteHttp Fd)
  unfolding hay_vacia rechazar
  procesar_partes d h (metodo ∷ ruta ∷ htmlv ∷ mas) headers =
      if hay_vacia (metodo ∷ ruta ∷ htmlv ∷ mas)
      then some (rechazar h 400)
      else procesar_request d h metodo ruta htmlv headers
  procesar_partes d h partes headers = some (rechazar h 400)

  -- `request[0]` of an empty request is read out of bounds: `none`.
  decidir : Disco → InterpreteHttp Fd → List Bytes → Option (InterpreteHttp Fd)
  unfolding procesar_partes rechazar
  decidir d h [] = none
  decidir d h (linea ∷ []) = some (rechazar h 400)
  decidir d h (linea ∷ headers ∷ mas) = procesar_partes d h (split linea (codes " ") 3) headers

  unfoldable pub construir_respuesta :
      Disco → InterpreteHttp Fd → Bytes → Option (InterpreteHttp Fd)
  unfolding decidir
  construir_respuesta d h request = do
    let h₀ = record h { enviar_solo_headers = false; error_ocurrido = false }
    h' ← decidir d h₀ (split request crlf 1)
    some (record h' { respuesta_estado_mensaje = recuperar_estado h'.respuesta_estado_codigo })

module _ {Fd : Type 0} where
  -- `recuperarHeader`, at the date `fecha`.
  unfoldable pub recuperar_header : InterpreteHttp Fd → Bytes → Bytes
  recuperar_header h fecha =
      h.respuesta_protocolo
      ++ codes " "
      ++ (to_string_ℕ h.respuesta_estado_codigo ++ codes " ")
      ++ (h.respuesta_estado_mensaje ++ codes " ")
      ++ crlf
      ++ (codes "Server: PiroServer" ++ crlf)
      ++ (codes "Date: " ++ fecha ++ crlf)
      ++ (if h.respuesta_estado_codigo == 200
          then codes "Accept-Ranges: "
            ++ h.respuesta_rangos
            ++ crlf
            ++ (codes "Content-Length: " ++ h.respuesta_size ++ crlf)
            ++ (codes "Content-Type: " ++ h.respuesta_mime ++ crlf)
            ++ (codes "Last-Modified: " ++ h.respuesta_ultima_edicion)
          else [])
      ++ (crlf ++ crlf)

-- `bodyErrorParte1` and `bodyErrorParte2`.
abbrev pub body_error_parte1 : Bytes
body_error_parte1 =
    codes
      "<html>\n\t<head>\n\t\t<title></title>\n\t\t<meta content=\"\">\n\t\t<style></style>\n\t</head>\n\t<body>"

abbrev pub body_error_parte2 : Bytes
body_error_parte2 = codes "</body>\n</html>\r\n"

unfoldable pub cuerpo_error : ℕ → Bytes
unfolding recuperar_estado
cuerpo_error codigo =
    body_error_parte1
    ++ (codes "\tError Processing Request: " ++ recuperar_estado codigo ++ body_error_parte2)

-- What `recuperarBody` leaves: the object, the count, and the bytes at the front of the buffer.
pub record CuerpoLeido (Fd : Type 0) : Type 0 where
  pub http : InterpreteHttp Fd
  pub leidos : ℤ
  pub datos : Bytes

module _ (s : Sistema) where
  open s use {Disco, Fd}

  unfoldable pub recuperar_body : Disco → InterpreteHttp Fd → ℕ → ℕ → CuerpoLeido Fd
  recuperar_body d h posicion buffersize =
      if h.respuesta_estado_codigo == 200
      then (if h.enviar_solo_headers
          then record { http = h; leidos = pos 0; datos = [] }
          else let l = leer_archivo s d h.fs posicion buffersize in
            record { http = record h { fs = l.fs }; leidos = l.leidos; datos = l.datos })
      else (if h.error_ocurrido
          then record { http = h; leidos = pos 0; datos = [] }
          else let cuerpo = cuerpo_error h.respuesta_estado_codigo in
            record {
              http = record h { error_ocurrido = true };
              leidos = pos (length cuerpo);
              datos = take (buffersize - 1) cuerpo;
            })
