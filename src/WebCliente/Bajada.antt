-- ===== src/WebCliente/Bajada.antt =====
-- `main` of src/WebCliente.cpp from the first read on: the headers, what is done with the body, and the
-- file of a download. What is printed is left out.
use server_load_balancer_cli.Prelude.{
  ℕ, ◌-◌, Bool, not, ◌&&◌, ◌||◌, Option, some, List, ◌++◌, take, drop, length, get_elem?,
  if◌then◌else◌, ◌>>=◌,
}
use server_load_balancer_cli.Prelude.Text.{Bytes, codes, text_eq}
use server_load_balancer_cli.Utilidades.{
  crlf, buffer_size, split, split_buffer, extraer_valor_header,
}
use server_load_balancer_cli.FileSystem.{FileSystem, set_ruta, crear_archivo, crear_directorios}
use server_load_balancer_cli.FileSystem.Llamadas.{Sistema}
use server_load_balancer_cli.FileSystem.Escritura.{escribir_todos}
use server_load_balancer_cli.WebCliente.{Opciones, nombre_de_descarga, descargar}

-- The number of the status line; `none` is a read outside a vector.
unfoldable pub estado_de : Bytes → Option Bytes
unfolding split
estado_de headers = do
  linea ← get_elem? (split headers crlf 2) 0
  get_elem? (split linea (codes " ") 2) 1

-- The process ends, the body goes to the console, or to a file.
pub data Rumbo : Type 0 where
  termina : Rumbo
  imprime : Rumbo
  descarga : Rumbo

-- `imprimible`.
unfoldable pub es_imprimible : Bytes → Bytes → Bool
unfolding extraer_valor_header
es_imprimible headers estado =
    let mimetipo = extraer_valor_header headers (codes "Content-Type: ") in
    (text_eq mimetipo (codes "text/html") || text_eq mimetipo (codes "text/javascript"))
    || not (text_eq estado (codes "200"))

-- What the number of the status line and the type of the body lead to.
unfoldable pub segun_estado : Opciones → Bytes → Option Rumbo
unfolding estado_de es_imprimible
segun_estado o headers = do
  estado ← estado_de headers
  some (
      if not o.descargable && not (es_imprimible headers estado)
      then termina
      else if o.descargable && text_eq estado (codes "200")
      then descarga
      else imprime)

unfoldable pub rumbo_de : Opciones → Bytes → Option Rumbo
unfolding segun_estado
rumbo_de o headers =
    if o.mostrar_header && not o.more_than_headers then some termina else segun_estado o headers

-- What a `recv` into the buffer leaves of its earlier bytes stands behind the new ones.
abbrev pub llenar : Bytes → Bytes → Bytes
llenar buffer datos = datos ++ drop (length datos) buffer

module _ (s : Sistema) where
  open s use {Disco, Fd}

  -- The directory and the file of a download, which is opened under its path without the first separator.
  unfoldable pub preparar_descarga : Disco → FileSystem Fd → Bytes → Option (Disco × FileSystem Fd)
  unfolding crear_directorios set_ruta crear_archivo
  preparar_descarga d fs nombre = do
    d₁ ← crear_directorios s d (codes "/descargas/")
    fs₁ ← set_ruta s d₁ fs (codes "/descargas/" ++ nombre)
    let d₂ = crear_archivo s d₁ fs₁
    fs₂ ← set_ruta s d₂ fs₁ (codes "descargas/" ++ nombre)
    some (d₂, fs₂)

  -- `buffer` is what stood in `backbufferSocket`, and `ultimo` the byte of `split` that nothing sets;
  -- `primera` is the first read, and `lecturas` are those behind it.
  unfoldable pub bajar :
      Opciones → Bytes → Bytes → ℕ → Bytes → List Bytes → Disco → FileSystem Fd → Option Disco
  unfolding split_buffer rumbo_de nombre_de_descarga preparar_descarga descargar escribir_todos
  bajar o ruta buffer ultimo primera lecturas d fs = do
    corte ← split_buffer (llenar buffer primera) (crlf ++ crlf) ultimo
    rumbo ← rumbo_de o corte.parte
    nombre ← nombre_de_descarga ruta
    elim rumbo [
      | termina ↦ some d
      | imprime ↦ some d
      | descarga ↦ do
        (d₁, fs₁) ← preparar_descarga d fs nombre
        escritos ← descargar (take (buffer_size - corte.pos) corte.line) lecturas
        some (escribir_todos s d₁ fs₁ escritos)
    ]
