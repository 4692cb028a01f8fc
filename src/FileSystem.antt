-- ===== src/FileSystem.antt =====
-- src/FileSystem.cpp: a path cut into its directories and its file, and the file read and written
-- in pieces. The operating system's files are the parameter `Sistema`.
pub mod Llamadas
pub mod Ruta
pub mod Lectura
pub mod Escritura
pub mod Abrir
mod Tests
use server_load_balancer_cli.Prelude.{
  ℕ, zero, suc, ◌+◌, ◌-◌, Bool, true, false, not, ◌&&◌, ◌||◌, Option, none, some, List, [], ◌∷◌,
  ◌++◌, map, length, take, drop, get_last?, ◌==◌, if◌then◌else◌, ◌>>=◌,
}
use server_load_balancer_cli.Prelude.Int.{
  ℤ, pos, negsuc, ◌-ℤ◌, ltb_ℤ, eqb_ℤ, int32, int32_ℤ, size_t,
}
use server_load_balancer_cli.Prelude.Text.{Bytes, codes, find, text_eq, to_lower}
use Llamadas.{Sistema, Stat}

abbrev pub barra : Bytes
barra = b'/' ∷ []

-- The members of the class that its methods read.
pub record FileSystem (Fd : Type 0) : Type 0 where
  pub ruta_directorios : Bytes
  pub nombre_archivo : Bytes
  pub extension : Bytes
  pub directorios : List Bytes
  -- The entries of the open directory stream; `none` is NULL.
  pub directorio : Option (List Bytes)
  -- `none` is -1.
  pub fichero : Option Fd
  pub buffer : Stat
  pub fecha_modificacion : ℕ
  pub tamano_archivo : ℕ
  pub bytes_faltantes : ℤ

quitar_barra : Bytes → Bytes
quitar_barra [] = []
quitar_barra (c ∷ s) = if c == b'/' then s else c ∷ s

-- The corrections at the two ends of a path. `none`: the path is then empty, and its last byte is
-- read out of bounds.
unfoldable pub normalizar : Bytes → Option Bytes
unfolding quitar_barra
normalizar ruta = do
  ultimo ← get_last? (quitar_barra ruta)
  some (if ultimo == b'/' then quitar_barra ruta else quitar_barra ruta ++ barra)

-- The `while` that moves what stands before each separator to the vector, with fuel for its rounds.
unfoldable pub segmentos : ℕ → Bytes → List Bytes → Option (List Bytes)
segmentos zero s out = none
segmentos (suc f) s out = elim (find s barra) [
  | none ↦ some out
  | some p ↦ segmentos f (drop (p + 1) s) (out ++ take p s ∷ [])
]

pub sin_punto : Bytes → Bool
sin_punto [] = true
sin_punto (c ∷ s) = not (c == b'.') && sin_punto s

-- `esDirectorio`: the last segment has no dot. `none`: there is no segment.
unfoldable pub es_directorio : List Bytes → Option Bool
unfolding sin_punto
es_directorio directorios = do dato ← get_last? directorios; some (sin_punto dato)

-- All segments but the last, each with a separator behind it.
unfoldable pub unir : List Bytes → Bytes
unir [] = []
unir (d ∷ []) = []
unir (d ∷ e ∷ ds) = (d ++ barra) ++ unir (e ∷ ds)

-- `setNombre`, called with `rutaDirectorios` empty: the new `rutaDirectorios` and `nombreArchivo`.
unfoldable pub set_nombre : List Bytes → Bytes → Bool → Option (Bytes × Bytes)
unfolding unir
set_nombre directorios ruta true = some (ruta, [])
set_nombre directorios ruta false = do
  nombre ← get_last? directorios
  some (unir directorios, nombre)

-- The part of `setRuta` that only computes: the normalised path, its segments, and the names.
pub record Partes : Type 0 where
  pub segmentos_ruta : List Bytes
  pub ruta_directorios : Bytes
  pub nombre_archivo : Bytes

unfoldable pub partir_ruta : Bytes → Option Partes
unfolding normalizar segmentos es_directorio set_nombre
partir_ruta ruta = do
  correcta ← normalizar ruta
  ds ← segmentos (suc (length correcta)) correcta []
  dir ← es_directorio ds
  nombres ← set_nombre ds correcta dir
  some (record { segmentos_ruta = ds; ruta_directorios = nombres.0; nombre_archivo = nombres.1 })

-- `extensionArchivo`: what stands behind the first dot, or the whole name, in lower case.
unfoldable pub extension_de : Bytes → Bytes
extension_de nombre =
    map to_lower (elim (find nombre (b'.' ∷ [])) [ none ↦ nombre | some p ↦ drop (p + 1) nombre ])

-- Is the name among the entries? The loop goes through all of them.
hay_entrada : List Bytes → Bytes → Bool → Bool
hay_entrada [] nombre existe = existe
hay_entrada (e ∷ es) nombre existe =
    hay_entrada es nombre (if text_eq e nombre then true else existe)

es_vacio : Bytes → Bool
es_vacio [] = true
es_vacio (c ∷ s) = false

subdirectorios : List Bytes → List Bytes
subdirectorios [] = []
subdirectorios (e ∷ es) =
    if text_eq e (codes ".") || text_eq e (codes "..")
    then subdirectorios es
    else e ∷ subdirectorios es

module _ {Fd : Type 0} where
  pub existe_directorio : FileSystem Fd → Bool
  existe_directorio fs = elim fs.directorio [ none ↦ false | some es ↦ true ]

  unfoldable pub existe_archivo : FileSystem Fd → Bool
  unfolding hay_entrada es_vacio
  existe_archivo fs = elim fs.directorio [
    | none ↦ false
    | some es ↦ if es_vacio fs.nombre_archivo then false else hay_entrada es fs.nombre_archivo false
  ]

  unfoldable pub extension_archivo : FileSystem Fd → FileSystem Fd
  unfolding extension_de
  extension_archivo fs = record fs { extension = extension_de fs.nombre_archivo }

  unfoldable pub listar_subdirectorios : FileSystem Fd → List Bytes
  unfolding subdirectorios
  listar_subdirectorios fs = elim fs.directorio [ none ↦ [] | some es ↦ subdirectorios es ]

-- `bytesPorLeer`: all that fits, or what is left of the file.
unfoldable pub bytes_por_leer : ℕ → ℕ → ℕ → ℤ → ℤ
bytes_por_leer tamano posicion len faltantes =
    if ltb_ℤ (pos 0) faltantes then pos len else int32_ℤ (pos tamano -ℤ pos posicion)

-- What `read` returned, as the `int bytesLeidos`, and what it put into the buffer.
unfoldable pub leidos_de : Option Bytes → ℤ
leidos_de none = negsuc 0
leidos_de (some datos) = int32 (length datos)

unfoldable pub datos_de : Option Bytes → Bytes
datos_de none = []
datos_de (some datos) = datos

-- What a read leaves: the object, the count that `read` returned, and the bytes in the buffer.
pub record Leido (Fd : Type 0) : Type 0 where
  pub fs : FileSystem Fd
  pub leidos : ℤ
  pub datos : Bytes

module _ (s : Sistema) where
  open s use {Disco, Fd, opendir, abrir, stat, pread, pwrite, mkdir, fopen}

  -- `getInformacionArchivo`: a failing `stat` leaves `buffer` as it was.
  unfoldable pub get_informacion_archivo : Disco → FileSystem Fd → FileSystem Fd
  get_informacion_archivo d fs = elim fs.fichero [
    | none ↦ record fs { tamano_archivo = 0 }
    | some fd ↦
        let nuevo : Stat = elim (stat d (fs.ruta_directorios ++ fs.nombre_archivo)) [
          | none ↦ fs.buffer
          | some st ↦ st
        ] in
        record fs { buffer = nuevo; fecha_modificacion = nuevo.mtim; tamano_archivo = nuevo.size }
  ]

  -- The end of `setRuta`: the directory is opened, and the file if that succeeds.
  unfoldable pub abrir_ruta : Disco → FileSystem Fd → FileSystem Fd
  unfolding get_informacion_archivo
  abrir_ruta d fs =
      let dir = opendir d fs.ruta_directorios in
      let fs₁ : FileSystem Fd = record fs { directorio = dir } in
      elim dir [
        | none ↦ fs₁
        | some es ↦
            let fs₂ : FileSystem Fd =
              get_informacion_archivo d
                (record fs₁ { fichero = abrir d (fs.ruta_directorios ++ fs.nombre_archivo) }) in
            record fs₂ { bytes_faltantes = int32 fs₂.tamano_archivo }
      ]

  -- `none` is a path whose last byte is read out of bounds.
  unfoldable pub set_ruta : Disco → FileSystem Fd → Bytes → Option (FileSystem Fd)
  unfolding partir_ruta abrir_ruta
  set_ruta d fs ruta = do
    p ← partir_ruta ruta
    some (
        abrir_ruta d (record fs {
          directorios = p.segmentos_ruta;
          ruta_directorios = p.ruta_directorios;
          nombre_archivo = p.nombre_archivo;
        }))

  unfoldable pub leer_fichero : Disco → Option Fd → ℕ → ℤ → Option Bytes
  leer_fichero d none posicion n = none
  leer_fichero d (some fd) posicion n = pread d fd posicion (size_t n)

  -- `leerArchivo(buffer, posicion, len)`: `read` from a failed `open` gives -1. `bytesFaltantes` is an
  -- `int`: past its range the difference is undefined, and wraps here.
  unfoldable pub leer_archivo : Disco → FileSystem Fd → ℕ → ℕ → Leido Fd
  leer_archivo d fs posicion len =
      let faltantes = int32_ℤ (fs.bytes_faltantes -ℤ pos len) in
      let leido =
        leer_fichero d fs.fichero posicion
          (bytes_por_leer fs.tamano_archivo posicion len faltantes) in
      record {
        fs = record fs { bytes_faltantes = faltantes };
        leidos = leidos_de leido;
        datos = datos_de leido;
      }

  -- `escribirArchivo(buffer, posicion, len)`: the count that `write` returns, made a `bool`.
  unfoldable pub escribir_archivo : Disco → FileSystem Fd → Bytes → ℕ → ℕ → Disco × Bool
  escribir_archivo d fs datos posicion len = elim fs.fichero [
    | none ↦ (d, true)
    | some fd ↦
        let escrito = pwrite d fd posicion (take len datos) in
        (escrito.0, not (eqb_ℤ escrito.1 (pos 0)))
  ]

  -- `crearArchivo`: a failing `fopen` only prints.
  unfoldable pub crear_archivo : Disco → FileSystem Fd → Disco
  crear_archivo d fs = elim (fopen d (fs.ruta_directorios ++ fs.nombre_archivo)) [
    | none ↦ d
    | some d' ↦ d'
  ]

  -- A directory is made unless it opens; a failing `mkdir` only prints.
  asegurar : Disco → Bytes → Disco
  asegurar d carpeta = elim (opendir d carpeta) [
    | some es ↦ d
    | none ↦ elim (mkdir d carpeta) [ none ↦ d | some d' ↦ d' ]
  ]

  crear_anidadas : Disco → Bytes → List Bytes → Disco
  unfolding asegurar
  crear_anidadas d carpeta [] = asegurar d carpeta
  crear_anidadas d carpeta (n ∷ ns) =
      crear_anidadas (asegurar d carpeta) (carpeta ++ (barra ++ n)) ns

  -- `crearDirectorios`: each directory inside the one before it. A path of one segment is one round.
  unfoldable pub crear_directorios : Disco → Bytes → Option Disco
  unfolding normalizar segmentos crear_anidadas
  crear_directorios d ruta = do
    correcta ← normalizar ruta
    ds ← segmentos (suc (length correcta)) correcta []
    elim ds [ [] ↦ none | n ∷ ns ↦ some (crear_anidadas d n ns) ]
