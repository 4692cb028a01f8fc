-- ===== src/Prueba.antt =====
-- The disk, the objects and the balancer that the tests run on: one page behind one directory.
pub mod UnArchivo
pub mod Lenta
use server_load_balancer_cli.Prelude.{
  arith, ℕ, ◌+◌, ◌≡◌, refl, false, Option, none, some, List, [], ◌∷◌, ◌++◌, length, take, drop,
  if◌then◌else◌, Bool-cases, inl, inr,
}
use server_load_balancer_cli.Prelude.Int.{pos}
use server_load_balancer_cli.Prelude.Text.{Bytes, codes, text_eq, Lacks-of, find, to_lower}
use server_load_balancer_cli.FileSystem.{
  FileSystem, partir_ruta, abrir_ruta, existe_archivo, extension_archivo,
}
use server_load_balancer_cli.FileSystem.Llamadas.{Sistema, Regulares, Stat}
use server_load_balancer_cli.InterpreteHttp.{InterpreteHttp, buscar_mime, mimetypes, ruta_fisica}
use server_load_balancer_cli.InterpreteHttp.Solicitud.{IsParte}
use server_load_balancer_cli.InterpreteHttp.Cuerpo.{IsRecurso}
use server_load_balancer_cli.FileSystem.Abrir.{nombrado}
use server_load_balancer_cli.FileSystem.Escritura.{Escribibles}
use server_load_balancer_cli.Balanceador.{Balanceador, Servidor, round_robin}

abbrev pub pagina : Bytes
pagina = codes "<p>hola</p>"

unfoldable pub abrir_pagina : Bytes → Bytes → Option (Unit {0})
abrir_pagina d ruta = if text_eq ruta (codes "public_html/index.html") then some tt else none

unfoldable pub stat_pagina : Bytes → Bytes → Option Stat
stat_pagina d ruta =
    if text_eq ruta (codes "public_html/index.html")
    then some (record { size = length d; mtim = 0 })
    else none

-- A disk is the content of its one file.
abbrev pub disco : Sistema
disco = record {
  Disco = Bytes;
  Fd = Unit {0};
  opendir = λ d. λ ruta.
      if text_eq ruta (codes "public_html/")
      then some (codes "." ∷ codes ".." ∷ codes "index.html" ∷ [])
      else none;
  abrir = abrir_pagina;
  stat = stat_pagina;
  pread = λ d. λ fd. λ p. λ n. some (take n (drop p d));
  pwrite = λ d.
      λ fd. λ p. λ datos. (take p d ++ (datos ++ drop (p + length datos) d), pos (length datos));
  mkdir = λ d. λ ruta. none;
  fopen = λ d. λ ruta. some [];
}

pub stat-pagina :
    (d ruta : Bytes) (fd : Unit {0})
    → abrir_pagina d ruta ≡ some fd
    → (st : Stat) × (stat_pagina d ruta ≡ some st) × (st.size ≡ length d)
unfolding abrir_pagina stat_pagina
stat-pagina d ruta fd h = elim (Bool-cases (text_eq ruta (codes "public_html/index.html"))) [
  | inl e ↦ (record { size = length d; mtim = 0 }, rw (e, stat_pagina) refl, refl)
  | inr e ↦ absurd (let x = rw (e, abrir_pagina) at h in cc)
]

abbrev pub regulares : Regulares disco
regulares = record {
  contenido = λ d. λ fd. d;
  pread_lem = λ d. λ fd. λ p. λ n. refl;
  stat_lem = stat-pagina;
}

abbrev pub fs_vacio : FileSystem (Unit {0})
fs_vacio = record {
  ruta_directorios = [];
  nombre_archivo = [];
  extension = [];
  directorios = [];
  directorio = none;
  fichero = none;
  buffer = record { size = 0; mtim = 0 };
  fecha_modificacion = 0;
  tamano_archivo = 0;
  bytes_faltantes = pos 0;
}

abbrev pub http_vacio : InterpreteHttp (Unit {0})
http_vacio = record {
  fs = fs_vacio;
  enviar_solo_headers = false;
  error_ocurrido = false;
  respuesta_protocolo = [];
  respuesta_estado_codigo = 0;
  respuesta_estado_mensaje = [];
  respuesta_ultima_edicion = [];
  respuesta_rangos = [];
  respuesta_size = [];
  respuesta_mime = [];
}

abbrev pub sin_fecha : ℕ → Bytes
sin_fecha n = codes "Thu, 01 Jan 1970"

abbrev pub servidor_con : Bytes → ℕ → Servidor
servidor_con nombre carga = record {
  comparador = nombre;
  ip = codes "10.0.0.1";
  port = pos 80;
  carga_actual = pos carga;
  carga_maxima = pos 5;
}

abbrev pub balanceador_con : List Servidor → Balanceador
balanceador_con ss = record {
  ip_subnet = codes "10.0.0.255";
  puerto_cliente = pos 3000;
  servidores = ss;
  clientes = [];
  servidores_actuales = pos (length ss);
  round_robin_actual = 0;
  algoritmo_balanceo = round_robin;
  log_mensajes = [];
  file_position = 0;
  enviados = [];
}

-- Writes to the disk do not fail.
abbrev pub escribibles : Escribibles disco regulares
escribibles = record {
  pwrite_lem =
      λ d. λ fd. λ p. λ datos. λ h. (take p d ++ (datos ++ drop (p + length datos) d), refl, refl);
}

pub pagina-IsRecurso :
    IsRecurso disco regulares sin_fecha pagina fs_vacio (codes "/") tt (codes "text/html")
unfolding partir_ruta text_eq abrir_pagina stat_pagina existe_archivo abrir_ruta nombrado
    extension_archivo buscar_mime mimetypes ruta_fisica find to_lower
pagina-IsRecurso = record {
  partes = record {
    segmentos_ruta = codes "public_html" ∷ codes "index.html" ∷ [];
    ruta_directorios = codes "public_html/";
    nombre_archivo = codes "index.html";
  };
  partidas = refl;
  entradas = codes "." ∷ codes ".." ∷ codes "index.html" ∷ [];
  dir_abierto = refl;
  archivo_abierto = refl;
  existe = refl;
  conocido = refl;
  corto = omega arith;
}

pub get-IsParte : IsParte (codes "GET")
get-IsParte = record {
  no_vacia = λ h. cc;
  sin_espacio = Lacks-of b' ' (codes "GET") refl;
  sin_retorno = Lacks-of 13 (codes "GET") refl;
}

pub raiz-IsParte : IsParte (codes "/")
raiz-IsParte = record {
  no_vacia = λ h. cc;
  sin_espacio = Lacks-of b' ' (codes "/") refl;
  sin_retorno = Lacks-of 13 (codes "/") refl;
}

pub version-IsParte : IsParte (codes "HTTP/1.1")
version-IsParte = record {
  no_vacia = λ h. cc;
  sin_espacio = Lacks-of b' ' (codes "HTTP/1.1") refl;
  sin_retorno = Lacks-of 13 (codes "HTTP/1.1") refl;
}
