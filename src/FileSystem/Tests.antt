-- ===== src/FileSystem/Tests.antt =====
-- The theorems on src/FileSystem.cpp at concrete paths and at a file of one page.
use server_load_balancer_cli.Prelude.{◌<◌, ◌+◌, ◌≡◌, ◌≢◌, refl, inl, some, [], length, arith}
use server_load_balancer_cli.Prelude.Int.{◌-ℤ◌, pos}
use server_load_balancer_cli.Prelude.Text.{codes}
use server_load_balancer_cli.Prueba.{disco, regulares, pagina, fs_vacio}
use server_load_balancer_cli.Utilidades.Split.{terminados}
use server_load_balancer_cli.FileSystem.{
  FileSystem, Partes, barra, normalizar, partir_ruta, set_ruta, abrir_ruta, leer_archivo,
}
use server_load_balancer_cli.FileSystem.Ruta.{cortar, Nombres, partir_ruta_lem}
use server_load_balancer_cli.FileSystem.Lectura.{Leyendo, pieza, leer_archivo_lem}
use server_load_balancer_cli.FileSystem.Abrir.{nombrado, IsAbierto, set_ruta_total}

corregida : normalizar (codes "/a/b.c") ≡ some (codes "a/b.c/")
unfolding normalizar
corregida = refl

partir_ruta_lem_example :
    (p : Partes) × (partir_ruta (codes "/a/b.c") ≡ some p)
    × (p.segmentos_ruta ≡ cortar [] (codes "a/b.c/"))
    × (terminados barra p.segmentos_ruta ≡ codes "a/b.c/")
    × Nombres p (codes "a/b.c/")
partir_ruta_lem_example = partir_ruta_lem (codes "/a/b.c") (codes "a/b.c/") corregida

leyendo :
    Leyendo disco regulares pagina tt
      (record fs_vacio { fichero = some tt; tamano_archivo = 11; bytes_faltantes = pos 11 })
      0
leyendo = record { abierto = refl; tamano = refl; dentro = omega arith; faltan = inl refl }

leer_archivo_lem_example :
    ((leer_archivo disco pagina
        (record fs_vacio { fichero = some tt; tamano_archivo = 11; bytes_faltantes = pos 11 })
        0
        4).datos
      ≡ pieza disco regulares pagina tt 0 4)
    × ((leer_archivo disco pagina
          (record fs_vacio { fichero = some tt; tamano_archivo = 11; bytes_faltantes = pos 11 })
          0
          4).leidos
        ≡ pos (length (pieza disco regulares pagina tt 0 4)))
    × ((leer_archivo disco pagina
          (record fs_vacio { fichero = some tt; tamano_archivo = 11; bytes_faltantes = pos 11 })
          0
          4).fs.bytes_faltantes
        ≡ pos 11 -ℤ pos 4)
    × (0 < length (pieza disco regulares pagina tt 0 4)
        → Leyendo disco regulares pagina tt
            (leer_archivo disco pagina
              (record fs_vacio { fichero = some tt; tamano_archivo = 11; bytes_faltantes = pos 11 })
              0
              4).fs
            (0 + length (pieza disco regulares pagina tt 0 4)))
leer_archivo_lem_example =
    leer_archivo_lem disco regulares pagina tt
      (record fs_vacio { fichero = some tt; tamano_archivo = 11; bytes_faltantes = pos 11 }) 0 4
      (omega arith) (omega arith) leyendo

no_vacia : codes "public_html/index.html" ≢ []
no_vacia = λ h. cc

no_barra : codes "public_html/index.html" ≢ barra
no_barra = λ h. cc

set_ruta_total_example :
    (p : Partes) × (fs' : FileSystem (Unit {0})) × (partir_ruta (codes "public_html/index.html")
      ≡ some p)
    × (set_ruta disco pagina fs_vacio (codes "public_html/index.html") ≡ some fs')
    × IsAbierto disco pagina fs' p
    × (fs' ≡ abrir_ruta disco pagina (nombrado disco pagina fs_vacio p))
set_ruta_total_example =
    set_ruta_total disco pagina fs_vacio (codes "public_html/index.html") no_vacia no_barra
