-- ===== src/WebCliente/TestsBajada.antt =====
-- A download of src/WebCliente.cpp whose answer is shorter than the buffer.
use server_load_balancer_cli.Prelude.{◌≡◌, refl, none, some, [], ◌++◌, length, take, drop, arith}
use server_load_balancer_cli.Prelude.Text.{Bytes, codes, find, find_from, Lacks-of, text_eq}
use server_load_balancer_cli.Utilidades.{buffer_size}
use server_load_balancer_cli.FileSystem.{FileSystem}
use server_load_balancer_cli.Prueba.{fs_vacio}
use server_load_balancer_cli.Prueba.UnArchivo.{
  un_archivo, regular, escribible, ceros_de, length-ceros_de, bajable,
}
use server_load_balancer_cli.WebCliente.{nombre_de_descarga}
use server_load_balancer_cli.WebCliente.Bajada.{descarga, rumbo_de, preparar_descarga, bajar}
use server_load_balancer_cli.WebCliente.Guardar.{vacia, bajar_lem}

abbrev cabecera : Bytes
cabecera = codes "HTTP/1.1 200 OK\r\nContent-Type: image/png"

sitio : find (cabecera ++ vacia) vacia ≡ some (length cabecera)
unfolding find
sitio = refl

se_descarga : rumbo_de bajable (cabecera ++ vacia) ≡ some descarga
unfolding rumbo_de text_eq find
se_descarga = refl

llamado : nombre_de_descarga (codes "foto.png") ≡ some (codes "foto.png")
unfolding nombre_de_descarga find_from
llamado = refl

-- The object after both calls of `setRuta`.
abbrev abierto : FileSystem (Unit {0})
unfolding preparar_descarga
abierto = elim (preparar_descarga un_archivo (codes "viejo") fs_vacio (codes "foto.png")) [
  | none ↦ fs_vacio
  | some (d, fs) ↦ fs
]

hecho :
    preparar_descarga un_archivo (codes "viejo") fs_vacio (codes "foto.png") ≡ some ([], abierto)
unfolding preparar_descarga find_from
hecho = refl

con_fichero : abierto.fichero ≡ some tt
unfolding preparar_descarga find_from
con_fichero = refl

bajar_lem_example :
    (d₂ : Bytes) × (bajar un_archivo bajable
        (codes "foto.png")
        (ceros_de buffer_size)
        0
        (take buffer_size ((cabecera ++ vacia) ++ codes "hola"))
        []
        (codes "viejo")
        fs_vacio
      ≡ some d₂)
    × (d₂
        ≡ codes "hola"
          ++ drop (length ((cabecera ++ vacia) ++ codes "hola")) (ceros_de buffer_size))
bajar_lem_example =
    bajar_lem un_archivo regular escribible bajable (codes "foto.png") (codes "foto.png")
      (ceros_de buffer_size) cabecera (codes "hola") 0 [] (codes "viejo") [] fs_vacio abierto tt
      (length-ceros_de buffer_size) (Lacks-of 0 cabecera refl) sitio (omega arith) (omega arith)
      refl se_descarga llamado hecho con_fichero refl
