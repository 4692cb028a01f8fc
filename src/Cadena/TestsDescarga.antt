-- ===== src/Cadena/TestsDescarga.antt =====
-- The theorem on a download at the page of a server, behind a balancer, into a new file.
use server_load_balancer_cli.Prelude.{
  List, ℕ, ◌≡◌, refl, ◌+◌, ◌≤◌, some, none, [], ◌++◌, length, drop, arith,
}
use server_load_balancer_cli.Prelude.Text.{Bytes, codes, Lacks-of, find_from}
use server_load_balancer_cli.Prelude.Decimal.{to_string_ℕ}
use server_load_balancer_cli.Utilidades.{buffer_size}
use server_load_balancer_cli.FileSystem.{FileSystem}
use server_load_balancer_cli.Prueba.{
  pagina-IsRecurso, raiz-IsParte, disco, regulares, pagina, fs_vacio, http_vacio, sin_fecha,
}
use server_load_balancer_cli.Prueba.UnArchivo.{
  un_archivo, regular, escribible, ceros_de, length-ceros_de, bajable,
}
use server_load_balancer_cli.InterpreteHttp.Cabecera.{Limpio}
use server_load_balancer_cli.WebCliente.{configurar, realizar_peticion, nombre_de_descarga}
use server_load_balancer_cli.WebCliente.Bajada.{preparar_descarga}
use server_load_balancer_cli.Cadena.{por_balanceador}
use server_load_balancer_cli.Prueba.Lenta.{lenta, ceros_por, de_uno-ConFin}
use server_load_balancer_cli.Cadena.Descarga.{cabecera_de, bajada, bajada_lem}

llamado : nombre_de_descarga [] ≡ some (codes "index.html")
unfolding nombre_de_descarga find_from
llamado = refl

-- The object after both calls of `setRuta`.
abbrev abierto : FileSystem (Unit {0})
unfolding preparar_descarga
abierto = elim (preparar_descarga un_archivo (codes "viejo") fs_vacio (codes "index.html")) [
  | none ↦ fs_vacio
  | some (d, fs) ↦ fs
]

hecho :
    preparar_descarga un_archivo (codes "viejo") fs_vacio (codes "index.html") ≡ some ([], abierto)
unfolding preparar_descarga find_from
hecho = refl

con_fichero : abierto.fichero ≡ some tt
unfolding preparar_descarga find_from
con_fichero = refl

vacio-Limpio : Limpio []
vacio-Limpio = (tt, tt)

fecha-Limpia : Limpio (codes "Thu, 01 Jan 1970")
fecha-Limpia =
    (Lacks-of 0 (codes "Thu, 01 Jan 1970") refl, Lacks-of 13 (codes "Thu, 01 Jan 1970") refl)

cabe :
    (t : ℕ)
    → length (
          cabecera_de disco un_archivo regulares regular escribible sin_fecha lenta pagina
            http_vacio
            (codes "hoy")
            11
            (codes "text/html")
            t)
        + 4
      ≤ buffer_size
unfolding to_string_ℕ
cabe t = omega arith

abbrev memorias : List Bytes
unfolding configurar realizar_peticion
memorias = ceros_por (realizar_peticion (configurar bajable []))

bajada_lem_example :
    (cabecera : Bytes) × (d₂ : Bytes) × (por_balanceador disco sin_fecha lenta 12 pagina http_vacio
        (codes "hoy")
        []
        memorias
        (realizar_peticion (configurar bajable []))
      ≡ some (cabecera ++ pagina))
    × (bajada disco un_archivo sin_fecha lenta 12 pagina http_vacio
          (codes "hoy")
          []
          memorias
          bajable
          []
          (ceros_de buffer_size)
          0
          (codes "viejo")
          fs_vacio
        ≡ some d₂)
    × (d₂ ≡ pagina ++ drop (length (cabecera ++ pagina)) (ceros_de buffer_size))
unfolding configurar realizar_peticion
bajada_lem_example =
    bajada_lem disco un_archivo regulares regular escribible sin_fecha lenta pagina http_vacio
      (codes "hoy") bajable [] (codes "index.html") (ceros_de buffer_size) [] tt (codes "text/html")
      12 0 memorias (codes "viejo") [] fs_vacio abierto tt refl refl refl refl raiz-IsParte
      pagina-IsRecurso (omega arith) vacio-Limpio
      (Lacks-of 0 (codes "hoy") refl, Lacks-of 13 (codes "hoy") refl) vacio-Limpio
      (λ t. fecha-Limpia) cabe refl (de_uno-ConFin (realizar_peticion (configurar bajable [])))
      (length-ceros_de buffer_size) llamado hecho con_fichero refl
