-- ===== src/WebCliente/Tests.antt =====
-- The theorems on src/WebCliente.cpp at a client that asks a server for its page.
use server_load_balancer_cli.Prelude.{[], ◌≡◌, ◌≢◌, refl, inl, some, [], length, arith}
use server_load_balancer_cli.Prelude.Text.{codes, Lacks-of, text_eq}
use server_load_balancer_cli.Prelude.Decimal.{to_string_ℕ}
use server_load_balancer_cli.Prueba.{
  pagina-IsRecurso, get-IsParte, raiz-IsParte, version-IsParte, disco, regulares, pagina,
  http_vacio, sin_fecha,
}
use server_load_balancer_cli.InterpreteHttp.{
  InterpreteHttp, aceptada, clasificar_version, recuperar_header,
}
use server_load_balancer_cli.WebServidor.{responder}
use server_load_balancer_cli.WebCliente.{WebCliente, realizar_peticion}
use server_load_balancer_cli.WebCliente.Peticion.{pedir_archivo}

abbrev cliente : WebCliente
cliente = record {
  peticion = codes "GET";
  ruta = codes "/";
  htmlver = codes "1.1";
  host = codes "www.google.com";
}

soportada : clasificar_version (codes "HTTP/1.1") ≡ aceptada
unfolding clasificar_version text_eq
soportada = refl

con_nombre : cliente.host ≢ []
con_nombre = λ h. cc

pedir_archivo_example :
    (h' : InterpreteHttp (Unit {0})) × (h'.respuesta_estado_codigo ≡ 200)
    × (h'.respuesta_size ≡ to_string_ℕ (length pagina))
    × (h'.respuesta_mime ≡ codes "text/html")
    × (responder disco sin_fecha 12 pagina http_vacio (codes "hoy") (realizar_peticion cliente)
        ≡ some (recuperar_header h' (codes "hoy"), pagina))
pedir_archivo_example =
    pedir_archivo disco regulares sin_fecha pagina http_vacio cliente tt (codes "text/html")
      (codes "hoy") 12 get-IsParte raiz-IsParte version-IsParte (Lacks-of 13 cliente.host refl)
      (Lacks-of b';' cliente.host refl) con_nombre (omega arith) soportada (inl refl)
      pagina-IsRecurso (omega arith)
