-- ===== src/InterpreteHttp/Tests.antt =====
-- The theorems on src/InterpreteHTTP.cpp at concrete requests of a server with one page.
use server_load_balancer_cli.Prelude.{ℕ, ◌≡◌, ◌≢◌, refl, ◌⊎◌, ◌↔◌, none, some, []}
use server_load_balancer_cli.Prelude.Text.{codes, Lacks-of, find, find_from, text_eq}
use server_load_balancer_cli.Prelude.Int.{size_t, int32}
use server_load_balancer_cli.Utilidades.{extraer_valor_header}
use server_load_balancer_cli.Prueba.{
  get-IsParte, raiz-IsParte, version-IsParte, disco, pagina, http_vacio, sin_fecha,
}
use server_load_balancer_cli.InterpreteHttp.{
  InterpreteHttp, aceptada, clasificar_version, recuperar_estado, procesar_request,
  construir_respuesta,
}
use server_load_balancer_cli.InterpreteHttp.Estado.{Codigo, construir_respuesta_total}
use server_load_balancer_cli.InterpreteHttp.Acierto.{Disponible, procesar_request-200_iff}
use server_load_balancer_cli.InterpreteHttp.Solicitud.{solicitud, linea_de, sin_host_primero}

no_vacia : codes "hola" ≢ []
no_vacia = λ h. cc

construir_respuesta_total_example :
    (h' : InterpreteHttp (Unit {0})) × (construir_respuesta disco sin_fecha pagina http_vacio
        (codes "hola")
      ≡ some h')
    × Codigo h'.respuesta_estado_codigo
    × (h'.respuesta_estado_mensaje ≡ recuperar_estado h'.respuesta_estado_codigo)
construir_respuesta_total_example =
    construir_respuesta_total disco sin_fecha pagina http_vacio (codes "hola") no_vacia

-- A DELETE, with a host and an accepted version.
borrado :
    procesar_request disco sin_fecha pagina http_vacio
      (codes "DELETE")
      (codes "/")
      (codes "HTTP/1.1")
      (codes "Host: a")
    ≡ some (record http_vacio {
      respuesta_protocolo = codes "HTTP/1.1";
      respuesta_estado_codigo = 400;
    })
unfolding procesar_request clasificar_version text_eq extraer_valor_header find find_from size_t
    int32
borrado = refl

procesar_request-200_iff_example : (◌≡◌ {A = ℕ} 400 200) ↔ (
    (extraer_valor_header (codes "Host: a") (codes "ost: ") ≢ [])
    × (clasificar_version (codes "HTTP/1.1") ≡ aceptada)
    × ((codes "DELETE" ≡ codes "GET") ⊎ (codes "DELETE" ≡ codes "HEAD"))
    × Disponible disco sin_fecha pagina http_vacio (codes "/"))
procesar_request-200_iff_example =
    procesar_request-200_iff disco sin_fecha pagina http_vacio (codes "DELETE") (codes "/")
      (codes "HTTP/1.1") (codes "Host: a")
      (record http_vacio { respuesta_protocolo = codes "HTTP/1.1"; respuesta_estado_codigo = 400 })
      borrado

sin_host : find (codes "Accept: a") (codes "ost: ") ≡ none
unfolding find
sin_host = refl

sin_host_primero_example :
    (h' : InterpreteHttp (Unit {0})) × (construir_respuesta disco sin_fecha pagina http_vacio (
        solicitud
          (linea_de (codes "GET") (codes "/") (codes "HTTP/1.1"))
          (codes "Accept: a")
          (codes "Host: a"))
      ≡ some h')
    × (h'.respuesta_estado_codigo ≡ 400)
    × (h'.respuesta_protocolo ≡ [])
sin_host_primero_example =
    sin_host_primero disco sin_fecha pagina http_vacio (codes "GET") (codes "/") (codes "HTTP/1.1")
      (codes "Accept: a") (codes "Host: a") get-IsParte raiz-IsParte version-IsParte
      (Lacks-of 13 (codes "Accept: a") refl) sin_host
