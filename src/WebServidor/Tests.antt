-- ===== src/WebServidor/Tests.antt =====
-- The theorems on src/WebServidor.cpp at concrete requests of a server with one page.
use server_load_balancer_cli.Prelude.{ℕ, ◌≡◌, ◌≢◌, refl, inl, inr, some, [], length, drop, arith}
use server_load_balancer_cli.Prelude.Int.{pos, size_t, int32}
use server_load_balancer_cli.Prelude.Text.{codes, Lacks-of, text_eq, find, find_from}
use server_load_balancer_cli.Prelude.Decimal.{to_string_ℕ}
use server_load_balancer_cli.Utilidades.{extraer_valor_header}
use server_load_balancer_cli.FileSystem.Lectura.{Leyendo}
use server_load_balancer_cli.Prueba.{
  pagina-IsRecurso, get-IsParte, raiz-IsParte, version-IsParte, disco, regulares, pagina, fs_vacio,
  http_vacio, sin_fecha,
}
use server_load_balancer_cli.InterpreteHttp.{
  InterpreteHttp, aceptada, clasificar_version, recuperar_header, cuerpo_error,
}
use server_load_balancer_cli.InterpreteHttp.Solicitud.{solicitud, linea_de}
use server_load_balancer_cli.WebServidor.{enviar_cuerpo, responder}
use server_load_balancer_cli.WebServidor.Respuesta.{enviar_cuerpo_resto, enviar_cuerpo_error}
use server_load_balancer_cli.WebServidor.Servicio.{responder_archivo}

con_host : extraer_valor_header (codes "Host: a") (codes "ost: ") ≢ []
unfolding extraer_valor_header find find_from size_t int32
con_host = λ h. cc

soportada : clasificar_version (codes "HTTP/1.1") ≡ aceptada
unfolding clasificar_version text_eq
soportada = refl

responder_archivo_example :
    (h' : InterpreteHttp (Unit {0})) × (h'.respuesta_estado_codigo ≡ 200)
    × (h'.respuesta_protocolo ≡ codes "HTTP/1.1")
    × (h'.respuesta_size ≡ to_string_ℕ (length pagina))
    × (h'.respuesta_mime ≡ codes "text/html")
    × (responder disco sin_fecha 12 pagina http_vacio (codes "hoy") (
          solicitud
            (linea_de (codes "GET") (codes "/") (codes "HTTP/1.1"))
            (codes "Host: a")
            (codes "Accept: b"))
        ≡ some (recuperar_header h' (codes "hoy"), pagina))
responder_archivo_example =
    responder_archivo disco regulares sin_fecha pagina http_vacio (codes "GET") (codes "/")
      (codes "HTTP/1.1") (codes "Host: a") (codes "Accept: b") tt (codes "text/html") (codes "hoy")
      12 get-IsParte raiz-IsParte version-IsParte (Lacks-of 13 (codes "Host: a") refl) con_host
      soportada (inl refl) pagina-IsRecurso (omega arith)

-- An answer that has sent four bytes of the page.
abbrev a_medias : InterpreteHttp (Unit {0})
a_medias = record http_vacio {
  fs = record fs_vacio { fichero = some tt; tamano_archivo = 11; bytes_faltantes = pos 7 };
  respuesta_estado_codigo = 200;
}

a_medias-Leyendo : Leyendo disco regulares pagina tt a_medias.fs 4
a_medias-Leyendo = record { abierto = refl; tamano = refl; dentro = omega arith; faltan = inl refl }

enviar_cuerpo_resto_example : enviar_cuerpo disco 8 pagina a_medias 4 ≡ some (drop 4 pagina)
enviar_cuerpo_resto_example =
    enviar_cuerpo_resto disco regulares pagina tt 8 a_medias 4 refl refl (omega arith)
      a_medias-Leyendo (omega arith)

abbrev no_esta : InterpreteHttp (Unit {0})
no_esta = record http_vacio { respuesta_estado_codigo = 404 }

otro_codigo : ◌≢◌ {A = ℕ} 404 200
otro_codigo = λ h. omega (arith, h)

enviar_cuerpo_error_example : enviar_cuerpo disco 2 pagina no_esta 0 ≡ some (cuerpo_error 404)
enviar_cuerpo_error_example =
    enviar_cuerpo_error disco pagina 0 no_esta (inr (inr (inl refl))) otro_codigo refl
