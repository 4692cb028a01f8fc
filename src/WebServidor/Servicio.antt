-- ===== src/WebServidor/Servicio.antt =====
-- A whole request of src/WebServidor.cpp, from its text to the bytes of the answer.
use server_load_balancer_cli.Prelude.{
  ℕ, ◌<◌, ◌≡◌, ◌≢◌, refl, ◌⊎◌, ap, some, [], length, arith, ◌>>=◌,
}
use server_load_balancer_cli.Prelude.Text.{Bytes, codes, Lacks}
use server_load_balancer_cli.Prelude.Decimal.{to_string_ℕ}
use server_load_balancer_cli.Utilidades.{extraer_valor_header}
use server_load_balancer_cli.FileSystem.Llamadas.{Sistema, Regulares}
use server_load_balancer_cli.InterpreteHttp.{
  InterpreteHttp, aceptada, clasificar_version, recuperar_header, recuperar_estado,
}
use server_load_balancer_cli.InterpreteHttp.Solicitud.{
  IsParte, solicitud, linea_de, inicio, construir_respuesta_formada,
}
use server_load_balancer_cli.InterpreteHttp.Cuerpo.{
  IsRecurso, IsServida, procesar_request-IsServida,
}
use server_load_balancer_cli.WebServidor.{responder}
use server_load_balancer_cli.WebServidor.Respuesta.{enviar_cuerpo_resto}

module _ (s : Sistema) (r : Regulares s) (fecha_gmt : ℕ → Bytes) (d : s.Disco) where
  -- The object that such a request leaves serves the file, and says so in the header.
  pub responder-IsServida :
      (h : InterpreteHttp s.Fd) (metodo ruta htmlv primero resto : Bytes) (fd : s.Fd)
      (mime fecha : Bytes) (f : ℕ)
      → IsParte metodo
      → IsParte ruta
      → IsParte htmlv
      → Lacks 13 primero
      → extraer_valor_header primero (codes "ost: ") ≢ []
      → clasificar_version htmlv ≡ aceptada
      → (metodo ≡ codes "GET") ⊎ (metodo ≡ codes "HEAD")
      → IsRecurso s r fecha_gmt d h.fs ruta fd mime
      → length (r.contenido d fd) < f
      → (h' : InterpreteHttp s.Fd) × IsServida s r fecha_gmt d fd mime h'
        × (h'.respuesta_protocolo ≡ htmlv)
        × (h'.respuesta_rangos ≡ h.respuesta_rangos)
        × (h'.respuesta_estado_mensaje ≡ recuperar_estado 200)
        × (responder s fecha_gmt f d h fecha (solicitud (linea_de metodo ruta htmlv) primero resto)
            ≡ some (recuperar_header h' fecha, r.contenido d fd))
  unfolding responder
  responder-IsServida h metodo ruta htmlv primero resto fd mime fecha f m p v l host version metodos
        x largo =
      let (h₁, e, servida, protocolo, rangos) =
        procesar_request-IsServida s r fecha_gmt d (inicio s fecha_gmt d h) metodo ruta htmlv
          primero fd mime host version metodos refl x in
      let h' : InterpreteHttp s.Fd = record h₁ {
        respuesta_estado_mensaje = recuperar_estado h₁.respuesta_estado_codigo;
      } in
      (
        h',
        record {
          codigo = servida.codigo;
          con_cuerpo = servida.con_cuerpo;
          leyendo = servida.leyendo;
          size = servida.size;
          tipo = servida.tipo;
          edicion = servida.edicion;
        },
        protocolo,
        rangos,
        ap recuperar_estado servida.codigo,
        rw (
          construir_respuesta_formada s fecha_gmt d h metodo ruta htmlv primero resto m p v l,
          e,
          ◌>>=◌,
          enviar_cuerpo_resto s r d fd f h' 0 servida.codigo servida.con_cuerpo x.corto
              servida.leyendo (omega (arith, largo)),
          ◌>>=◌,
        ),
      )

  -- A request of three well-formed parts, with a host in its first header line, an accepted version and
  -- GET or HEAD, of a file that is there, that opens, is below 2 GiB and of a known type, is answered
  -- 200, with the size of the file in the header, and behind the header exactly the bytes of the file,
  -- when the loop has more rounds than the file has bytes. A HEAD gets the body too.
  pub responder_archivo :
      (h : InterpreteHttp s.Fd) (metodo ruta htmlv primero resto : Bytes) (fd : s.Fd)
      (mime fecha : Bytes) (f : ℕ)
      → IsParte metodo
      → IsParte ruta
      → IsParte htmlv
      → Lacks 13 primero
      → extraer_valor_header primero (codes "ost: ") ≢ []
      → clasificar_version htmlv ≡ aceptada
      → (metodo ≡ codes "GET") ⊎ (metodo ≡ codes "HEAD")
      → IsRecurso s r fecha_gmt d h.fs ruta fd mime
      → length (r.contenido d fd) < f
      → (h' : InterpreteHttp s.Fd) × (h'.respuesta_estado_codigo ≡ 200)
        × (h'.respuesta_protocolo ≡ htmlv)
        × (h'.respuesta_size ≡ to_string_ℕ (length (r.contenido d fd)))
        × (h'.respuesta_mime ≡ mime)
        × (responder s fecha_gmt f d h fecha (solicitud (linea_de metodo ruta htmlv) primero resto)
            ≡ some (recuperar_header h' fecha, r.contenido d fd))
  responder_archivo h metodo ruta htmlv primero resto fd mime fecha f m p v l host version metodos x
        largo =
      let (h', servida, protocolo, _, _, e) =
        responder-IsServida h metodo ruta htmlv primero resto fd mime fecha f m p v l host version
          metodos x largo in
      (h', servida.codigo, protocolo, servida.size, servida.tipo, e)
