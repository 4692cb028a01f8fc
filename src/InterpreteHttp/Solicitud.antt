-- ===== src/InterpreteHttp/Solicitud.antt =====
-- How `construirRespuesta` (src/InterpreteHTTP.cpp) takes a request apart.
use server_load_balancer_cli.Prelude.{
  ℕ, ◌≡◌, ◌≢◌, refl, false, Option, none, some, [], ◌∷◌, ◌++◌, arith, ◌>>=◌,
}
use server_load_balancer_cli.Prelude.Text.{
  Bytes, codes, text_eq, text_eq-nil, Lacks, find, All-append,
}
use server_load_balancer_cli.Utilidades.{crlf, split, extraer_valor_header}
use server_load_balancer_cli.Utilidades.Trozos.{split_dos, split_tres}
use server_load_balancer_cli.FileSystem.Llamadas.{Sistema}
use server_load_balancer_cli.InterpreteHttp.{
  InterpreteHttp, recuperar_estado, procesar_request, procesar_partes, decidir, construir_respuesta,
  hay_vacia,
}

-- A request line and a first header line, each with its line end, and what follows.
abbrev pub solicitud : Bytes → Bytes → Bytes → Bytes
solicitud linea primero resto = linea ++ (crlf ++ (primero ++ (crlf ++ resto)))

abbrev pub linea_de : Bytes → Bytes → Bytes → Bytes
linea_de metodo ruta htmlv = metodo ++ (b' ' ∷ (ruta ++ (b' ' ∷ htmlv)))

-- A part of the request line: not empty, and with neither a space nor a line end.
pub record IsParte (p : Bytes) : Type 0 where
  pub no_vacia : p ≢ []
  pub sin_espacio : Lacks b' ' p
  pub sin_retorno : Lacks 13 p

linea-Lacks :
    {metodo ruta htmlv : Bytes}
    → IsParte metodo
    → IsParte ruta
    → IsParte htmlv
    → Lacks 13 (linea_de metodo ruta htmlv)
linea-Lacks {metodo} {ruta} {htmlv} m r v =
    All-append _ metodo _ m.sin_retorno
      (omega arith, All-append _ ruta _ r.sin_retorno (omega arith, v.sin_retorno))

sin_vacias :
    {metodo ruta htmlv : Bytes}
    → IsParte metodo
    → IsParte ruta
    → IsParte htmlv
    → hay_vacia (metodo ∷ ruta ∷ htmlv ∷ []) ≡ false
unfolding hay_vacia
sin_vacias {metodo} {ruta} {htmlv} m r v =
    rw (text_eq-nil metodo m.no_vacia, text_eq-nil ruta r.no_vacia, text_eq-nil htmlv v.no_vacia)

module _ (s : Sistema) (fecha_gmt : ℕ → Bytes) (d : s.Disco) where
  -- The object as the status text is set at the end.
  abbrev pub con_mensaje : InterpreteHttp s.Fd → Option (InterpreteHttp s.Fd)
  con_mensaje h =
      some (record h { respuesta_estado_mensaje = recuperar_estado h.respuesta_estado_codigo })

  abbrev pub inicio : InterpreteHttp s.Fd → InterpreteHttp s.Fd
  inicio h = record h { enviar_solo_headers = false; error_ocurrido = false }

  -- Of all the headers only the first line is looked at.
  primer_header :
      (h : InterpreteHttp s.Fd) (linea primero resto : Bytes)
      → Lacks 13 linea
      → Lacks 13 primero
      → construir_respuesta s fecha_gmt d h (solicitud linea primero resto) ≡ (
          procesar_partes s fecha_gmt d (inicio h) (split linea (codes " ") 3) primero
          >>= con_mensaje)
  unfolding construir_respuesta decidir
  primer_header h linea primero resto a b =
      let (r, e) = split_dos linea primero 13 (10 ∷ []) resto a b in rw e

  -- A request line of three parts is answered by `procesarRequest` on the three, and on the first
  -- header line: what follows that line changes nothing.
  pub construir_respuesta_formada :
      (h : InterpreteHttp s.Fd) (metodo ruta htmlv primero resto : Bytes)
      → IsParte metodo
      → IsParte ruta
      → IsParte htmlv
      → Lacks 13 primero
      → construir_respuesta s fecha_gmt d h (solicitud (linea_de metodo ruta htmlv) primero resto)
        ≡ (procesar_request s fecha_gmt d (inicio h) metodo ruta htmlv primero >>= con_mensaje)
  unfolding procesar_partes
  construir_respuesta_formada h metodo ruta htmlv primero resto m r v p = rw (
    primer_header h (linea_de metodo ruta htmlv) primero resto (linea-Lacks m r v) p,
    split_tres metodo ruta htmlv b' ' 1 m.sin_espacio r.sin_espacio v.sin_espacio v.no_vacia,
    sin_vacias m r v,
  )

  -- A request of three well-formed parts whose first header line has no host is answered 400, also
  -- where a later line names the host, and the answer's protocol is not set.
  pub sin_host_primero :
      (h : InterpreteHttp s.Fd) (metodo ruta htmlv primero resto : Bytes)
      → IsParte metodo
      → IsParte ruta
      → IsParte htmlv
      → Lacks 13 primero
      → find primero (codes "ost: ") ≡ none
      → (h' : InterpreteHttp s.Fd) × (construir_respuesta s fecha_gmt d h
            (solicitud (linea_de metodo ruta htmlv) primero resto)
          ≡ some h')
        × (h'.respuesta_estado_codigo ≡ 400)
        × (h'.respuesta_protocolo ≡ h.respuesta_protocolo)
  unfolding procesar_request extraer_valor_header text_eq
  sin_host_primero h metodo ruta htmlv primero resto m r v p n = (
    record h {
      enviar_solo_headers = false;
      error_ocurrido = false;
      respuesta_estado_codigo = 400;
      respuesta_estado_mensaje = recuperar_estado 400;
    },
    rw (
      construir_respuesta_formada h metodo ruta htmlv primero resto m r v p,
      n,
      extraer_valor_header,
    ),
    refl,
    refl,
  )
