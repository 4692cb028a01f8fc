-- ===== src/InterpreteHttp/Cuerpo.antt =====
-- What src/InterpreteHTTP.cpp leaves in the object for a file that is served.
use server_load_balancer_cli.Prelude.{
  ℕ, ◌<◌, ◌^◌, ◌≡◌, ◌≢◌, refl, ◌⊎◌, ap, true, false, some, List, [], ◌++◌, length, arith, ◌>>=◌,
  if◌then◌else◌,
}
use server_load_balancer_cli.Prelude.Text.{Bytes, codes, text_eq, text_eq-nil}
use server_load_balancer_cli.Prelude.Decimal.{to_string_ℕ}
use server_load_balancer_cli.Utilidades.{extraer_valor_header}
use server_load_balancer_cli.FileSystem.Llamadas.{Sistema, Regulares}
use server_load_balancer_cli.FileSystem.Lectura.{Leyendo}
use server_load_balancer_cli.FileSystem.Abrir.{nombrado, abrir_ruta-Leyendo, abrir_ruta-IsAbierto}
use server_load_balancer_cli.FileSystem.{
  FileSystem, Partes, partir_ruta, set_ruta, abrir_ruta, existe_archivo, extension_archivo,
  get_informacion_archivo,
}
use server_load_balancer_cli.InterpreteHttp.{
  InterpreteHttp, aceptada, clasificar_version, mimetypes, buscar_mime, ruta_fisica, servir,
  atender_recurso, procesar_version, procesar_request,
}
use server_load_balancer_cli.InterpreteHttp.Estado.{metodo_iff}

module _ (s : Sistema) (r : Regulares s) (fecha_gmt : ℕ → Bytes) (d : s.Disco) where
  -- A file behind a path: it is in its directory, it opens as `fd`, and its type is known.
  pub record IsRecurso (fs : FileSystem s.Fd) (ruta : Bytes) (fd : s.Fd) (mime : Bytes)
      : Type 0 where
    pub partes : Partes
    pub partidas : partir_ruta (ruta_fisica ruta) ≡ some partes
    pub entradas : List Bytes
    pub dir_abierto : s.opendir d partes.ruta_directorios ≡ some entradas
    pub archivo_abierto : s.abrir d (partes.ruta_directorios ++ partes.nombre_archivo) ≡ some fd
    pub existe : existe_archivo (abrir_ruta s d (nombrado s d fs partes)) ≡ true
    pub conocido :
        buscar_mime mimetypes
          (extension_archivo (abrir_ruta s d (nombrado s d fs partes))).extension
        ≡ some mime
    pub corto : length (r.contenido d fd) < 2 ^ 31

  -- The object that serves a file from its first byte, with the header's size.
  pub record IsServida (fd : s.Fd) (mime : Bytes) (h : InterpreteHttp s.Fd) : Type 0 where
    pub codigo : h.respuesta_estado_codigo ≡ 200
    pub con_cuerpo : h.enviar_solo_headers ≡ false
    pub leyendo : Leyendo s r d fd h.fs 0
    pub size : h.respuesta_size ≡ to_string_ℕ (length (r.contenido d fd))
    pub tipo : h.respuesta_mime ≡ mime
    pub edicion : (t : ℕ) × (h.respuesta_ultima_edicion ≡ fecha_gmt t)

  extension-Leyendo :
      (fs : FileSystem s.Fd) (fd : s.Fd)
      → Leyendo s r d fd fs 0
      → Leyendo s r d fd (extension_archivo fs) 0
  unfolding extension_archivo
  extension-Leyendo fs fd l = record {
    abierto = l.abierto;
    tamano = l.tamano;
    dentro = l.dentro;
    faltan = l.faltan;
  }

  informacion-Leyendo :
      (fs : FileSystem s.Fd) (fd : s.Fd)
      → s.abrir d (fs.ruta_directorios ++ fs.nombre_archivo) ≡ some fd
      → Leyendo s r d fd fs 0
      → Leyendo s r d fd (get_informacion_archivo s d fs) 0
  unfolding get_informacion_archivo
  informacion-Leyendo fs fd a l =
      let (st, q, n) = r.stat_lem d (fs.ruta_directorios ++ fs.nombre_archivo) fd a in
      rw (l.abierto, q)
        (record { abierto = refl; tamano = n; dentro = l.dentro; faltan = l.faltan })

  servir-IsServida :
      (h : InterpreteHttp s.Fd) (fd : s.Fd) (mime : Bytes)
      → h.enviar_solo_headers ≡ false
      → s.abrir d (h.fs.ruta_directorios ++ h.fs.nombre_archivo) ≡ some fd
      → buscar_mime mimetypes (extension_archivo h.fs).extension ≡ some mime
      → Leyendo s r d fd h.fs 0
      → IsServida fd mime (servir s fecha_gmt d h)
  unfolding servir
  servir-IsServida h fd mime c a m l =
      let leida : Leyendo s r d fd (get_informacion_archivo s d (extension_archivo h.fs)) 0 =
        informacion-Leyendo (extension_archivo h.fs) fd (unfold extension_archivo in a)
          (extension-Leyendo h.fs fd l) in
      rw (m, servir)
        (record {
          codigo = refl;
          con_cuerpo = c;
          leyendo = leida;
          size = ap to_string_ℕ leida.tamano;
          tipo = refl;
          edicion =
              ((get_informacion_archivo s d (extension_archivo h.fs)).fecha_modificacion, refl);
        })

  servir-protocolo :
      (h : InterpreteHttp s.Fd)
      → ((servir s fecha_gmt d h).respuesta_protocolo ≡ h.respuesta_protocolo)
        × ((servir s fecha_gmt d h).respuesta_rangos ≡ h.respuesta_rangos)
  unfolding servir
  servir-protocolo h = (ground arith, ground arith)

  solo_nunca :
      (h : InterpreteHttp s.Fd) (metodo : Bytes)
      → h.enviar_solo_headers ≡ false
      → (if text_eq metodo (codes "HEAD") then false else h.enviar_solo_headers) ≡ false
  solo_nunca h metodo c = ground arith

  atender_recurso-IsServida :
      (h : InterpreteHttp s.Fd) (metodo ruta : Bytes) (fd : s.Fd) (mime : Bytes)
      → h.enviar_solo_headers ≡ false
      → IsRecurso h.fs ruta fd mime
      → (h' : InterpreteHttp s.Fd) × (atender_recurso s fecha_gmt d h metodo ruta ≡ some h')
        × IsServida fd mime h'
        × (h'.respuesta_protocolo ≡ h.respuesta_protocolo)
        × (h'.respuesta_rangos ≡ h.respuesta_rangos)
  unfolding atender_recurso
  atender_recurso-IsServida h metodo ruta fd mime c x =
      let fs : FileSystem s.Fd = abrir_ruta s d (nombrado s d h.fs x.partes) in
      let h₁ : InterpreteHttp s.Fd = record h {
        fs = fs;
        enviar_solo_headers =
            if text_eq metodo (codes "HEAD") then false else h.enviar_solo_headers;
      } in
      let abierto : set_ruta s d h.fs (ruta_fisica ruta) ≡ some fs =
        unfold set_ruta nombrado in rw (x.partidas, ◌>>=◌) in
      let nombres = abrir_ruta-IsAbierto s d h.fs x.partes in
      (
        servir s fecha_gmt d h₁,
        rw (abierto, ◌>>=◌, x.existe),
        servir-IsServida h₁ fd mime (solo_nunca h metodo c)
            (rw (nombres.ruta_directorios_eq, nombres.nombre_archivo_eq) x.archivo_abierto)
            x.conocido
            (abrir_ruta-Leyendo s d r h.fs x.partes x.entradas fd x.dir_abierto x.archivo_abierto
              x.corto),
        (servir-protocolo h₁).0,
        (servir-protocolo h₁).1,
      )

  -- A GET or a HEAD, with a host and an accepted version, of a file that is there, opens and is of a
  -- known type: the answer is 200 with the size of the file, and the object is at its first byte. A
  -- HEAD, too, goes on to send the body.
  pub procesar_request-IsServida :
      (h : InterpreteHttp s.Fd) (metodo ruta htmlv headers : Bytes) (fd : s.Fd) (mime : Bytes)
      → extraer_valor_header headers (codes "ost: ") ≢ []
      → clasificar_version htmlv ≡ aceptada
      → (metodo ≡ codes "GET") ⊎ (metodo ≡ codes "HEAD")
      → h.enviar_solo_headers ≡ false
      → IsRecurso h.fs ruta fd mime
      → (h' : InterpreteHttp s.Fd) × (procesar_request s fecha_gmt d h metodo ruta htmlv headers
          ≡ some h')
        × IsServida fd mime h'
        × (h'.respuesta_protocolo ≡ htmlv)
        × (h'.respuesta_rangos ≡ h.respuesta_rangos)
  unfolding procesar_request procesar_version
  procesar_request-IsServida h metodo ruta htmlv headers fd mime host v m c x =
      let h₁ : InterpreteHttp s.Fd = record h { respuesta_protocolo = htmlv } in
      let (h', e, servida, prot, rangos) = atender_recurso-IsServida h₁ metodo ruta fd mime c x in
      (h', rw (text_eq-nil _ host, v, (metodo_iff metodo).1 m) e, servida, prot, rangos)
