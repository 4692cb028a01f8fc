-- ===== src/WebCliente/Peticion.antt =====
-- The request that src/WebCliente.cpp writes, as src/WebServidor.cpp reads it.
use server_load_balancer_cli.Prelude.{
  ℕ, ◌+◌, ◌<◌, ◌^◌, ◌≡◌, ◌≢◌, refl, ◌⊎◌, sym, ◌∙◌, some, [], ◌∷◌, ◌++◌, length, arith, append_assoc,
}
use server_load_balancer_cli.Prelude.Text.{
  Bytes, codes, find, starts_with, Lacks, Lacks-of, All-append,
}
use server_load_balancer_cli.Prelude.Decimal.{to_string_ℕ}
use server_load_balancer_cli.Utilidades.{crlf, extraer_valor_header}
use server_load_balancer_cli.Utilidades.Header.{hasta_fin, extraer_valor_header_lem}
use server_load_balancer_cli.FileSystem.Llamadas.{Sistema, Regulares}
use server_load_balancer_cli.InterpreteHttp.{
  InterpreteHttp, aceptada, clasificar_version, recuperar_header, recuperar_estado,
}
use server_load_balancer_cli.InterpreteHttp.Solicitud.{IsParte, solicitud, linea_de}
use server_load_balancer_cli.InterpreteHttp.Cuerpo.{IsRecurso, IsServida}
use server_load_balancer_cli.WebServidor.{responder}
use server_load_balancer_cli.WebServidor.Servicio.{responder-IsServida}
use server_load_balancer_cli.WebCliente.{WebCliente, realizar_peticion}

-- What the client writes is a request line, one header line, and an empty line.
realizar_peticion_lem :
    (c : WebCliente)
    → realizar_peticion c
      ≡ solicitud
          (linea_de c.peticion c.ruta (codes "HTTP/" ++ c.htmlver))
          (codes "host: " ++ c.host)
          crlf
unfolding realizar_peticion
realizar_peticion_lem c =
    let cola = crlf ++ ((codes "host: " ++ c.host) ++ (crlf ++ crlf)) in
    rw
      (
        append_assoc c.peticion (b' ' ∷ (c.ruta ++ (b' ' ∷ (codes "HTTP/" ++ c.htmlver)))) cola,
        append_assoc c.ruta (b' ' ∷ (codes "HTTP/" ++ c.htmlver)) cola,
      )
      refl

hasta_fin_todo : (s : Bytes) → Lacks 13 s → Lacks b';' s → hasta_fin s ≡ s
unfolding hasta_fin starts_with
hasta_fin_todo [] h g = refl
hasta_fin_todo (c ∷ s) (a, h) (b, g) = ground (arith, hasta_fin_todo s h g)

lugar_host : (host : Bytes) → find (codes "host: " ++ host) (codes "ost: ") ≡ some 1
unfolding find starts_with
lugar_host host = refl

-- The server finds the host that the client names.
host_leido :
    (host : Bytes)
    → Lacks 13 host
    → Lacks b';' host
    → length host + 6 < 2 ^ 31
    → extraer_valor_header (codes "host: " ++ host) (codes "ost: ") ≡ host
host_leido host h g corto =
    extraer_valor_header_lem (codes "host: " ++ host) (codes "ost: ") 1 (omega arith)
      (lugar_host host)
    ∙ hasta_fin_todo host h g

-- The object that such a client's request leaves at the server serves the file.
pub pedir-IsServida :
    (s : Sistema) (r : Regulares s) (fecha_gmt : ℕ → Bytes) (d : s.Disco) (h : InterpreteHttp s.Fd)
    (c : WebCliente) (fd : s.Fd) (mime fecha : Bytes) (f : ℕ)
    → IsParte c.peticion
    → IsParte c.ruta
    → IsParte (codes "HTTP/" ++ c.htmlver)
    → Lacks 13 c.host
    → Lacks b';' c.host
    → c.host ≢ []
    → length c.host + 6 < 2 ^ 31
    → clasificar_version (codes "HTTP/" ++ c.htmlver) ≡ aceptada
    → (c.peticion ≡ codes "GET") ⊎ (c.peticion ≡ codes "HEAD")
    → IsRecurso s r fecha_gmt d h.fs c.ruta fd mime
    → length (r.contenido d fd) < f
    → (h' : InterpreteHttp s.Fd) × IsServida s r fecha_gmt d fd mime h'
      × (h'.respuesta_protocolo ≡ codes "HTTP/" ++ c.htmlver)
      × (h'.respuesta_rangos ≡ h.respuesta_rangos)
      × (h'.respuesta_estado_mensaje ≡ recuperar_estado 200)
      × (responder s fecha_gmt f d h fecha (realizar_peticion c)
          ≡ some (recuperar_header h' fecha, r.contenido d fd))
pedir-IsServida s r fecha_gmt d h c fd mime fecha f m p v l q no_vacio corto version metodos x
      largo =
    let (h', servida, protocolo, rangos, mensaje, e) =
      responder-IsServida s r fecha_gmt d h c.peticion c.ruta (codes "HTTP/" ++ c.htmlver)
        (codes "host: " ++ c.host) crlf fd mime fecha f m p v
        (All-append _ (codes "host: ") c.host (Lacks-of 13 (codes "host: ") refl) l)
        (λ z. no_vacio (sym (host_leido c.host l q corto) ∙ z)) version metodos x largo in
    (h', servida, protocolo, rangos, mensaje, rw (realizar_peticion_lem c) e)

-- A client whose method is GET or HEAD, whose version the server accepts and whose host is not empty
-- and holds no line end and no semicolon, gets the page it asks for: the request that it writes is
-- answered 200, and behind the header come exactly the bytes of the file.
pub pedir_archivo :
    (s : Sistema) (r : Regulares s) (fecha_gmt : ℕ → Bytes) (d : s.Disco) (h : InterpreteHttp s.Fd)
    (c : WebCliente) (fd : s.Fd) (mime fecha : Bytes) (f : ℕ)
    → IsParte c.peticion
    → IsParte c.ruta
    → IsParte (codes "HTTP/" ++ c.htmlver)
    → Lacks 13 c.host
    → Lacks b';' c.host
    → c.host ≢ []
    → length c.host + 6 < 2 ^ 31
    → clasificar_version (codes "HTTP/" ++ c.htmlver) ≡ aceptada
    → (c.peticion ≡ codes "GET") ⊎ (c.peticion ≡ codes "HEAD")
    → IsRecurso s r fecha_gmt d h.fs c.ruta fd mime
    → length (r.contenido d fd) < f
    → (h' : InterpreteHttp s.Fd) × (h'.respuesta_estado_codigo ≡ 200)
      × (h'.respuesta_size ≡ to_string_ℕ (length (r.contenido d fd)))
      × (h'.respuesta_mime ≡ mime)
      × (responder s fecha_gmt f d h fecha (realizar_peticion c)
          ≡ some (recuperar_header h' fecha, r.contenido d fd))
pedir_archivo s r fecha_gmt d h c fd mime fecha f m p v l q no_vacio corto version metodos x largo =
    let (h', servida, _, _, _, e) =
      pedir-IsServida s r fecha_gmt d h c fd mime fecha f m p v l q no_vacio corto version metodos x
        largo in
    (h', servida.codigo, servida.size, servida.tipo, e)
