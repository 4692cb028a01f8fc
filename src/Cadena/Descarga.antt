-- ===== src/Cadena/Descarga.antt =====
-- A download of src/WebCliente.cpp from a server of src/WebServidor.cpp: from the file on the server's
-- disk to the file on the client's.
use server_load_balancer_cli.Prelude.{
  ℕ, ◌+◌, ◌≤◌, ◌<◌, ◌≡◌, refl, ap, ◌∙◌, subst, true, false, Option, some, List, [], ◌∷◌, ◌++◌,
  flatten, length, take, drop, inl, arith, ◌>>=◌,
}
use server_load_balancer_cli.Prelude.Text.{Bytes, codes, Lacks-of}
use server_load_balancer_cli.Utilidades.{crlf, buffer_size}
use server_load_balancer_cli.FileSystem.{FileSystem}
use server_load_balancer_cli.FileSystem.Llamadas.{Sistema, Regulares}
use server_load_balancer_cli.FileSystem.Escritura.{Escribibles}
use server_load_balancer_cli.InterpreteHttp.{InterpreteHttp}
use server_load_balancer_cli.InterpreteHttp.Solicitud.{IsParte}
use server_load_balancer_cli.InterpreteHttp.Cuerpo.{IsRecurso}
use server_load_balancer_cli.InterpreteHttp.Cabecera.{
  unidas, Limpio, lineas, linea_de_estado, lineas-Limpias, unidas-Lacks, find-unidas,
  recuperar_header-lineas, mime-Limpio,
}
use server_load_balancer_cli.WebCliente.{
  Opciones, configurar, realizar_peticion, nombre_de_descarga,
}
use server_load_balancer_cli.WebCliente.Peticion.{pedir-IsServida}
use server_load_balancer_cli.WebCliente.Descarga.{hasta_vacia}
use server_load_balancer_cli.WebCliente.Bajada.{preparar_descarga, bajar}
use server_load_balancer_cli.WebCliente.Guardar.{bajar_lem}
use server_load_balancer_cli.Cadena.{
  NoVacias, Corriente, ConFin, directo, por_balanceador, por_balanceador-directo,
}
use server_load_balancer_cli.Cadena.Pedido.{
  rumbo_de-ok, cliente_de, configurar-descarga, aceptada-1_1, get_lem, version_lem,
  peticion-IsCerrada, nada_pasa,
}

module _ (s c : Sistema) (fecha_gmt : ℕ → Bytes) (red : Corriente) where
  -- `main` of the client, behind a session of the balancer, whose buffer held `sucio`, and a child process
  -- of the server, whose buffers held `memorias`. The first read waits for a full buffer or the end of the answer; the others give the
  -- rest in pieces, and then nothing.
  unfoldable pub bajada :
      ℕ
      → s.Disco
      → InterpreteHttp s.Fd
      → Bytes
      → Bytes
      → List Bytes
      → Opciones
      → Bytes
      → Bytes
      → ℕ
      → c.Disco
      → FileSystem c.Fd
      → Option c.Disco
  unfolding por_balanceador realizar_peticion configurar bajar
  bajada f d h fecha sucio memorias o ruta buffer ultimo disco fs = do
    respuesta ←
        por_balanceador s fecha_gmt red f d h fecha sucio memorias
          (realizar_peticion (configurar o ruta))
    bajar c o ruta buffer ultimo (take buffer_size respuesta)
        (red.partir 3 (drop buffer_size respuesta) ++ [] ∷ []) disco fs

-- The reads of the rest spell it.
flatten-hasta_vacia :
    (ts : List Bytes) → NoVacias ts → flatten (hasta_vacia (ts ++ [] ∷ [])) ≡ flatten ts
flatten-hasta_vacia [] h = refl
flatten-hasta_vacia ([] ∷ ts) h = absurd h
flatten-hasta_vacia ((x ∷ t) ∷ ts) h = ap (λ y. (x ∷ t) ++ y) (flatten-hasta_vacia ts h)

estado-Limpio : Limpio linea_de_estado
estado-Limpio = (Lacks-of 0 linea_de_estado refl, Lacks-of 13 linea_de_estado refl)

module _ (s c : Sistema) (r : Regulares s) (rc : Regulares c) (w : Escribibles c rc)
    (fecha_gmt : ℕ → Bytes) (red : Corriente) (d : s.Disco) (h : InterpreteHttp s.Fd)
    (fecha : Bytes) where
  -- The header of a file of `n` bytes, without the blank line, for a time of change.
  abbrev pub cabecera_de : ℕ → Bytes → ℕ → Bytes
  cabecera_de n mime t =
      unidas linea_de_estado (lineas fecha h.respuesta_rangos n mime (fecha_gmt t))

  -- The answer to the client of a download.
  respuesta_lem :
      (ruta : Bytes) (fd : s.Fd) (mime : Bytes) (f : ℕ)
      → IsParte (codes "/" ++ ruta)
      → IsRecurso s r fecha_gmt d h.fs (codes "/" ++ ruta) fd mime
      → length (r.contenido d fd) < f
      → (t : ℕ) × (directo s fecha_gmt f d h fecha (realizar_peticion (cliente_de ruta))
          ≡ some (
              (cabecera_de (length (r.contenido d fd)) mime t ++ (crlf ++ crlf))
              ++ r.contenido d fd))
  unfolding directo
  respuesta_lem ruta fd mime f p x largo =
      let (h', servida, protocolo, rangos, mensaje, e) =
        pedir-IsServida s r fecha_gmt d h (cliente_de ruta) fd mime fecha f get_lem p version_lem
          (Lacks-of 13 (codes "www.google.com") refl) (Lacks-of b';' (codes "www.google.com") refl)
          (λ z. cc) (omega arith) aceptada-1_1 (inl refl) x largo in
      let (t, edicion) = servida.edicion in
      let n = length (r.contenido d fd) in
      let escrita =
        recuperar_header-lineas h' fecha n protocolo servida.codigo mensaje servida.size in
      (t, rw (directo, e, ◌>>=◌, escrita, rangos, servida.tipo, edicion) refl)

  -- The balancer passes the request and the answer on.
  pasada :
      (ruta : Bytes) (f : ℕ) (sucio : Bytes) (memorias : List Bytes)
      → Limpio ruta
      → red.partir 0 (realizar_peticion (cliente_de ruta))
        ≡ realizar_peticion (cliente_de ruta) ∷ []
      → ConFin (red.partir 1 (realizar_peticion (cliente_de ruta))) memorias
      → por_balanceador s fecha_gmt red f d h fecha sucio memorias
          (realizar_peticion (cliente_de ruta))
        ≡ directo s fecha_gmt f d h fecha (realizar_peticion (cliente_de ruta))
  pasada ruta f sucio memorias l entera fines =
      let peticion = realizar_peticion (cliente_de ruta) in
      let (sin_nul, cerrada) = peticion-IsCerrada ruta l in
      por_balanceador-directo s fecha_gmt red f d h fecha sucio peticion peticion [] memorias
        cerrada.sitio cerrada sin_nul entera (nada_pasa sucio) sin_nul cerrada.hallada fines

  -- What a client that runs with -download and neither of the two tests gets through the balancer is the
  -- server's file. For a file that is there, opens, is below 2 GiB and of a known type, a loop over the
  -- body with more rounds than it has bytes, a request that comes to the balancer in one read and to the
  -- server in pieces behind each of which its buffer holds a NUL, a header that fits the client's first
  -- read, a path with no space, and a path and header values with no NUL and no carriage return, the
  -- client's new and open file, which is empty, gets the bytes of the server's file, whatever the pieces of
  -- the answer are; where the answer is shorter than the client's buffer, its old bytes come behind them.
  pub bajada_lem :
      (o : Opciones) (ruta nombre buffer sucio : Bytes) (fd : s.Fd) (mime : Bytes) (f ultimo : ℕ)
      (memorias : List Bytes) (disco disco₁ : c.Disco) (fs fs₁ : FileSystem c.Fd) (fdc : c.Fd)
      → o.descargable ≡ true
      → o.more_than_headers ≡ true
      → o.bad_request_test ≡ false
      → o.bad_html_version ≡ false
      → IsParte (codes "/" ++ ruta)
      → IsRecurso s r fecha_gmt d h.fs (codes "/" ++ ruta) fd mime
      → length (r.contenido d fd) < f
      → Limpio ruta
      → Limpio fecha
      → Limpio h.respuesta_rangos
      → ((t : ℕ) → Limpio (fecha_gmt t))
      → ((t : ℕ) → length (cabecera_de (length (r.contenido d fd)) mime t) + 4 ≤ buffer_size)
      → red.partir 0 (realizar_peticion (configurar o ruta))
        ≡ realizar_peticion (configurar o ruta) ∷ []
      → ConFin (red.partir 1 (realizar_peticion (configurar o ruta))) memorias
      → length buffer ≡ buffer_size
      → nombre_de_descarga ruta ≡ some nombre
      → preparar_descarga c disco fs nombre ≡ some (disco₁, fs₁)
      → fs₁.fichero ≡ some fdc
      → rc.contenido disco₁ fdc ≡ []
      → (cabecera : Bytes) × (disco₂ : c.Disco) × (por_balanceador s fecha_gmt red f d h fecha sucio
            memorias
            (realizar_peticion (configurar o ruta))
          ≡ some (cabecera ++ r.contenido d fd))
        × (bajada s c fecha_gmt red f d h fecha sucio memorias o ruta buffer ultimo disco fs
            ≡ some disco₂)
        × (rc.contenido disco₂ fdc
            ≡ r.contenido d fd ++ drop (length (cabecera ++ r.contenido d fd)) buffer)
  unfolding bajada
  bajada_lem o ruta nombre buffer sucio fd mime f ultimo memorias disco disco₁ fs fs₁ fdc od om ob
        ov p x largo lp lf lr lg cabe entera fines lleno llamado hecho abierto nuevo =
      let n = length (r.contenido d fd) in
      let (t, e) = respuesta_lem ruta fd mime f p x largo in
      let ls = lineas fecha h.respuesta_rangos n mime (fecha_gmt t) in
      let limpias =
        lineas-Limpias fecha h.respuesta_rangos n mime (fecha_gmt t) lf lr
          (mime-Limpio _ x.conocido) (lg t) in
      let respuesta = (cabecera_de n mime t ++ (crlf ++ crlf)) ++ r.contenido d fd in
      let resto = drop buffer_size respuesta in
      let igual = configurar-descarga o ruta om ob ov in
      let pedida : por_balanceador s fecha_gmt red f d h fecha sucio memorias
            (realizar_peticion (configurar o ruta))
          ≡ some respuesta =
        ap (λ q. por_balanceador s fecha_gmt red f d h fecha sucio memorias (realizar_peticion q))
          igual
        ∙ pasada ruta f sucio memorias lp
            (subst (λ q. red.partir 0 (realizar_peticion q) ≡ realizar_peticion q ∷ []) igual
              entera)
            (subst (λ q. ConFin (red.partir 1 (realizar_peticion q)) memorias) igual fines)
        ∙ e in
      let (disco₂, b, contenido) =
        bajar_lem c rc w o ruta nombre buffer (cabecera_de n mime t) (r.contenido d fd) ultimo
          (red.partir 3 resto ++ [] ∷ []) disco disco₁ fs fs₁ fdc lleno
          (unidas-Lacks linea_de_estado ls estado-Limpio limpias)
          (find-unidas linea_de_estado ls estado-Limpio limpias) (cabe t) (omega (arith, x.corto))
          (flatten-hasta_vacia (red.partir 3 resto) (red.partir-NoVacias 3 resto)
            ∙ red.flatten-partir 3 resto)
          (rumbo_de-ok o (drop 18 (cabecera_de n mime t ++ (crlf ++ crlf))) od om) llamado hecho
          abierto nuevo in
      (
        cabecera_de n mime t ++ (crlf ++ crlf),
        disco₂,
        pedida,
        rw (bajada, pedida, ◌>>=◌) b,
        contenido,
      )
