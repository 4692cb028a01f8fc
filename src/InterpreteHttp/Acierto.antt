-- ===== src/InterpreteHttp/Acierto.antt =====
-- When `procesarRequest` (src/InterpreteHTTP.cpp) answers 200.
use server_load_balancer_cli.Prelude.{
  ℕ, ◌≡◌, ◌≢◌, refl, ◌⊎◌, inl, inr, ◌↔◌, ◌∙◌, ap, sym, true, false, some, some_inj, [], arith,
  Option-cases, Bool-cases, ◌>>=◌, if◌then◌else◌,
}
use server_load_balancer_cli.Prelude.Text.{Bytes, codes, text_eq, text_eq_iff, text_eq_sound}
use server_load_balancer_cli.Utilidades.{extraer_valor_header}
use server_load_balancer_cli.FileSystem.Llamadas.{Sistema}
use server_load_balancer_cli.FileSystem.Abrir.{set_ruta_total}
use server_load_balancer_cli.FileSystem.{FileSystem, existe_archivo, set_ruta, extension_archivo}
use server_load_balancer_cli.InterpreteHttp.{
  InterpreteHttp, Version, aceptada, no_soportada, mala, clasificar_version, mimetypes, buscar_mime,
  ruta_fisica, rechazar, servir, atender_recurso, procesar_version, procesar_request, es_get_o_head,
}
use server_load_balancer_cli.InterpreteHttp.Estado.{
  metodo_iff, ruta_fisica-ne-nil, ruta_fisica-ne-barra,
}

module _ (s : Sistema) (fecha_gmt : ℕ → Bytes) (d : s.Disco) where
  -- What a request asks for is there and of a known type.
  abbrev pub Disponible : InterpreteHttp s.Fd → Bytes → Type 0
  Disponible h ruta =
      (fs : FileSystem s.Fd) × (set_ruta s d h.fs (ruta_fisica ruta) ≡ some fs)
      × (existe_archivo fs ≡ true)
      × (m : Bytes) × (buscar_mime mimetypes (extension_archivo fs).extension ≡ some m)

  servir-200 :
      (h : InterpreteHttp s.Fd)
      → (servir s fecha_gmt d h).respuesta_estado_codigo ≡ 200
      → (m : Bytes) × (buscar_mime mimetypes (extension_archivo h.fs).extension ≡ some m)
  unfolding servir
  servir-200 h e = elim (Option-cases (buscar_mime mimetypes (extension_archivo h.fs).extension)) [
    | inl n ↦ absurd (ground arith)
    | inr x ↦ x
  ]

  servir_conocido :
      (h : InterpreteHttp s.Fd) (m : Bytes)
      → buscar_mime mimetypes (extension_archivo h.fs).extension ≡ some m
      → (servir s fecha_gmt d h).respuesta_estado_codigo ≡ 200
  unfolding servir
  servir_conocido h m e = rw (e, servir)

  -- The file system that `setRuta` leaves is the one that the branch goes on with.
  atender_recurso_abierto :
      (h : InterpreteHttp s.Fd) (metodo ruta : Bytes) (fs : FileSystem s.Fd)
      (h' : InterpreteHttp s.Fd)
      → set_ruta s d h.fs (ruta_fisica ruta) ≡ some fs
      → atender_recurso s fecha_gmt d h metodo ruta ≡ some h'
      → (h'.respuesta_estado_codigo ≡ 200) ↔ (
          (existe_archivo fs ≡ true)
          × (m : Bytes) × (buscar_mime mimetypes (extension_archivo fs).extension ≡ some m))
  unfolding atender_recurso
  atender_recurso_abierto h metodo ruta fs h' e k =
      let solo = if text_eq metodo (codes "HEAD") then false else h.enviar_solo_headers in
      let h₁ : InterpreteHttp s.Fd = record h { fs = fs; enviar_solo_headers = solo } in
      let h₂ : InterpreteHttp s.Fd = record h₁ { respuesta_estado_codigo = 404 } in
      let abierto : atender_recurso s fecha_gmt d h metodo ruta
          ≡ some (if existe_archivo fs then servir s fecha_gmt d h₁ else h₂) =
        rw (e, ◌>>=◌) in
      let igual : (if existe_archivo fs then servir s fecha_gmt d h₁ else h₂) ≡ h' =
        some_inj (sym abierto ∙ k) in
      elim (Bool-cases (existe_archivo fs)) [
        | inl x ↦
            let servido : servir s fecha_gmt d h₁ ≡ h' =
              ap (λ b. if b then servir s fecha_gmt d h₁ else h₂) (sym x) ∙ igual in
            (
              λ c.
                  (let (m, q) = servir-200 h₁ (ap (λ g. g.respuesta_estado_codigo) servido ∙ c) in
                    (x, m, q)),
              λ (_, m, q).
                  ap (λ g. g.respuesta_estado_codigo) (sym servido) ∙ servir_conocido h₁ m q,
            )
        | inr x ↦
            let negado : h₂ ≡ h' =
              ap (λ b. if b then servir s fecha_gmt d h₁ else h₂) (sym x) ∙ igual in
            let codigo : 404 ≡ h'.respuesta_estado_codigo =
              ap (λ g. g.respuesta_estado_codigo) negado in
            (λ c. absurd (omega (arith, codigo)), λ (y, _, _). absurd (ground (arith, x, y)))
      ]

  atender_recurso-200_iff :
      (h : InterpreteHttp s.Fd) (metodo ruta : Bytes) (h' : InterpreteHttp s.Fd)
      → atender_recurso s fecha_gmt d h metodo ruta ≡ some h'
      → (h'.respuesta_estado_codigo ≡ 200) ↔ Disponible h ruta
  atender_recurso-200_iff h metodo ruta h' k =
      let (p, fs, _, e, _, _) =
        set_ruta_total s d h.fs (ruta_fisica ruta) (ruta_fisica-ne-nil ruta)
          (ruta_fisica-ne-barra ruta) in
      (
        λ c.
            let (x, m, q) = (atender_recurso_abierto h metodo ruta fs h' e k).0 c in
            (fs, e, x, m, q),
        λ (fs', e', x, m, q). (atender_recurso_abierto h metodo ruta fs' h' e' k).1 (x, m, q),
      )

  procesar_version-200_iff :
      (v : Version) (h : InterpreteHttp s.Fd) (metodo ruta htmlv : Bytes) (h' : InterpreteHttp s.Fd)
      → procesar_version s fecha_gmt v d h metodo ruta htmlv ≡ some h'
      → (h'.respuesta_estado_codigo ≡ 200)
        ↔ ((v ≡ aceptada) × ((metodo ≡ codes "GET") ⊎ (metodo ≡ codes "HEAD")) × Disponible h ruta)
  unfolding procesar_version rechazar
  procesar_version-200_iff no_soportada h metodo ruta htmlv h' k =
      (λ c. absurd (ground arith), λ t. absurd (ground (arith, t.0)))
  procesar_version-200_iff mala h metodo ruta htmlv h' k =
      (λ c. absurd (ground arith), λ t. absurd (ground (arith, t.0)))
  procesar_version-200_iff aceptada h metodo ruta htmlv h' k =
      let h₁ : InterpreteHttp s.Fd = record h { respuesta_protocolo = htmlv } in
      elim (Bool-cases (es_get_o_head metodo)) [
        | inl e ↦
            let r = atender_recurso-200_iff h₁ metodo ruta h' (rw e at k) in
            (λ c. (refl, (metodo_iff metodo).0 e, r.0 c), λ (_, _, t). r.1 t)
        | inr e ↦ (
          λ c. absurd (ground arith),
          λ (_, t, _). absurd (ground (arith, (metodo_iff metodo).1 t)),
        )
      ]

  -- `procesarRequest` answers 200 exactly to a GET or a HEAD, with a host and an accepted version,
  -- of a file that is there and of a known type.
  pub procesar_request-200_iff :
      (h : InterpreteHttp s.Fd) (metodo ruta htmlv headers : Bytes) (h' : InterpreteHttp s.Fd)
      → procesar_request s fecha_gmt d h metodo ruta htmlv headers ≡ some h'
      → (h'.respuesta_estado_codigo ≡ 200) ↔ (
          (extraer_valor_header headers (codes "ost: ") ≢ [])
          × (clasificar_version htmlv ≡ aceptada)
          × ((metodo ≡ codes "GET") ⊎ (metodo ≡ codes "HEAD"))
          × Disponible h ruta)
  unfolding procesar_request
  procesar_request-200_iff h metodo ruta htmlv headers h' k =
      let valor = extraer_valor_header headers (codes "ost: ") in
      elim (Bool-cases (text_eq valor [])) [
        | inl e ↦
            let negado : some (record h { respuesta_estado_codigo = 400 }) ≡ some h' = rw e at k in
            (λ c. absurd (ground arith), λ t. absurd (t.0 (text_eq_sound valor [] e)))
        | inr e ↦
            let r =
              procesar_version-200_iff (clasificar_version htmlv) h metodo ruta htmlv h'
                (rw e at k) in
            (
              λ c.
                  let (a, b, t) = r.0 c in
                  (λ z. absurd (ground (arith, (text_eq_iff valor []).1 z)), a, b, t),
              λ (_, a, b, t). r.1 (a, b, t),
            )
      ]
