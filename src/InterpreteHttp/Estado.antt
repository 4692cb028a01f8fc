-- ===== src/InterpreteHttp/Estado.antt =====
-- The status codes that `construirRespuesta` (src/InterpreteHTTP.cpp) gives.
use server_load_balancer_cli.Prelude.{
  ℕ, ◌≡◌, ◌≢◌, refl, ◌⊎◌, inl, inr, ◌↔◌, true, false, Option, some, List, [], ◌∷◌, arith,
  Bool-cases, ◌>>=◌, if◌then◌else◌,
}
use server_load_balancer_cli.Prelude.Text.{Bytes, codes, text_eq, text_eq_iff}
use server_load_balancer_cli.Utilidades.{crlf, split, extraer_valor_header}
use server_load_balancer_cli.Utilidades.Split.{split-ne-nil}
use server_load_balancer_cli.FileSystem.Llamadas.{Sistema}
use server_load_balancer_cli.FileSystem.Abrir.{set_ruta_total}
use server_load_balancer_cli.FileSystem.{barra, existe_archivo}
use server_load_balancer_cli.InterpreteHttp.{
  InterpreteHttp, Version, aceptada, no_soportada, mala, clasificar_version, recuperar_estado,
  ruta_fisica, rechazar, servir, atender_recurso, procesar_version, procesar_request,
  procesar_partes, decidir, construir_respuesta, es_get_o_head, hay_vacia,
}

-- A request is answered 400 for its version only if that is "HTTP/3.0"; whatever else is not one of
-- the two accepted versions is answered as not supported.
pub clasificar_version_iff :
    (v : Bytes)
    → ((clasificar_version v ≡ aceptada) ↔ ((v ≡ codes "HTTP/1.0") ⊎ (v ≡ codes "HTTP/1.1")))
      × ((clasificar_version v ≡ mala) ↔ (v ≡ codes "HTTP/3.0"))
unfolding clasificar_version
clasificar_version_iff v = (
  (
    ground (arith, text_eq_iff v (codes "HTTP/1.0"), text_eq_iff v (codes "HTTP/1.1")),
    elim [ inl e ↦ unfold text_eq in rw e | inr e ↦ unfold text_eq in rw e ],
  ),
  (ground (arith, text_eq_iff v (codes "HTTP/3.0")), λ e. unfold text_eq in rw e),
)

-- The path that is opened is neither empty nor a separator alone.
pub ruta_fisica-ne-nil : (ruta : Bytes) → ruta_fisica ruta ≢ []
unfolding ruta_fisica
ruta_fisica-ne-nil ruta = ground arith

pub ruta_fisica-ne-barra : (ruta : Bytes) → ruta_fisica ruta ≢ barra
unfolding ruta_fisica
ruta_fisica-ne-barra ruta = ground arith

pub metodo_iff :
    (metodo : Bytes)
    → (es_get_o_head metodo ≡ true) ↔ ((metodo ≡ codes "GET") ⊎ (metodo ≡ codes "HEAD"))
unfolding es_get_o_head
metodo_iff metodo = (
  ground (arith, text_eq_iff metodo (codes "GET"), text_eq_iff metodo (codes "HEAD")),
  elim [ inl e ↦ unfold text_eq in rw e | inr e ↦ unfold text_eq in rw e ],
)

-- The status codes that the interpreter decides on.
abbrev pub Codigo : ℕ → Type 0
Codigo n = (n ≡ 200) ⊎ (n ≡ 400) ⊎ (n ≡ 404) ⊎ (n ≡ 501) ⊎ (n ≡ 505)

module _ (s : Sistema) (fecha_gmt : ℕ → Bytes) (d : s.Disco) where
  abbrev Decide : Option (InterpreteHttp s.Fd) → Type 0
  Decide r = (h : InterpreteHttp s.Fd) × (r ≡ some h) × Codigo h.respuesta_estado_codigo

  servir-Codigo :
      (h : InterpreteHttp s.Fd) → Codigo (servir s fecha_gmt d h).respuesta_estado_codigo
  unfolding servir
  servir-Codigo h = ground arith

  atender_recurso-Decide :
      (h : InterpreteHttp s.Fd) (metodo ruta : Bytes)
      → Decide (atender_recurso s fecha_gmt d h metodo ruta)
  unfolding atender_recurso
  atender_recurso-Decide h metodo ruta =
      let (p, fs, _, e, _, _) =
        set_ruta_total s d h.fs (ruta_fisica ruta) (ruta_fisica-ne-nil ruta)
          (ruta_fisica-ne-barra ruta) in
      let solo = if text_eq metodo (codes "HEAD") then false else h.enviar_solo_headers in
      let h' : InterpreteHttp s.Fd = record h { fs = fs; enviar_solo_headers = solo } in
      (
        if existe_archivo fs
            then servir s fecha_gmt d h'
            else record h' { respuesta_estado_codigo = 404 },
        rw (e, ◌>>=◌),
        ground (arith, servir-Codigo h'),
      )

  procesar_version-Decide :
      (v : Version) (h : InterpreteHttp s.Fd) (metodo ruta htmlv : Bytes)
      → Decide (procesar_version s fecha_gmt v d h metodo ruta htmlv)
  unfolding procesar_version rechazar
  procesar_version-Decide no_soportada h metodo ruta htmlv =
      (rechazar h 505, refl, inr (inr (inr (inr refl))))
  procesar_version-Decide mala h metodo ruta htmlv = (rechazar h 400, refl, inr (inl refl))
  procesar_version-Decide aceptada h metodo ruta htmlv =
      let h' : InterpreteHttp s.Fd = record h { respuesta_protocolo = htmlv } in
      elim (Bool-cases (es_get_o_head metodo)) [
        | inl e ↦ rw e (atender_recurso-Decide h' metodo ruta)
        | inr e ↦ rw e (record h' { respuesta_estado_codigo = 400 }, refl, inr (inl refl))
      ]

  procesar_request-Decide :
      (h : InterpreteHttp s.Fd) (metodo ruta htmlv headers : Bytes)
      → Decide (procesar_request s fecha_gmt d h metodo ruta htmlv headers)
  unfolding procesar_request
  procesar_request-Decide h metodo ruta htmlv headers =
      elim (Bool-cases (text_eq (extraer_valor_header headers (codes "ost: ")) [])) [
        | inl e ↦ (record h { respuesta_estado_codigo = 400 }, rw e, inr (inl refl))
        | inr e ↦ rw e (procesar_version-Decide (clasificar_version htmlv) h metodo ruta htmlv)
      ]

  procesar_partes-Decide :
      (h : InterpreteHttp s.Fd) (partes : List Bytes) (headers : Bytes)
      → Decide (procesar_partes s fecha_gmt d h partes headers)
  unfolding procesar_partes rechazar
  procesar_partes-Decide h [] headers = (rechazar h 400, refl, inr (inl refl))
  procesar_partes-Decide h (a ∷ []) headers = (rechazar h 400, refl, inr (inl refl))
  procesar_partes-Decide h (a ∷ b ∷ []) headers = (rechazar h 400, refl, inr (inl refl))
  procesar_partes-Decide h (a ∷ b ∷ c ∷ mas) headers =
      elim (Bool-cases (hay_vacia (a ∷ b ∷ c ∷ mas))) [
        | inl e ↦ rw e (rechazar h 400, refl, inr (inl refl))
        | inr e ↦ rw e (procesar_request-Decide h a b c headers)
      ]

  decidir-Decide :
      (h : InterpreteHttp s.Fd) (partes : List Bytes)
      → partes ≢ []
      → Decide (decidir s fecha_gmt d h partes)
  unfolding decidir rechazar
  decidir-Decide h [] ne = absurd (ne refl)
  decidir-Decide h (a ∷ []) ne = (rechazar h 400, refl, inr (inl refl))
  decidir-Decide h (a ∷ b ∷ mas) ne = procesar_partes-Decide h (split a (codes " ") 3) b

  -- Every request that is not empty gets an answer: one of five status codes, with its text.
  pub construir_respuesta_total :
      (h : InterpreteHttp s.Fd) (request : Bytes)
      → request ≢ []
      → (h' : InterpreteHttp s.Fd) × (construir_respuesta s fecha_gmt d h request ≡ some h')
        × Codigo h'.respuesta_estado_codigo
        × (h'.respuesta_estado_mensaje ≡ recuperar_estado h'.respuesta_estado_codigo)
  unfolding construir_respuesta
  construir_respuesta_total h request ne =
      let h₀ : InterpreteHttp s.Fd = record h {
        enviar_solo_headers = false;
        error_ocurrido = false;
      } in
      let (h₁, e, c) = decidir-Decide h₀ (split request crlf 1) (split-ne-nil request crlf 1 ne) in
      (
        record h₁ { respuesta_estado_mensaje = recuperar_estado h₁.respuesta_estado_codigo },
        rw (e, ◌>>=◌),
        c,
        refl,
      )
