-- ===== src/WebServidor/Respuesta.antt =====
-- The loop over the body in src/WebServidor.cpp: what a client is sent.
use server_load_balancer_cli.Prelude.{
  ℕ, zero, suc, ◌+◌, ◌-◌, ◌<◌, ◌^◌, ◌≡◌, ◌≢◌, refl, inl, inr, ◌∙◌, ap, sym, true, false, Option,
  some, [], ◌++◌, append-nil, length, take, drop, take_all, drop_all, drop-add, take-append-drop,
  min, arith, ◌>>=◌, ◌==◌, ==_iff, Bool-cases, ltb, ltb→lt,
}
use server_load_balancer_cli.Prelude.Int.{pos}
use server_load_balancer_cli.Prelude.Text.{Bytes}
use server_load_balancer_cli.Utilidades.{buffer_size}
use server_load_balancer_cli.FileSystem.Llamadas.{Sistema, Regulares}
use server_load_balancer_cli.FileSystem.{leer_archivo}
use server_load_balancer_cli.FileSystem.Lectura.{Leyendo, pieza, largo_pieza, leer_archivo_lem}
use server_load_balancer_cli.InterpreteHttp.{InterpreteHttp, recuperar_body, cuerpo_error}
use server_load_balancer_cli.InterpreteHttp.Estado.{Codigo}
use server_load_balancer_cli.WebServidor.{enviar_pieza, enviar_cuerpo}

enviar_positiva :
    (n : ℕ) (datos : Bytes) (sigue : ℕ → Option Bytes)
    → 0 < n
    → enviar_pieza (pos n) datos sigue ≡ (sigue n >>= λ mas. some (take n datos ++ mas))
unfolding enviar_pieza
enviar_positiva zero datos sigue h = elim h [ ]
enviar_positiva (suc n) datos sigue h = refl

module _ (s : Sistema) (r : Regulares s) (d : s.Disco) (fd : s.Fd) where
  -- The piece at `p`, and what stands behind it.
  pieza-append :
      (p len : ℕ)
      → pieza s r d fd p len ++ drop (p + length (pieza s r d fd p len)) (r.contenido d fd)
        ≡ drop p (r.contenido d fd)
  pieza-append p len =
      rw (largo_pieza s r d fd p len, drop-add)
        (take-append-drop (min len (length (r.contenido d fd) - p)) (drop p (r.contenido d fd)))

  body_200 :
      (h : InterpreteHttp s.Fd) (p len : ℕ)
      → h.respuesta_estado_codigo ≡ 200
      → h.enviar_solo_headers ≡ false
      → recuperar_body s d h p len ≡ record {
        http = record h { fs = (leer_archivo s d h.fs p len).fs };
        leidos = (leer_archivo s d h.fs p len).leidos;
        datos = (leer_archivo s d h.fs p len).datos;
      }
  unfolding recuperar_body
  body_200 h p len c n = let t = (==_iff h.respuesta_estado_codigo 200).1 c in ground arith

  -- Of a file below 2 GiB that is being served, the loop ends and sends exactly what is left, if it has
  -- more rounds than bytes are left.
  pub enviar_cuerpo_resto :
      (f : ℕ) (h : InterpreteHttp s.Fd) (p : ℕ)
      → h.respuesta_estado_codigo ≡ 200
      → h.enviar_solo_headers ≡ false
      → length (r.contenido d fd) < 2 ^ 31
      → Leyendo s r d fd h.fs p
      → length (r.contenido d fd) - p < f
      → enviar_cuerpo s f d h p ≡ some (drop p (r.contenido d fd))
  unfolding enviar_cuerpo
  enviar_cuerpo_resto zero h p c n corto l e = elim e [ ]
  enviar_cuerpo_resto (suc f) h p c n corto l e =
      let (datos, leidos, _, siguiente) =
        leer_archivo_lem s r d fd h.fs p buffer_size corto (omega arith) l in
      let largo = largo_pieza s r d fd p buffer_size in
      let todo = pieza s r d fd p buffer_size in
      elim (Bool-cases (ltb 0 (length todo))) [
        | inl t ↦
            let sigue =
              enviar_cuerpo_resto f (record h { fs = (leer_archivo s d h.fs p buffer_size).fs })
                (p + length todo) c n corto (siguiente (ltb→lt 0 (length todo) t))
                (omega (arith, largo, l.dentro, ltb→lt 0 (length todo) t)) in
            rw
              (
                body_200 h p buffer_size c n,
                datos,
                leidos,
                enviar_positiva (length todo) todo _ (ltb→lt 0 (length todo) t),
                sigue,
                ◌>>=◌,
                take_all (length todo) todo (omega arith),
              )
              (ap some (pieza-append p buffer_size))
        | inr t ↦
            let vacia : length todo ≡ 0 = ground arith in
            rw (body_200 h p buffer_size c n, leidos, vacia)
              (ap some (sym (drop_all p (r.contenido d fd) (omega (arith, largo, l.dentro)))))
      ]

module _ (s : Sistema) (d : s.Disco) where
  body_error :
      (h : InterpreteHttp s.Fd) (p len : ℕ)
      → h.respuesta_estado_codigo ≢ 200
      → (h.error_ocurrido ≡ false
          → recuperar_body s d h p len ≡ record {
            http = record h { error_ocurrido = true };
            leidos = pos (length (cuerpo_error h.respuesta_estado_codigo));
            datos = take (len - 1) (cuerpo_error h.respuesta_estado_codigo);
          })
        × (h.error_ocurrido ≡ true
            → recuperar_body s d h p len ≡ record { http = h; leidos = pos 0; datos = [] })
  unfolding recuperar_body
  body_error h p len c =
      let t : (h.respuesta_estado_codigo == 200) ≡ false = ground arith in
      (λ e. rw (t, e), λ e. rw (t, e))

  cuerpo_corto : (n : ℕ) → Codigo n → length (cuerpo_error n) < 4096
  unfolding cuerpo_error
  cuerpo_corto n (inl e) = rw e (omega arith)
  cuerpo_corto n (inr (inl e)) = rw e (omega arith)
  cuerpo_corto n (inr (inr (inl e))) = rw e (omega arith)
  cuerpo_corto n (inr (inr (inr (inl e)))) = rw e (omega arith)
  cuerpo_corto n (inr (inr (inr (inr e)))) = rw e (omega arith)

  cuerpo_no_vacio : (n : ℕ) → 0 < length (cuerpo_error n)
  unfolding cuerpo_error
  cuerpo_no_vacio n = omega arith

  -- An answer with one of the codes other than 200, of which nothing has been sent, has one body, the
  -- page that names its status, and it is sent whole in the first of two rounds.
  pub enviar_cuerpo_error :
      (f : ℕ) (h : InterpreteHttp s.Fd)
      → Codigo h.respuesta_estado_codigo
      → h.respuesta_estado_codigo ≢ 200
      → h.error_ocurrido ≡ false
      → enviar_cuerpo s (suc (suc f)) d h 0 ≡ some (cuerpo_error h.respuesta_estado_codigo)
  unfolding enviar_cuerpo
  enviar_cuerpo_error f h k c e =
      let pagina = cuerpo_error h.respuesta_estado_codigo in
      let corto = cuerpo_corto h.respuesta_estado_codigo k in
      rw
        (
          (body_error h 0 buffer_size c).0 e,
          enviar_positiva (length pagina) _ _ (cuerpo_no_vacio h.respuesta_estado_codigo),
          (body_error (record h { error_ocurrido = true }) (0 + length pagina) buffer_size c).1
              refl,
        )
        (ap some (
          append-nil _
          ∙ ap (take (length pagina)) (take_all 4095 pagina (omega (arith, corto)))
          ∙ take_all (length pagina) pagina (omega arith)))
