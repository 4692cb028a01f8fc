-- ===== src/Balanceador/Conjunto.antt =====
-- The registry of servers as the set of the texts that are registered (src/Balanceador.cpp).
use server_load_balancer_cli.Prelude.{
  ℕ, ◌≤◌, ◌<◌, ◌≡◌, refl, ap, ◌∙◌, sym, subst, Bool, true, false, not, ◌||◌, Option, some, some_inj,
  List, [], ◌∷◌, ◌++◌, length, erase_at, drop, ◌>>=◌, leb, le→ltb, if◌then◌else◌, arith, Bool-cases,
  Option-cases, inl, inr,
}
use server_load_balancer_cli.Prelude.Text.{
  Bytes, text_eq, text_eq_sound, text_eq_refl, is_found, c_str,
}
use server_load_balancer_cli.Balanceador.{
  Servidor, Balanceador, buscar_servidor, partir_anuncio, copiar_ip, registrar, agregar_servidor,
  eliminar_servidor, recibir_anuncio, es_byte, log, mostrar_estadisticas, avisar_servidores,
  sin_fijar,
}
use server_load_balancer_cli.Balanceador.Busqueda.{buscar_cases}
use server_load_balancer_cli.Balanceador.Registro.{
  IsRegistro, anunciado, carga_inicial, agregar_servidor_lem, eliminar_servidor_lem,
  recibir_anuncio_lem, sin_baja,
}

-- Is the text registered?
abbrev pub esta : List Servidor → Bytes → Bool
esta ss x = is_found (buscar_servidor ss x)

esta-cons :
    (s : Servidor) (ss : List Servidor) (x : Bytes)
    → esta (s ∷ ss) x ≡ (text_eq x s.comparador || esta ss x)
unfolding buscar_servidor
esta-cons s ss x = elim (Bool-cases (text_eq x s.comparador)) [
  | inl e ↦ rw (e, buscar_servidor) refl
  | inr e ↦ elim (Option-cases (buscar_servidor ss x)) [
    | inl f ↦ rw (e, buscar_servidor, f) refl
    | inr (i, f) ↦ rw (e, buscar_servidor, f) refl
  ]
]

o_true : (v : Bool) → (v || true) ≡ true
o_true true = refl
o_true false = refl

esta-append :
    (ss : List Servidor) (n : Servidor) (x : Bytes)
    → esta (ss ++ n ∷ []) x ≡ (if text_eq x n.comparador then true else esta ss x)
unfolding buscar_servidor
esta-append [] n x = elim (Bool-cases (text_eq x n.comparador)) [
  | inl e ↦ rw (e, buscar_servidor) refl
  | inr e ↦ rw (e, buscar_servidor) refl
]
esta-append (s ∷ ss) n x =
    let a = esta-cons s (ss ++ n ∷ []) x in
    let b = esta-cons s ss x in
    let c = esta-append ss n x in
    elim (Bool-cases (text_eq x n.comparador)) [
      | inl e ↦
          let d : esta (ss ++ n ∷ []) x ≡ true = (rw e at c) in
          a ∙ rw (d, e) (o_true (text_eq x s.comparador))
      | inr e ↦
          let d : esta (ss ++ n ∷ []) x ≡ esta ss x = (rw e at c) in
          rw e (a ∙ (ap (λ v. text_eq x s.comparador || v) d ∙ sym b))
    ]

-- Erasing the server of one text leaves the others.
esta-erase_at :
    (ss : List Servidor) (t x : Bytes) (i : ℕ)
    → buscar_servidor ss t ≡ some i
    → text_eq x t ≡ false
    → esta (erase_at ss i) x ≡ esta ss x
unfolding buscar_servidor
esta-erase_at [] t x i h ne = cc
esta-erase_at (s ∷ ss) t x i h ne = elim (buscar_cases s ss t h) [
  | inl (e, z) ↦ rw z (
      let otro : text_eq x s.comparador ≡ false = (rw e at ne) in
      sym (esta-cons s ss x ∙ rw otro refl))
  | inr (j, e, f, z) ↦ rw z (
      esta-cons s (erase_at ss j) x
      ∙ (ap (λ v. text_eq x s.comparador || v) (esta-erase_at ss t x j f ne)
          ∙ sym (esta-cons s ss x)))
]

-- What an announcement makes of the presence of a text: `S/C` adds its own, `S/D` removes it.
unfoldable pub efecto : Bytes → Bytes → Bool → Bool
unfolding es_byte text_eq c_str
efecto mensaje x antes =
    if not (es_byte mensaje 0 b'S')
    then antes
    else if es_byte mensaje 2 b'C'
    then (if text_eq x (anunciado mensaje) then true else antes)
    else if es_byte mensaje 2 b'D'
    then (if text_eq x (anunciado mensaje) then false else antes)
    else antes

agregar_servidor-esta :
    (b b' : Balanceador) (mensaje : Bytes) (r : ℕ) (basura x : Bytes)
    → length (partir_anuncio (anunciado mensaje)).0 ≤ 32
    → agregar_servidor b mensaje r basura ≡ some b'
    → esta b'.servidores x ≡ (if text_eq x (anunciado mensaje) then true else esta b.servidores x)
unfolding agregar_servidor registrar log mostrar_estadisticas avisar_servidores copiar_ip
agregar_servidor-esta b b' mensaje r basura x cabe h =
    elim (Option-cases (buscar_servidor b.servidores (anunciado mensaje))) [
      | inr (i, e) ↦
          let igual : b ≡ b' = some_inj (let z = rw (agregar_servidor, e) at h in z) in
          rw (sym igual) (elim (Bool-cases (text_eq x (anunciado mensaje))) [
            | inl f ↦
                rw (text_eq_sound x (anunciado mensaje) f, e, text_eq_refl (anunciado mensaje)) refl
            | inr f ↦ rw f refl
          ])
      | inl e ↦
          let (m, em, _, _) = carga_inicial r in
          let partes = partir_anuncio (anunciado mensaje) in
          let copiada : copiar_ip partes.0 basura
              ≡ some (partes.0 ++ drop (length partes.0) basura) =
            rw (copiar_ip, le→ltb 32 (length partes.0) cabe) refl in
          let igual = some_inj (let z = rw (agregar_servidor, e, em, copiada) at h in z) in
          subst
            (λ z.
              esta z.servidores x
              ≡ (if text_eq x (anunciado mensaje) then true else esta b.servidores x))
            igual (esta-append b.servidores _ x)
    ]

eliminar_servidor-esta :
    (b : Balanceador) (mensaje x : Bytes)
    → IsRegistro b
    → esta (eliminar_servidor b mensaje).servidores x
      ≡ (if text_eq x (anunciado mensaje) then false else esta b.servidores x)
unfolding eliminar_servidor log mostrar_estadisticas
eliminar_servidor-esta b mensaje x v = elim (Bool-cases (text_eq x (anunciado mensaje))) [
  | inl f ↦
      let falta = (eliminar_servidor_lem b mensaje v).1 in
      rw (text_eq_sound x (anunciado mensaje) f, text_eq_refl (anunciado mensaje), falta) refl
  | inr f ↦ rw f (elim (Option-cases (buscar_servidor b.servidores (anunciado mensaje))) [
    | inl e ↦ rw (eliminar_servidor, e) refl
    | inr (i, e) ↦
        rw (eliminar_servidor, e) (esta-erase_at b.servidores (anunciado mensaje) x i e f)
  ])
]

-- A datagram changes the presence of a text as its effect says.
recibir_anuncio-esta :
    (b b' : Balanceador) (mensaje : Bytes) (r : ℕ) (basura x : Bytes)
    → IsRegistro b
    → length mensaje < 64
    → sin_fijar mensaje ≡ false
    → length (partir_anuncio (anunciado mensaje)).0 ≤ 32
    → recibir_anuncio b (some mensaje) r basura ≡ some b'
    → esta b'.servidores x ≡ efecto mensaje x (esta b.servidores x)
unfolding recibir_anuncio efecto
recibir_anuncio-esta b b' mensaje r basura x v corto fijo cabe h =
    let corta : leb 64 (length mensaje) ≡ false = ground arith in
    elim (Bool-cases (es_byte mensaje 0 b'S')) [
      | inr e ↦
          let igual : b ≡ b' = some_inj (let z = rw (recibir_anuncio, corta, e) at h in z) in
          rw (sym igual, e) refl
      | inl e ↦ elim (Bool-cases (es_byte mensaje 2 b'C')) [
        | inl c ↦
            let (b₂, i, agregado, v₂, puesto, _) = agregar_servidor_lem b mensaje r basura v cabe in
            let d = sin_baja mensaje c in
            let igual : b₂ ≡ b' =
              some_inj (let z = rw (recibir_anuncio, corta, e, fijo, c, agregado, d) at h in z) in
            rw (sym igual, e, c) (agregar_servidor-esta b b₂ mensaje r basura x cabe agregado)
        | inr c ↦ elim (Bool-cases (es_byte mensaje 2 b'D')) [
          | inl d ↦
              let igual : eliminar_servidor b mensaje ≡ b' =
                some_inj (let z = rw (recibir_anuncio, corta, e, fijo, c, d) at h in z) in
              rw (sym igual, e, c, d) (eliminar_servidor-esta b mensaje x v)
          | inr d ↦
              let igual : b ≡ b' =
                some_inj (let z = rw (recibir_anuncio, corta, e, fijo, c, d) at h in z) in
              rw (sym igual, e, c, d) refl
        ]
      ]
    ]

-- The rounds of `hilo_Escuchador_Servidores`: each datagram with the random number and the bytes of
-- memory of its round.
unfoldable pub recibir_todos : List (Bytes × ℕ × Bytes) → Balanceador → Option Balanceador
unfolding recibir_anuncio
recibir_todos [] b = some b
recibir_todos ((mensaje, r, basura) ∷ ms) b =
    recibir_anuncio b (some mensaje) r basura >>= λ b'. recibir_todos ms b'

-- The same datagrams on the presence of one text alone.
unfoldable pub repetir : List (Bytes × ℕ × Bytes) → Bytes → Bool → Bool
unfolding efecto
repetir [] x antes = antes
repetir ((mensaje, r, basura) ∷ ms) x antes = repetir ms x (efecto mensaje x antes)

-- Each datagram fits the buffer, no byte of it is read that was not set, and its address fits the array.
abbrev pub Caben : List (Bytes × ℕ × Bytes) → Type 0
Caben [] = Unit
Caben ((mensaje, r, basura) ∷ ms) =
    (length mensaje < 64)
    × (sin_fijar mensaje ≡ false)
    × (length (partir_anuncio (anunciado mensaje)).0 ≤ 32)
    × Caben ms

-- From a registry, any sequence of datagrams that fit is handled to its end, and leaves a registry that
-- holds a text exactly when the set of texts, to which the same announcements add and remove, does.
pub recibir_todos-repetir :
    (ms : List (Bytes × ℕ × Bytes)) (b : Balanceador) (x : Bytes)
    → IsRegistro b
    → Caben ms
    → (b' : Balanceador) × (recibir_todos ms b ≡ some b')
      × IsRegistro b'
      × (esta b'.servidores x ≡ repetir ms x (esta b.servidores x))
unfolding recibir_todos repetir
recibir_todos-repetir [] b x v c = (b, refl, v, refl)
recibir_todos-repetir ((mensaje, r, basura) ∷ ms) b x v c =
    let (b₂, e, v₂, _) = recibir_anuncio_lem b mensaje r basura v c.0 c.1 c.2 in
    let (b', f, v', g) = recibir_todos-repetir ms b₂ x v₂ c.3 in
    (
      b',
      rw (recibir_todos, e) f,
      v',
      g ∙ ap (repetir ms x) (recibir_anuncio-esta b b₂ mensaje r basura x v c.0 c.1 c.2 e),
    )
