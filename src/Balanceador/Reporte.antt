-- ===== src/Balanceador/Reporte.antt =====
-- The report file of the balancer (src/Balanceador.cpp): what `log`, `logRed` and `manejarBitacora` leave
-- in it, on the disk of src/FileSystem.cpp.
use server_load_balancer_cli.Prelude.{
  ◌<◌, ◌^◌, Option, ◌>>=◌, ◌≡◌, refl, sym, ap, ◌∙◌, subst, some, List, [], ◌∷◌, ◌++◌, flatten,
  length, append-nil, append_assoc, length-append, Bool-cases, inl, inr, arith,
}
use server_load_balancer_cli.Prelude.Text.{Bytes}
use server_load_balancer_cli.Prelude.Escrituras.{Seguidos}
use server_load_balancer_cli.FileSystem.{FileSystem}
use server_load_balancer_cli.FileSystem.Llamadas.{Sistema, Regulares}
use server_load_balancer_cli.FileSystem.Escritura.{
  Escribibles, escribir_todos, contenido-escribir_todos, Seguidos-length,
}
use server_load_balancer_cli.Balanceador.{Balanceador, log, log_red, red, white}
use server_load_balancer_cli.Balanceador.Bitacora.{
  manejar_bitacora, manejar_bitacora_lem, sin_color, es_color,
}

-- What a thread does to the log.
pub data Uso : Type 0 where
  anota : Bytes → Uso
  anota_rojo : Bytes → Uso
  vuelca : Uso

-- The messages that the uses put into the queue.
abbrev pub mensajes_de : List Uso → List Bytes
mensajes_de [] = []
mensajes_de (anota m ∷ us) = m ∷ mensajes_de us
mensajes_de (anota_rojo m ∷ us) = red ∷ m ∷ white ∷ mensajes_de us
mensajes_de (vuelca ∷ us) = mensajes_de us

module _ (s : Sistema) where
  open s use {Disco, Fd}

  -- `manejarBitacora` with the writes to its file.
  unfoldable pub manejar_en_disco :
      FileSystem Fd → Disco × Balanceador → Option (Disco × Balanceador)
  unfolding manejar_bitacora escribir_todos
  manejar_en_disco fs (d, b) = do
    (b', v) ← manejar_bitacora b
    some (escribir_todos s d fs v.escritos, b')

  unfoldable pub usar : FileSystem Fd → Disco × Balanceador → Uso → Option (Disco × Balanceador)
  unfolding log log_red manejar_en_disco
  usar fs (d, b) (anota m) = some (d, log b m)
  usar fs (d, b) (anota_rojo m) = some (d, log_red b m)
  usar fs (d, b) vuelca = manejar_en_disco fs (d, b)

  unfoldable pub usar_todos :
      FileSystem Fd → Disco × Balanceador → List Uso → Option (Disco × Balanceador)
  unfolding usar
  usar_todos fs e [] = some e
  usar_todos fs e (u ∷ us) = usar fs e u >>= λ e'. usar_todos fs e' us

sin_color-append : (ms ns : List Bytes) → sin_color (ms ++ ns) ≡ sin_color ms ++ sin_color ns
sin_color-append [] ns = refl
sin_color-append (m ∷ ms) ns = elim (Bool-cases (es_color m)) [
  | inl e ↦ rw e (sin_color-append ms ns)
  | inr e ↦ rw e (ap (◌∷◌ m) (sin_color-append ms ns))
]

flatten-append : (xs ys : List Bytes) → flatten (xs ++ ys) ≡ flatten xs ++ flatten ys
flatten-append [] ys = refl
flatten-append (x ∷ xs) ys =
    ap (λ t. x ++ t) (flatten-append xs ys) ∙ sym (append_assoc x (flatten xs) (flatten ys))

mensajes_de-cons :
    (u : Uso) (us : List Uso) → mensajes_de (u ∷ us) ≡ mensajes_de (u ∷ []) ++ mensajes_de us
mensajes_de-cons (anota m) us = refl
mensajes_de-cons (anota_rojo m) us = refl
mensajes_de-cons vuelca us = refl

module _ (s : Sistema) (r : Regulares s) (w : Escribibles s r) (fs : FileSystem s.Fd) (fd : s.Fd)
    (abierto : fs.fichero ≡ some fd) where
  -- The file, and behind it the texts of the queue.
  abbrev pub anotado : s.Disco × Balanceador → Bytes
  anotado (d, b) = r.contenido d fd ++ flatten (sin_color b.log_mensajes)

  abbrev pub IsAlFinal : s.Disco × Balanceador → Type 0
  IsAlFinal (d, b) = b.file_position ≡ length (r.contenido d fd)

  manejar_en_disco_lem :
      (e : s.Disco × Balanceador)
      → IsAlFinal e
      → length (anotado e) < 2 ^ 31
      → (e' : s.Disco × Balanceador) × (manejar_en_disco s fs e ≡ some e')
        × (r.contenido e'.0 fd ≡ anotado e)
        × IsAlFinal e'
        × (e'.1.log_mensajes ≡ [])
  unfolding manejar_en_disco
  manejar_en_disco_lem (d, b) al_final cabe =
      let largo = length-append (r.contenido d fd) (flatten (sin_color b.log_mensajes)) in
      let (b', v, hecho, vacia, sitio, (t, sg, _)) =
        manejar_bitacora_lem b (omega (arith, al_final, cabe, largo)) in
      let c =
        contenido-escribir_todos s r w d fs fd v.escritos v.file_position abierto
          (subst (λ n. Seguidos n v.escritos v.file_position) al_final sg)
        ∙ ap (λ x. r.contenido d fd ++ flatten x) t in
      (
        (escribir_todos s d fs v.escritos, b'),
        rw (manejar_en_disco, hecho, ◌>>=◌) refl,
        c,
        omega (
          arith,
          sitio,
          al_final,
          Seguidos-length b.file_position v.file_position v.escritos sg,
          ap (λ x. length (flatten x)) t,
          ap length c,
          largo,
        ),
        vacia,
      )

  anotado-mas :
      (d : s.Disco) (b : Balanceador) (ms : List Bytes)
      → anotado (d, record b { log_mensajes = b.log_mensajes ++ ms })
        ≡ anotado (d, b) ++ flatten (sin_color ms)
  anotado-mas d b ms =
      ap (λ x. r.contenido d fd ++ x)
        (ap flatten (sin_color-append b.log_mensajes ms)
          ∙ flatten-append (sin_color b.log_mensajes) (sin_color ms))
      ∙ sym (append_assoc (r.contenido d fd) (flatten (sin_color b.log_mensajes)) _)

  usar_lem :
      (e : s.Disco × Balanceador) (u : Uso)
      → IsAlFinal e
      → length (anotado e) < 2 ^ 31
      → (e' : s.Disco × Balanceador) × (usar s fs e u ≡ some e')
        × (anotado e' ≡ anotado e ++ flatten (sin_color (mensajes_de (u ∷ []))))
        × IsAlFinal e'
  unfolding usar log log_red
  usar_lem (d, b) (anota m) h cabe =
      ((d, record b { log_mensajes = b.log_mensajes ++ m ∷ [] }), refl, anotado-mas d b (m ∷ []), h)
  usar_lem (d, b) (anota_rojo m) h cabe = (
    (d, log_red b m),
    refl,
    ap (λ x. anotado (d, record b { log_mensajes = x }))
          (ap (λ x. x ++ white ∷ []) (append_assoc b.log_mensajes (red ∷ []) (m ∷ []))
            ∙ append_assoc b.log_mensajes (red ∷ m ∷ []) (white ∷ []))
        ∙ anotado-mas d b (red ∷ m ∷ white ∷ []),
    h,
  )
  usar_lem (d, b) vuelca h cabe =
      let (e', hecho, c, k, v) = manejar_en_disco_lem (d, b) h cabe in
      (
        e',
        hecho,
        ap (λ x. r.contenido e'.0 fd ++ flatten (sin_color x)) v
            ∙ append-nil _
            ∙ c
            ∙ sym (append-nil _),
        k,
      )

  -- What a use and then others write.
  junto :
      (x y : Bytes) (u : Uso) (us : List Uso)
      → y ≡ x ++ flatten (sin_color (mensajes_de (u ∷ [])))
      → y ++ flatten (sin_color (mensajes_de us)) ≡ x ++ flatten (sin_color (mensajes_de (u ∷ us)))
  junto x y u us c =
      ap (λ z. z ++ flatten (sin_color (mensajes_de us))) c
      ∙ append_assoc x _ _
      ∙ ap (λ z. x ++ z)
          (sym (
            ap (λ z. flatten (sin_color z)) (mensajes_de-cons u us)
            ∙ ap flatten (sin_color-append (mensajes_de (u ∷ [])) (mensajes_de us))
            ∙ flatten-append (sin_color (mensajes_de (u ∷ []))) (sin_color (mensajes_de us))))

  usar_todos_lem :
      (e : s.Disco × Balanceador) (us : List Uso)
      → IsAlFinal e
      → length (anotado e ++ flatten (sin_color (mensajes_de us))) < 2 ^ 31
      → (e' : s.Disco × Balanceador) × (usar_todos s fs e us ≡ some e')
        × (anotado e' ≡ anotado e ++ flatten (sin_color (mensajes_de us)))
        × IsAlFinal e'
  unfolding usar_todos
  usar_todos_lem e [] h cabe = (e, refl, sym (append-nil _), h)
  usar_todos_lem e (u ∷ us) h cabe =
      let (e₁, hecho, c, k) = usar_lem e u h (
        omega
          (arith, cabe, length-append (anotado e) (flatten (sin_color (mensajes_de (u ∷ us)))))) in
      let mas = junto (anotado e) (anotado e₁) u us c in
      let (e', f, c', k') =
        usar_todos_lem e₁ us k (subst (λ x. length x < 2 ^ 31) (sym mas) cabe) in
      (e', rw (usar_todos, hecho, ◌>>=◌) f, c' ∙ mas, k')

  -- Whatever is logged and written out in between, as long as the file stays below 2 GiB, a call of
  -- `manejarBitacora` behind it leaves in the file what stood there, what waited, and all that was logged,
  -- once and in its order, less the colour codes. Nothing waits then, and the place of the next write is
  -- the end of the file.
  pub reporte_lem :
      (e : s.Disco × Balanceador) (us : List Uso)
      → IsAlFinal e
      → length (anotado e ++ flatten (sin_color (mensajes_de us))) < 2 ^ 31
      → (e₁ : s.Disco × Balanceador) × (e' : s.Disco × Balanceador) × (usar_todos s fs e us
          ≡ some e₁)
        × (manejar_en_disco s fs e₁ ≡ some e')
        × (r.contenido e'.0 fd ≡ anotado e ++ flatten (sin_color (mensajes_de us)))
        × (e'.1.log_mensajes ≡ [])
        × IsAlFinal e'
  reporte_lem e us h cabe =
      let (e₁, hecho, c, k) = usar_todos_lem e us h cabe in
      let (e', f, c', k', v) =
        manejar_en_disco_lem e₁ k (subst (λ x. length x < 2 ^ 31) (sym c) cabe) in
      (e₁, e', hecho, f, c' ∙ c, v, k')
