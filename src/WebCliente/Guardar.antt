-- ===== src/WebCliente/Guardar.antt =====
-- What a download of src/WebCliente.cpp leaves in its file.
use server_load_balancer_cli.Prelude.{
  ◌^◌, ℕ, ◌+◌, ◌-◌, ◌≤◌, ◌<◌, ◌≡◌, refl, sym, ap, ◌∙◌, subst, false, some, List, [], ◌∷◌, ◌++◌,
  flatten, length, take, drop, take-append-drop, take-append, take-append_le, drop-append,
  drop-append_le, take_all, drop_all, length-append, length-take, length-drop, append-nil,
  append_assoc, leb, le→ltb, Bool-cases, inl, inr, arith, ◌>>=◌,
}
use server_load_balancer_cli.Prelude.Text.{Bytes, c_str, find, Lacks, All-append, Lacks-of}
use server_load_balancer_cli.Prelude.Find.{find-append_some}
use server_load_balancer_cli.Prelude.Escrituras.{textos, Seguidos}
use server_load_balancer_cli.Utilidades.{crlf, buffer_size, split_buffer}
use server_load_balancer_cli.FileSystem.{FileSystem}
use server_load_balancer_cli.FileSystem.Llamadas.{Sistema, Regulares}
use server_load_balancer_cli.FileSystem.Escritura.{
  Escribibles, escribir_todos, contenido-escribir_todos,
}
use server_load_balancer_cli.Balanceador.Reenvio.{c_str-append}
use server_load_balancer_cli.WebCliente.{Opciones, nombre_de_descarga}
use server_load_balancer_cli.WebCliente.Descarga.{hasta_vacia, descargar_lem}
use server_load_balancer_cli.WebCliente.Bajada.{
  llenar, descarga, rumbo_de, preparar_descarga, bajar,
}

-- The buffer after the first read, and the rest of the answer, are the answer, with the old bytes of the
-- buffer behind it where it is shorter.
llenar-todo :
    (buffer respuesta : Bytes) (n : ℕ)
    → length buffer ≡ n
    → llenar buffer (take n respuesta) ++ drop n respuesta
      ≡ respuesta ++ drop (length respuesta) buffer
llenar-todo buffer respuesta n e = elim (Bool-cases (leb (length respuesta) n)) [
  | inl k ↦
      rw (take_all n respuesta (ground arith), drop_all n respuesta (ground arith)) (append-nil _)
  | inr k ↦
      rw
        (
          drop_all (length (take n respuesta)) buffer
              (omega (arith, length-take n respuesta, ground_le k)),
          drop_all (length respuesta) buffer (ground arith),
          append-nil (take n respuesta),
          append-nil respuesta,
        )
        (take-append-drop n respuesta)
]
  where
    ground_le : leb (length respuesta) n ≡ false → n < length respuesta
    ground_le k = ground arith

length-llenar :
    (buffer datos : Bytes) (n : ℕ)
    → length buffer ≡ n
    → length datos ≤ n
    → length (llenar buffer datos) ≡ n
length-llenar buffer datos n e h =
    omega
      (arith, length-append datos (drop (length datos) buffer), length-drop (length datos) buffer)

-- A text that begins with another, whatever stands behind, and is no shorter, is that one and the rest.
prefijo :
    (l x h y : Bytes)
    → l ++ x ≡ h ++ y
    → length h ≤ length l
    → (l ≡ h ++ drop (length h) l) × (drop (length h) l ++ x ≡ y)
prefijo l x h y e k = (
  sym (take-append-drop (length h) l)
      ∙ ap (λ t. t ++ drop (length h) l)
          (sym (take-append_le (length h) l x k) ∙ ap (take (length h)) e ∙ take-append h y),
  sym (drop-append_le (length h) l x k) ∙ ap (drop (length h)) e ∙ drop-append h y,
)

-- The blank line behind the headers.
abbrev pub vacia : Bytes
vacia = crlf ++ crlf

vacia-Lacks : Lacks 0 vacia
vacia-Lacks = Lacks-of 0 vacia refl

c_str-todo : (t : Bytes) → Lacks 0 t → c_str t ≡ t
unfolding c_str
c_str-todo t h = ap c_str (sym (append-nil t)) ∙ c_str-append t [] h ∙ append-nil t

-- A full buffer that begins with the headers is cut behind the blank line.
split_buffer-cabecera :
    (l cabecera resto : Bytes) (ultimo : ℕ)
    → length l ≡ buffer_size
    → l ≡ (cabecera ++ vacia) ++ resto
    → Lacks 0 cabecera
    → find (cabecera ++ vacia) vacia ≡ some (length cabecera)
    → split_buffer l vacia ultimo
      ≡ some (record {
        parte = cabecera ++ vacia;
        line = resto ++ 0 ∷ drop (buffer_size - (length cabecera + 4) + 1) l;
        pos = length cabecera + 4;
      })
unfolding split_buffer
split_buffer-cabecera l cabecera resto ultimo lleno e sin_nul sitio =
    let h = All-append _ cabecera vacia sin_nul vacia-Lacks in
    let largo : length (cabecera ++ vacia) ≡ length cabecera + 4 = length-append cabecera vacia in
    let dentro : length cabecera + 4 ≤ buffer_size =
      omega (arith, largo, length-append (cabecera ++ vacia) resto, ap length e) in
    let c : c_str (take buffer_size l ++ ultimo ∷ [])
        ≡ (cabecera ++ vacia) ++ c_str (resto ++ ultimo ∷ []) =
      ap (λ t. c_str (t ++ ultimo ∷ [])) (take_all buffer_size l (omega arith) ∙ e)
      ∙ ap c_str (append_assoc (cabecera ++ vacia) resto (ultimo ∷ []))
      ∙ c_str-append (cabecera ++ vacia) (resto ++ ultimo ∷ []) h in
    let corte : take (length cabecera + 4) l ≡ cabecera ++ vacia =
      ap (λ n. take n l) (sym largo)
      ∙ ap (take (length (cabecera ++ vacia))) e
      ∙ take-append (cabecera ++ vacia) resto in
    let queda : drop (length cabecera + 4) l ≡ resto =
      ap (λ n. drop n l) (sym largo)
      ∙ ap (drop (length (cabecera ++ vacia))) e
      ∙ drop-append (cabecera ++ vacia) resto in
    rw
      (
        split_buffer,
        c,
        find-append_some (cabecera ++ vacia) (c_str (resto ++ ultimo ∷ [])) vacia (length cabecera)
            sitio,
        ◌>>=◌,
        le→ltb buffer_size (length cabecera + 4) dentro,
        corte,
        queda,
        c_str-todo (cabecera ++ vacia) h,
      )
      refl

module _ (s : Sistema) (r : Regulares s) (w : Escribibles s r) where
  -- A download into a file that is new and open: where the headers hold no NUL and lie in the first read,
  -- and the body is below 2 GiB, the file gets the body of the answer, with nothing lost and nothing twice. An answer that is shorter than the buffer
  -- has the old bytes of the buffer behind it, up to the buffer's end.
  pub bajar_lem :
      (o : Opciones) (ruta nombre buffer cabecera cuerpo : Bytes) (ultimo : ℕ)
      (lecturas : List Bytes) (d d₁ : s.Disco) (fs fs₁ : FileSystem s.Fd) (fd : s.Fd)
      → length buffer ≡ buffer_size
      → Lacks 0 cabecera
      → find (cabecera ++ vacia) vacia ≡ some (length cabecera)
      → length cabecera + 4 ≤ buffer_size
      → length cuerpo < 2 ^ 31
      → flatten (hasta_vacia lecturas) ≡ drop buffer_size ((cabecera ++ vacia) ++ cuerpo)
      → rumbo_de o (cabecera ++ vacia) ≡ some descarga
      → nombre_de_descarga ruta ≡ some nombre
      → preparar_descarga s d fs nombre ≡ some (d₁, fs₁)
      → fs₁.fichero ≡ some fd
      → r.contenido d₁ fd ≡ []
      → (d₂ : s.Disco) × (bajar s o ruta buffer ultimo
            (take buffer_size ((cabecera ++ vacia) ++ cuerpo))
            lecturas
            d
            fs
          ≡ some d₂)
        × (r.contenido d₂ fd ≡ cuerpo ++ drop (length ((cabecera ++ vacia) ++ cuerpo)) buffer)
  unfolding bajar
  bajar_lem o ruta nombre buffer cabecera cuerpo ultimo lecturas d d₁ fs fs₁ fd lleno sin_nul sitio
        cabe corto quedan rumbo llamado hecho abierto nuevo =
      let respuesta = (cabecera ++ vacia) ++ cuerpo in
      let l = llenar buffer (take buffer_size respuesta) in
      let viejos = drop (length respuesta) buffer in
      let largo : length l ≡ buffer_size =
        length-llenar buffer (take buffer_size respuesta) buffer_size lleno
          (omega (arith, length-take buffer_size respuesta)) in
      let largo_h : length (cabecera ++ vacia) ≡ length cabecera + 4 =
        length-append cabecera vacia in
      let (e, junto) =
        prefijo l (drop buffer_size respuesta) (cabecera ++ vacia) (cuerpo ++ viejos)
          (llenar-todo buffer respuesta buffer_size lleno
            ∙ append_assoc (cabecera ++ vacia) cuerpo viejos)
          (omega arith) in
      let resto = drop (length (cabecera ++ vacia)) l in
      let cola = 0 ∷ drop (buffer_size - (length cabecera + 4) + 1) l in
      let toma : take (buffer_size - (length cabecera + 4)) (resto ++ cola) ≡ resto =
        ap (λ n. take n (resto ++ cola)) (omega (arith, length-drop (length (cabecera ++ vacia)) l))
        ∙ take-append resto cola in
      let todo : resto ++ flatten (hasta_vacia lecturas) ≡ cuerpo ++ viejos =
        ap (λ x. resto ++ x) quedan ∙ junto in
      let (es, hecha, t, sg) = descargar_lem resto lecturas (
        omega (
          arith,
          corto,
          ap length todo,
          length-append cuerpo viejos,
          length-drop (length respuesta) buffer,
          length-append (cabecera ++ vacia) cuerpo,
          lleno,
        )) in
      let hasta = length (resto ++ flatten (hasta_vacia lecturas)) in
      (
        escribir_todos s d₁ fs₁ es,
        rw
            (
              bajar,
              split_buffer-cabecera l cabecera resto ultimo largo e sin_nul sitio,
              ◌>>=◌,
              rumbo,
              ◌>>=◌,
              llamado,
              ◌>>=◌,
              hecho,
              ◌>>=◌,
              toma,
              hecha,
              ◌>>=◌,
            )
            refl,
        contenido-escribir_todos s r w d₁ fs₁ fd es hasta abierto
              (subst (λ n. Seguidos n es hasta) (sym (ap length nuevo)) sg)
            ∙ ap (λ x. x ++ flatten (textos es)) nuevo
            ∙ ap flatten t
            ∙ todo,
      )
