-- ===== src/FileSystem/Escritura.antt =====
-- Calls of `escribirArchivo` (src/FileSystem.cpp) on an open file, one after the other.
use server_load_balancer_cli.Prelude.{
  ℕ, ◌+◌, ◌≤◌, ◌≡◌, refl, sym, ap, ◌∙◌, subst, some, List, [], ◌∷◌, ◌++◌, flatten, length, take,
  drop, take_all, drop_all, append-nil, append_assoc, length-append, arith,
}
use server_load_balancer_cli.Prelude.Int.{pos}
use server_load_balancer_cli.Prelude.Text.{Bytes}
use server_load_balancer_cli.Prelude.Escrituras.{Seguidos, textos}
use server_load_balancer_cli.FileSystem.Llamadas.{Sistema, Regulares}
use server_load_balancer_cli.FileSystem.{FileSystem, escribir_archivo}

-- A write that does not fail, at a place inside a regular file or at its end: it takes all the bytes,
-- which lie over those that stood there.
pub record Escribibles (s : Sistema) (r : Regulares s) : Type 0 where
  pub pwrite_lem :
      (d : s.Disco) (fd : s.Fd) (p : ℕ) (datos : Bytes)
      → p ≤ length (r.contenido d fd)
      → (d' : s.Disco) × (s.pwrite d fd p datos ≡ (d', pos (length datos)))
        × (r.contenido d' fd
            ≡ take p (r.contenido d fd) ++ (datos ++ drop (p + length datos) (r.contenido d fd)))

module _ (s : Sistema) where
  open s use {Disco, Fd}

  -- Each text is written whole, at its place.
  unfoldable pub escribir_todos : Disco → FileSystem Fd → List (ℕ × Bytes) → Disco
  unfolding escribir_archivo
  escribir_todos d fs [] = d
  escribir_todos d fs ((p, t) ∷ es) =
      escribir_todos (escribir_archivo s d fs t p (length t)).0 fs es

-- Writes without a gap end where their texts do.
pub Seguidos-length :
    (desde hasta : ℕ) (es : List (ℕ × Bytes))
    → Seguidos desde es hasta
    → hasta ≡ desde + length (flatten (textos es))
Seguidos-length desde hasta [] h = omega arith
Seguidos-length desde hasta ((p, t) ∷ es) (e, h) =
    omega
      (arith, Seguidos-length (desde + length t) hasta es h, length-append t (flatten (textos es)))

module _ (s : Sistema) (r : Regulares s) (w : Escribibles s r) where
  -- A text that is written at the end of the file is added to it.
  contenido-escribir :
      (d : s.Disco) (fs : FileSystem s.Fd) (fd : s.Fd) (p : ℕ) (t : Bytes)
      → fs.fichero ≡ some fd
      → p ≡ length (r.contenido d fd)
      → r.contenido (escribir_archivo s d fs t p (length t)).0 fd ≡ r.contenido d fd ++ t
  unfolding escribir_archivo
  contenido-escribir d fs fd p t abierto e =
      let c = r.contenido d fd in
      let (d', q, k) = w.pwrite_lem d fd p (take (length t) t) (omega arith) in
      rw (escribir_archivo, abierto, q)
        (k
          ∙ rw
              (
                take_all p c (omega arith),
                take_all (length t) t (omega arith),
                drop_all (p + length t) c (omega arith),
                append-nil t,
              )
              refl)

  -- Writes that begin at the end of the file, without a gap, add their texts to it in their order.
  pub contenido-escribir_todos :
      (d : s.Disco) (fs : FileSystem s.Fd) (fd : s.Fd) (es : List (ℕ × Bytes)) (hasta : ℕ)
      → fs.fichero ≡ some fd
      → Seguidos (length (r.contenido d fd)) es hasta
      → r.contenido (escribir_todos s d fs es) fd ≡ r.contenido d fd ++ flatten (textos es)
  unfolding escribir_todos
  contenido-escribir_todos d fs fd [] hasta abierto h = sym (append-nil _)
  contenido-escribir_todos d fs fd ((p, t) ∷ es) hasta abierto (e, h) =
      let d₁ = (escribir_archivo s d fs t p (length t)).0 in
      let k = contenido-escribir d fs fd p t abierto e in
      let largo : length (r.contenido d fd) + length t ≡ length (r.contenido d₁ fd) =
        omega (arith, ap length k, length-append (r.contenido d fd) t) in
      contenido-escribir_todos d₁ fs fd es hasta abierto (subst (λ n. Seguidos n es hasta) largo h)
      ∙ ap (λ x. x ++ flatten (textos es)) k
      ∙ append_assoc (r.contenido d fd) t (flatten (textos es))
