-- ===== src/FileSystem/Lectura.antt =====
-- `leerArchivo` (src/FileSystem.cpp), called from the front of a regular file in pieces of `len` bytes.
use server_load_balancer_cli.Prelude.{
  ℕ, ◌+◌, ◌-◌, ◌^◌, ◌≤◌, ◌<◌, ◌≡◌, refl, ◌⊎◌, inl, inr, ◌∙◌, ap, false, some, length, length-drop,
  length-take, take, drop, min, arith, ltb, leb, Bool-cases,
}
use server_load_balancer_cli.Prelude.Int.{
  int32_ℤ_small, neg_part, ℤ, pos, negsuc, ◌-ℤ◌, ◌≤ℤ◌, ltb_ℤ, int32_ℤ, int32_small, size_t,
}
use server_load_balancer_cli.Prelude.Text.{Bytes}
use server_load_balancer_cli.FileSystem.Llamadas.{Sistema, Regulares}
use server_load_balancer_cli.FileSystem.{
  FileSystem, bytes_por_leer, leer_fichero, leidos_de, datos_de, leer_archivo,
}

-- The state between two calls: `p` bytes of the `n` of the file are read.
abbrev pub Faltan : ℕ → ℕ → ℤ → Type 0
Faltan n p faltantes =
    (faltantes ≡ pos (n - p)) ⊎ ((p ≡ n) × (faltantes ≤ℤ pos 0) × (neg_part faltantes ≤ 2 ^ 30))

resta : (a b : ℕ) → b ≤ a → pos a -ℤ pos b ≡ pos (a - b)
unfolding ◌-ℤ◌
resta a b h = ground arith

resta_positiva : (a len : ℕ) → ltb_ℤ (pos 0) (pos a -ℤ pos len) ≡ ltb len a
unfolding ◌-ℤ◌
resta_positiva a len = ground arith

resta_menor : (a b : ℕ) → a ≤ b → pos a -ℤ pos b ≤ℤ pos 0
unfolding ◌-ℤ◌
resta_menor a b h = ground arith

resta_negativa :
    (f : ℤ) (len : ℕ)
    → f ≤ℤ pos 0
    → (f -ℤ pos len ≤ℤ pos 0) × (ltb_ℤ (pos 0) (f -ℤ pos len) ≡ false)
unfolding ◌-ℤ◌
resta_negativa (pos n) len h = (ground arith, ground arith)
resta_negativa (negsuc n) len h = (ground arith, ground arith)

size_t-pos : (n : ℕ) → size_t (pos n) ≡ n
unfolding size_t
size_t-pos n = refl

resto_int : (n p : ℕ) → n < 2 ^ 31 → p ≤ n → size_t (int32_ℤ (pos n -ℤ pos p)) ≡ n - p
unfolding int32_ℤ size_t
resto_int n p h k = rw (resta n p k, int32_small (n - p) (omega arith))

-- It is the number of bytes that are there, up to `len`: never more than the buffer holds.
bytes_por_leer_lem :
    (n p len : ℕ) (faltantes : ℤ)
    → n < 2 ^ 31
    → p ≤ n
    → Faltan n p faltantes
    → size_t (bytes_por_leer n p len (faltantes -ℤ pos len)) ≡ min len (n - p)
unfolding bytes_por_leer
bytes_por_leer_lem n p len f h k (inl e) = elim (Bool-cases (ltb len (n - p))) [
  | inl t ↦ rw (e, resta_positiva (n - p) len, t, size_t-pos) (ground arith)
  | inr t ↦ rw (e, resta_positiva (n - p) len, t, resto_int n p h k) (ground arith)
]
bytes_por_leer_lem n p len f h k (inr (e, b, _)) =
    rw ((resta_negativa f len b).1, resto_int n p h k) (omega arith)

-- The count stays within an `int`.
Faltan-int32_ℤ :
    (n p len : ℕ) (faltantes : ℤ)
    → n < 2 ^ 31
    → len ≤ 2 ^ 30
    → Faltan n p faltantes
    → int32_ℤ (faltantes -ℤ pos len) ≡ faltantes -ℤ pos len
unfolding ◌-ℤ◌
Faltan-int32_ℤ n p len f h k (inl e) =
    rw e (int32_ℤ_small (pos (n - p) -ℤ pos len) (ground arith) (ground arith))
Faltan-int32_ℤ n p len (pos f) h k (inr (e, b, c)) =
    int32_ℤ_small (pos f -ℤ pos len) (ground arith) (ground arith)
Faltan-int32_ℤ n p len (negsuc f) h k (inr (e, b, c)) =
    int32_ℤ_small (negsuc f -ℤ pos len) (ground arith) (ground arith)

resta_cota : (a len : ℕ) → len ≤ 2 ^ 30 → neg_part (pos a -ℤ pos len) ≤ 2 ^ 30
unfolding ◌-ℤ◌
resta_cota a len h = ground arith

Faltan-next :
    (n p len : ℕ) (faltantes : ℤ)
    → p ≤ n
    → len ≤ 2 ^ 30
    → 0 < min len (n - p)
    → Faltan n p faltantes
    → Faltan n (p + min len (n - p)) (faltantes -ℤ pos len)
Faltan-next n p len f h k algo (inl e) = elim (Bool-cases (leb len (n - p))) [
  | inl t ↦
      let q : n - p - len ≡ n - (p + min len (n - p)) = ground arith in
      inl (rw e (resta (n - p) len (ground arith) ∙ ap pos q))
  | inr t ↦
      inr (
        ground arith,
        rw e (resta_menor (n - p) len (ground arith)),
        rw e (resta_cota (n - p) len k),
      )
]
Faltan-next n p len f h k algo (inr (e, b, _)) = absurd (ground arith)

-- What holds of an object between the calls: the file is open, and `p` of its bytes are read.
pub record Leyendo (s : Sistema) (r : Regulares s) (d : s.Disco) (fd : s.Fd) (fs : FileSystem s.Fd)
    (p : ℕ) : Type 0 where
  pub abierto : fs.fichero ≡ some fd
  pub tamano : fs.tamano_archivo ≡ length (r.contenido d fd)
  pub dentro : p ≤ length (r.contenido d fd)
  pub faltan : Faltan (length (r.contenido d fd)) p fs.bytes_faltantes

module _ (s : Sistema) (r : Regulares s) (d : s.Disco) (fd : s.Fd) where
  -- The bytes of the piece that stands at `p`.
  abbrev pub pieza : ℕ → ℕ → Bytes
  pieza p len = take (min len (length (r.contenido d fd) - p)) (drop p (r.contenido d fd))

  pub largo_pieza : (p len : ℕ) → length (pieza p len) ≡ min len (length (r.contenido d fd) - p)
  largo_pieza p len = omega (
    arith,
    length-take (min len (length (r.contenido d fd) - p)) (drop p (r.contenido d fd)),
    length-drop p (r.contenido d fd),
  )

  le-pieza : (p len : ℕ) → length (pieza p len) ≤ length (r.contenido d fd)
  le-pieza p len = omega (arith, largo_pieza p len)

  leido :
      (fs : FileSystem s.Fd) (p len : ℕ)
      → length (r.contenido d fd) < 2 ^ 31
      → len ≤ 2 ^ 30
      → Leyendo s r d fd fs p
      → leer_fichero s d fs.fichero p
          (bytes_por_leer fs.tamano_archivo p len (int32_ℤ (fs.bytes_faltantes -ℤ pos len)))
        ≡ some (pieza p len)
  unfolding leer_fichero
  leido fs p len h k l = rw (
    l.abierto,
    l.tamano,
    Faltan-int32_ℤ (length (r.contenido d fd)) p len fs.bytes_faltantes h k l.faltan,
    r.pread_lem,
    bytes_por_leer_lem (length (r.contenido d fd)) p len fs.bytes_faltantes h l.dentro l.faltan,
  )

  -- A call of `leerArchivo` with a `len` up to 2^30, on the open and regular file of an object that is
  -- at `p`, and is below 2 GiB: it gives the next piece and its length, and where the piece is not empty
  -- leaves the object at its end, with a count that did not overflow.
  pub leer_archivo_lem :
      (fs : FileSystem s.Fd) (p len : ℕ)
      → length (r.contenido d fd) < 2 ^ 31
      → len ≤ 2 ^ 30
      → Leyendo s r d fd fs p
      → ((leer_archivo s d fs p len).datos ≡ pieza p len)
        × ((leer_archivo s d fs p len).leidos ≡ pos (length (pieza p len)))
        × ((leer_archivo s d fs p len).fs.bytes_faltantes ≡ fs.bytes_faltantes -ℤ pos len)
        × (0 < length (pieza p len)
            → Leyendo s r d fd (leer_archivo s d fs p len).fs (p + length (pieza p len)))
  unfolding leer_archivo leidos_de datos_de
  leer_archivo_lem fs p len h k l =
      let n = length (r.contenido d fd) in
      let cuenta = Faltan-int32_ℤ n p len fs.bytes_faltantes h k l.faltan in
      rw (leido fs p len h k l) (
        refl,
        int32_small _ (omega (arith, le-pieza p len)),
        cuenta,
        λ algo. record {
          abierto = l.abierto;
          tamano = l.tamano;
          dentro = omega (arith, largo_pieza p len, l.dentro);
          faltan =
              rw (largo_pieza p len, cuenta)
                (Faltan-next n p len fs.bytes_faltantes l.dentro k
                  (omega (arith, algo, largo_pieza p len)) l.faltan);
        },
      )
