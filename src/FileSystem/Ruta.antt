-- ===== src/FileSystem/Ruta.antt =====
-- `setRuta` (src/FileSystem.cpp): the loop over the separators, and the two names of a path.
use native.Mathlib.Nat.{suc-add}
use server_load_balancer_cli.Prelude.{
  ℕ, zero, suc, ◌+◌, ◌<◌, ◌≡◌, ◌≢◌, refl, ◌⊎◌, inl, inr, ◌↔◌, ◌∙◌, ap, sym, true, false, none, some,
  List, [], ◌∷◌, ◌++◌, append-nil, append_assoc, length, length-drop, take, drop, get_last?, arith,
  ◌==◌, Option-cases, Bool-cases, ◌>>=◌,
}
use server_load_balancer_cli.Prelude.Text.{Bytes, find, starts_with}
use server_load_balancer_cli.Prelude.Find.{find-le-length, find_cases}
use server_load_balancer_cli.Utilidades.Split.{terminados}
use server_load_balancer_cli.FileSystem.{
  barra, normalizar, quitar_barra, segmentos, es_directorio, sin_punto, unir, set_nombre, Partes,
  partir_ruta,
}

-- The path read byte by byte: `actual` is the segment being read; one with no separator behind it
-- is not counted.
unfoldable pub cortar : Bytes → Bytes → List Bytes
cortar actual [] = []
cortar actual (c ∷ s) = elim (c == b'/') [
  | true ↦ actual ∷ cortar [] s
  | false ↦ cortar (actual ++ c ∷ []) s
]

cortar-none : (s actual : Bytes) → find s barra ≡ none → cortar actual s ≡ []
unfolding cortar find starts_with
cortar-none [] actual h = refl
cortar-none (c ∷ s) actual h = ground (arith, cortar-none s (actual ++ c ∷ []))

cortar-some :
    (s actual : Bytes) (p : ℕ)
    → find s barra ≡ some p
    → cortar actual s ≡ (actual ++ take p s) ∷ cortar [] (drop (p + 1) s)
unfolding cortar find starts_with
cortar-some [] actual p h = cc
cortar-some (c ∷ s) actual p h = elim (find_cases c s barra h) [
  | inl (e, z) ↦ let hc : c ≡ b'/' = ground arith in rw (z, append-nil, hc)
  | inr (q, e, found, z) ↦
      let hc : (c == b'/') ≡ false = ground arith in
      rw (z, suc-add, hc, cortar)
        (cortar-some s (actual ++ c ∷ []) q found
          ∙ ap (λ t. t ∷ cortar [] (drop (q + 1) s)) (append_assoc actual (c ∷ []) (take q s)))
]

-- With more rounds of fuel than the path has bytes, the loop ends, with the segments of the path.
segmentos_total :
    (f : ℕ) (s : Bytes) (out : List Bytes)
    → length s < f
    → segmentos f s out ≡ some (out ++ cortar [] s)
unfolding segmentos
segmentos_total zero s out h = elim h [ ]
segmentos_total (suc f) s out h = elim (Option-cases (find s barra)) [
  | inl e ↦ rw (e, segmentos, cortar-none s [] e, append-nil)
  | inr (p, e) ↦
      rw (e, segmentos, cortar-some s [] p e)
        (segmentos_total f (drop (p + 1) s) (out ++ take p s ∷ [])
            (omega (arith, length-drop (p + 1) s, find-le-length s barra p e))
          ∙ ap some (append_assoc out (take p s ∷ []) _))
]

-- Of a path that ends in a separator no byte is lost.
terminados-cortar :
    (s actual : Bytes) → terminados barra (cortar actual (s ++ barra)) ≡ actual ++ (s ++ barra)
unfolding cortar
terminados-cortar [] actual = refl
terminados-cortar (c ∷ s) actual = elim (Bool-cases (c == b'/')) [
  | inl e ↦
      let hc : c ≡ b'/' = ground arith in
      rw (e, cortar, terminados-cortar s []) (ap (λ (k : ℕ). actual ++ k ∷ (s ++ barra)) (sym hc))
  | inr e ↦
      rw (e, cortar)
        (terminados-cortar s (actual ++ c ∷ []) ∙ append_assoc actual (c ∷ []) (s ++ barra))
]

unir-get_last? :
    (ds : List Bytes) (x : Bytes)
    → get_last? ds ≡ some x
    → unir ds ++ (x ++ barra) ≡ terminados barra ds
unfolding unir
unir-get_last? [] x h = cc
unir-get_last? (d ∷ []) x h = ap (λ k. k ++ barra) (ground arith)
unir-get_last? (d ∷ e ∷ ds) x h =
    simp append_assoc (ap (λ k. d ++ (b'/' ∷ k)) (unir-get_last? (e ∷ ds) x h))

cortar-ne-nil : (s actual : Bytes) → cortar actual (s ++ barra) ≢ []
unfolding cortar
cortar-ne-nil [] actual = λ e. cc
cortar-ne-nil (c ∷ s) actual = ground (arith, cortar-ne-nil s (actual ++ c ∷ []))

get_last?-some {ℓ} : {A : Type ℓ} (ds : List A) → ds ≢ [] → (x : A) × (get_last? ds ≡ some x)
get_last?-some [] h = absurd (h refl)
get_last?-some (d ∷ []) h = (d, refl)
get_last?-some (d ∷ e ∷ ds) h = get_last?-some (e ∷ ds) (λ e. cc)

-- A normalised path ends in a separator.
get_last?-split : (s : Bytes) (x : ℕ) → get_last? s ≡ some x → (t : Bytes) × (s ≡ t ++ x ∷ [])
get_last?-split [] x h = cc
get_last?-split (c ∷ []) x h = ([], ground arith)
get_last?-split (c ∷ d ∷ s) x h = let (t, e) = get_last?-split (d ∷ s) x h in (c ∷ t, ap (◌∷◌ c) e)

normalizar-barra : (ruta c : Bytes) → normalizar ruta ≡ some c → (t : Bytes) × (c ≡ t ++ barra)
unfolding normalizar
normalizar-barra ruta c h = elim (Option-cases (get_last? (quitar_barra ruta))) [
  | inl e ↦ cc
  | inr (u, e) ↦ elim (Bool-cases (u == b'/')) [
    | inl f ↦ let (t, g) = get_last?-split (quitar_barra ruta) u e in (t, ground arith)
    | inr f ↦ (quitar_barra ruta, ground arith)
  ]
]

-- The two names that `setRuta` keeps, against the corrected path `c`: with no dot in the last
-- segment the whole path names directories, else the last segment is the file.
abbrev pub Nombres : Partes → Bytes → Type 0
Nombres p c =
    ((p.ruta_directorios ≡ c) × (p.nombre_archivo ≡ []))
    ⊎ ((sin_punto p.nombre_archivo ≡ false)
        × (p.ruta_directorios ++ (p.nombre_archivo ++ barra) ≡ c))

partir_segmentos :
    (ds : List Bytes) (c x : Bytes)
    → get_last? ds ≡ some x
    → terminados barra ds ≡ c
    → (p : Partes) × ((es_directorio ds >>= λ dir. set_nombre ds c dir >>= λ n.
          some (record { segmentos_ruta = ds; ruta_directorios = n.0; nombre_archivo = n.1 }))
        ≡ some p)
      × (p.segmentos_ruta ≡ ds)
      × Nombres p c
unfolding es_directorio set_nombre
partir_segmentos ds c x h t = elim (Bool-cases (sin_punto x)) [
  | inl e ↦ (
    record { segmentos_ruta = ds; ruta_directorios = c; nombre_archivo = [] },
    rw (h, ◌>>=◌, e, ◌>>=◌),
    refl,
    inl (refl, refl),
  )
  | inr e ↦ (
    record { segmentos_ruta = ds; ruta_directorios = unir ds; nombre_archivo = x },
    rw (h, ◌>>=◌, e) (rw (h)),
    refl,
    inr (e, unir-get_last? ds x h ∙ t),
  )
]

-- For every path that is corrected to `c`, `setRuta` finds its names with the fuel given: the
-- segments are those of the path, each separator is kept, and the two names spell the path again.
pub partir_ruta_lem :
    (ruta c : Bytes)
    → normalizar ruta ≡ some c
    → (p : Partes) × (partir_ruta ruta ≡ some p)
      × (p.segmentos_ruta ≡ cortar [] c)
      × (terminados barra p.segmentos_ruta ≡ c)
      × Nombres p c
unfolding partir_ruta
partir_ruta_lem ruta c h =
    let (t, e) = normalizar-barra ruta c h in
    let entero : terminados barra (cortar [] c) ≡ c = rw e (terminados-cortar t []) in
    let (x, l) = get_last?-some (cortar [] c) (rw e (cortar-ne-nil t [])) in
    let (p, q, r, n) = partir_segmentos (cortar [] c) c x l entero in
    (p, rw (h, ◌>>=◌, segmentos_total (suc (length c)) c [] (omega arith)) q, r, rw r entero, n)

-- Only the empty path and a separator alone cannot be corrected.
pub normalizar-none_iff : (ruta : Bytes) → (normalizar ruta ≡ none) ↔ ((ruta ≡ []) ⊎ (ruta ≡ barra))
unfolding normalizar quitar_barra
normalizar-none_iff [] = (λ h. inl refl, λ h. refl)
normalizar-none_iff (c ∷ s) = (ida c s, vuelta)
  where
    ida : (c : ℕ) (s : Bytes) → normalizar (c ∷ s) ≡ none → (c ∷ s ≡ []) ⊎ (c ∷ s ≡ barra)
    ida c [] h = ground arith
    ida c (d ∷ s) h = ground (arith, get_last?-some (d ∷ s) (λ e. cc))

    vuelta : (c ∷ s ≡ []) ⊎ (c ∷ s ≡ barra) → normalizar (c ∷ s) ≡ none
    vuelta (inl e) = cc
    vuelta (inr e) = ap normalizar e
