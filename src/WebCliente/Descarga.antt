-- ===== src/WebCliente/Descarga.antt =====
-- A download of src/WebCliente.cpp: its name, and the file that is put together from the reads.
use native.Mathlib.Nat.{zero-add}
use server_load_balancer_cli.Prelude.{
  ◌^◌, ◌>>=◌, true, lt→ltb, [], List, ◌∷◌, ◌++◌, flatten, subst, sym, length-append, ap, ℕ, zero,
  suc, ◌+◌, ◌-◌, ◌≤◌, ◌<◌, ◌≡◌, refl, ◌⊎◌, inl, inr, none, some, length, drop, length-drop, arith,
  ltb, le→ltb, Bool-cases, Option-cases,
}
use server_load_balancer_cli.Prelude.Text.{Bytes, codes, find, find_from, offset}
use server_load_balancer_cli.Prelude.Find.{find-le-length}
use server_load_balancer_cli.WebCliente.{tras_barra, nombre_de_descarga, descargar_resto, descargar}
use server_load_balancer_cli.Prelude.Escrituras.{Seguidos, textos}

desde_lugar :
    (ruta : Bytes) (linea : ℕ)
    → linea ≤ length ruta
    → find_from ruta (codes "/") linea ≡ offset linea (find (drop linea ruta) (codes "/"))
unfolding find_from
desde_lugar ruta linea h = rw (le→ltb (length ruta) linea h) refl

-- With a round for each byte left, the loop ends at a place behind which no separator stands.
tras_barra_total :
    (f : ℕ) (ruta : Bytes) (linea : ℕ)
    → linea ≤ length ruta
    → length ruta - linea < f
    → (l : ℕ) × (tras_barra f ruta linea ≡ some l)
      × (l ≤ length ruta)
      × (find (drop l ruta) (codes "/") ≡ none)
unfolding tras_barra
tras_barra_total zero ruta linea h g = elim g [ ]
tras_barra_total (suc f) ruta linea h g = elim (Option-cases (find (drop linea ruta) (codes "/"))) [
  | inl e ↦ (linea, rw (tras_barra, desde_lugar ruta linea h, e) refl, h, e)
  | inr (p, e) ↦
      let dentro = find-le-length (drop linea ruta) (codes "/") p e in
      let largo = length-drop linea ruta in
      let (l, t, m, n) =
        tras_barra_total f ruta (linea + p + 1) (omega (arith, dentro, largo))
          (omega (arith, dentro, largo)) in
      (l, rw (tras_barra, desde_lugar ruta linea h, e) t, m, n)
]

-- Every path gives a name: what stands behind its last separator, or "index.html" where that has
-- fewer than two bytes.
nombre_de_descarga_total :
    (ruta : Bytes)
    → (l : ℕ) × (nombre : Bytes) × (nombre_de_descarga ruta ≡ some nombre)
      × (l ≤ length ruta)
      × (find (drop l ruta) (codes "/") ≡ none)
      × ((nombre ≡ drop l ruta) ⊎ ((nombre ≡ codes "index.html") × (length (drop l ruta) < 2)))
unfolding nombre_de_descarga
nombre_de_descarga_total ruta =
    let (l, t, m, n) = tras_barra_total (length ruta + 1) ruta 0 (omega arith) (omega arith) in
    elim (Bool-cases (ltb (length (drop l ruta)) 2)) [
      | inl e ↦ (
        l,
        codes "index.html",
        rw (nombre_de_descarga, t, e) refl,
        m,
        n,
        inr (refl, ground arith),
      )
      | inr e ↦ (l, drop l ruta, rw (nombre_de_descarga, t, e) refl, m, n, inl refl)
    ]

-- The reads before the first that gives nothing.
abbrev pub hasta_vacia : List Bytes → List Bytes
hasta_vacia [] = []
hasta_vacia ([] ∷ mas) = []
hasta_vacia ((c ∷ datos) ∷ mas) = (c ∷ datos) ∷ hasta_vacia mas

descargar_resto_lem :
    (desde : ℕ) (lecturas : List Bytes)
    → desde + length (flatten (hasta_vacia lecturas)) < 2 ^ 31
    → (es : List (ℕ × Bytes)) × (descargar_resto desde lecturas ≡ some es)
      × (textos es ≡ hasta_vacia lecturas)
      × Seguidos desde es (desde + length (flatten (hasta_vacia lecturas)))
unfolding descargar_resto
descargar_resto_lem desde [] h = ([], refl, refl, omega arith)
descargar_resto_lem desde ([] ∷ mas) h = ([], refl, refl, omega arith)
descargar_resto_lem desde ((c ∷ datos) ∷ mas) h =
    let sigue = desde + length (c ∷ datos) in
    let largo = length-append (c ∷ datos) (flatten (hasta_vacia mas)) in
    let (es, e, t, s) = descargar_resto_lem sigue mas (omega (arith, h, largo)) in
    let cabe : ltb sigue (2 ^ 31) ≡ true = lt→ltb sigue (2 ^ 31) (omega (arith, h, largo)) in
    (
      (desde, c ∷ datos) ∷ es,
      rw (descargar_resto, cabe, e, ◌>>=◌) refl,
      ap (λ x. (c ∷ datos) ∷ x) t,
      (refl, subst (Seguidos sigue es) (omega (arith, largo)) s),
    )

-- A download that stays below 2 GiB writes what stands behind the header and then each read, in their
-- order, from place 0 on and without a gap: the file is as long as they are together.
pub descargar_lem :
    (primero : Bytes) (lecturas : List Bytes)
    → length (primero ++ flatten (hasta_vacia lecturas)) < 2 ^ 31
    → (es : List (ℕ × Bytes)) × (descargar primero lecturas ≡ some es)
      × (textos es ≡ primero ∷ hasta_vacia lecturas)
      × Seguidos 0 es (length (primero ++ flatten (hasta_vacia lecturas)))
unfolding descargar
descargar_lem primero lecturas h =
    let largo = length-append primero (flatten (hasta_vacia lecturas)) in
    let (es, e, t, s) = descargar_resto_lem (length primero) lecturas (omega (arith, h, largo)) in
    (
      (0, primero) ∷ es,
      rw (descargar, e, ◌>>=◌) refl,
      ap (λ x. primero ∷ x) t,
      (refl, subst (Seguidos (0 + length primero) es) (sym largo) (rw zero-add s)),
    )
