-- ===== src/Utilidades/Rutas.antt =====
-- `obtenerNuevasRutas` of src/Utilidades.cpp, which collects the paths that a page names. Nothing calls it.
use server_load_balancer_cli.Prelude.{
  ℕ, zero, suc, ◌+◌, ◌-◌, ◌%◌, ◌^◌, ◌≤◌, ◌<◌, ◌≡◌, refl, sym, ◌⊎◌, Option, none, some, List, [],
  ◌∷◌, ◌++◌, ltb, length, take, drop, length-drop, if◌then◌else◌, inl, inr, Bool-cases,
  Option-cases, ltb→lt, arith,
}
use server_load_balancer_cli.Prelude.Text.{Bytes, codes, find, find_from}
use server_load_balancer_cli.Prelude.Find.{find-le-length}
use server_load_balancer_cli.Utilidades.{npos}

-- The byte string of the closing quotation mark in UTF-8.
abbrev pub comillas : Bytes
comillas = 226 ∷ 128 ∷ 157 ∷ []

-- Where the first `src` stands, or else the first `href` behind the first `link`.
unfoldable pub buscar_ruta : Bytes → Option ℕ
buscar_ruta cuerpo = elim (find cuerpo (codes "src")) [
  | some p ↦ some p
  | none ↦ elim (find cuerpo (codes "link")) [
    | none ↦ none
    | some p ↦ find_from cuerpo (codes "href") p
  ]
]

-- The nearer of the two quotation marks, as `pun` and `sum`.
unfoldable pub comilla : Bytes → ℕ × ℕ
comilla cuerpo =
    let pun = npos (find cuerpo comillas) in
    let simp = npos (find cuerpo (codes "'")) in if ltb simp pun then (simp, 1) else (pun, 3)

-- `substr(p)`; `none` is `std::out_of_range`.
unfoldable pub substr : Bytes → ℕ → Option Bytes
substr s p = if ltb (length s) p then none else some (drop p s)

-- The object of a link, with the path of the page before it unless that stands in it.
unfoldable pub con_ruta : Bytes → Bytes → Bytes
con_ruta ruta objeto = elim (find objeto ruta) [ none ↦ ruta ++ objeto | some p ↦ objeto ]

-- The paths so far, and the rest of the page: at the end, or where `substr` throws.
pub data Rutas : Type 0 where
  halladas : List Bytes → Bytes → Rutas
  fuera_de_rango : List Bytes → Bytes → Rutas

-- The part of a round from `cuerpo->substr(pun + sum)` on: the object and the rest of the page.
pub data Ronda : Type 0 where
  lanza_antes : Bytes → Ronda
  lanza_tras : Bytes → Bytes → Ronda
  sigue : Bytes → Bytes → Ronda

unfoldable pub ronda : Bytes → Bytes → Ronda
unfolding comilla substr con_ruta
ronda ruta cuerpo =
    let (pun, sum) = comilla cuerpo in
    elim (substr cuerpo ((pun + sum) % 2 ^ 64)) [
      | none ↦ lanza_antes cuerpo
      | some c ↦
          let (fin, suma) = comilla c in
          elim (substr c fin) [
            | none ↦ lanza_tras (con_ruta ruta (take fin c)) c
            | some d ↦ sigue (con_ruta ruta (take fin c)) d
          ]
    ]

unfoldable pub obtener_nuevas_rutas : ℕ → List Bytes → Bytes → Bytes → Option Rutas
unfolding buscar_ruta ronda
obtener_nuevas_rutas zero rutas ruta cuerpo = none
obtener_nuevas_rutas (suc f) rutas ruta cuerpo = elim (buscar_ruta cuerpo) [
  | none ↦ some (halladas rutas cuerpo)
  | some pun ↦ elim (ronda ruta (drop pun cuerpo)) [
    | lanza_antes c ↦ some (fuera_de_rango rutas c)
    | lanza_tras objeto c ↦ some (fuera_de_rango (rutas ++ objeto ∷ []) c)
    | sigue objeto c ↦ obtener_nuevas_rutas f (rutas ++ objeto ∷ []) ruta c
  ]
]

-- A round that goes on leaves less than `n` bytes.
abbrev pub Acorta : ℕ → Ronda → Type 0
Acorta n (lanza_antes c) = Unit {0}
Acorta n (lanza_tras objeto c) = Unit {0}
Acorta n (sigue objeto c) = length c < n

npos-find : (s d : Bytes) → (npos (find s d) ≤ length s) ⊎ (npos (find s d) ≡ 2 ^ 64 - 1)
npos-find s d = elim (Option-cases (find s d)) [
  | inl e ↦ inr (rw (e) refl)
  | inr (p, e) ↦ inl (rw (e) (omega (arith, find-le-length s d p e)))
]

-- A place in a text, or `npos` with the three bytes of its mark, moves on.
suma-avanza :
    (n a : ℕ)
    → n < 2 ^ 63
    → (a ≤ n) ⊎ (a ≡ 2 ^ 64 - 1)
    → (1 ≤ (a + 3) % 2 ^ 64) × (a < 2 ^ 64 - 1 → 1 ≤ (a + 1) % 2 ^ 64)
suma-avanza n a h (inl e) = (omega arith, λ l. omega arith)
suma-avanza n a h (inr e) = (omega arith, λ l. omega arith)

npos-le : (s d : Bytes) → length s < 2 ^ 63 → npos (find s d) ≤ 2 ^ 64 - 1
npos-le s d h = elim (npos-find s d) [ inl e ↦ omega arith | inr e ↦ omega arith ]

comilla-avanza : (c : Bytes) → length c < 2 ^ 63 → 1 ≤ ((comilla c).0 + (comilla c).1) % 2 ^ 64
unfolding comilla
comilla-avanza c h = elim (Bool-cases (ltb (npos (find c (codes "'"))) (npos (find c comillas)))) [
  | inl e ↦
      rw (comilla, e)
        ((suma-avanza (length c) _ h (npos-find c (codes "'"))).1
          (omega (arith, ltb→lt _ _ e, npos-le c comillas h)))
  | inr e ↦ rw (comilla, e) (suma-avanza (length c) _ h (npos-find c comillas)).0
]

substr-acorta :
    (c d : Bytes) (p : ℕ) → substr c p ≡ some d → (length d ≡ length c - p) × (p ≤ length c)
unfolding substr
substr-acorta c d p h = elim (Bool-cases (ltb (length c) p)) [
  | inl e ↦ absurd (let k = rw (e) at h in cc)
  | inr e ↦
      let k : drop p c ≡ d = let k = rw (e) at h in cc in
      (rw (sym k) (length-drop p c), ground arith)
]

ronda-Acorta : (ruta c : Bytes) → length c < 2 ^ 63 → Acorta (length c) (ronda ruta c)
unfolding ronda
ronda-Acorta ruta c h = elim (Option-cases (substr c (((comilla c).0 + (comilla c).1) % 2 ^ 64))) [
  | inl e ↦ rw (ronda, e) tt
  | inr (d, e) ↦ elim (Option-cases (substr d (comilla d).0)) [
    | inl z ↦ rw (ronda, e, z) tt
    | inr (x, z) ↦
        let (l, k) = substr-acorta c d _ e in
        let (m, n) = substr-acorta d x _ z in rw (ronda, e, z) (omega (arith, comilla-avanza c h))
  ]
]

-- The three ways in which a round ends.
Ronda-cases :
    (r : Ronda)
    → ((c : Bytes) × (r ≡ lanza_antes c))
      ⊎ (((o : Bytes) × (c : Bytes) × (r ≡ lanza_tras o c))
          ⊎ ((o : Bytes) × (c : Bytes) × (r ≡ sigue o c)))
Ronda-cases (lanza_antes c) = inl (c, refl)
Ronda-cases (lanza_tras o c) = inr (inl (o, c, refl))
Ronda-cases (sigue o c) = inr (inr (o, c, refl))

-- Every round that goes on leaves a shorter page, so the loop ends, or throws, within a round per byte.
pub obtener_nuevas_rutas_total :
    (f : ℕ) (rutas : List Bytes) (ruta cuerpo : Bytes)
    → length cuerpo < 2 ^ 63
    → length cuerpo < f
    → (x : Rutas) × (obtener_nuevas_rutas f rutas ruta cuerpo ≡ some x)
unfolding obtener_nuevas_rutas
obtener_nuevas_rutas_total zero rutas ruta cuerpo h l = absurd (omega arith)
obtener_nuevas_rutas_total (suc f) rutas ruta cuerpo h l =
    elim (Option-cases (buscar_ruta cuerpo)) [
      | inl e ↦ (halladas rutas cuerpo, rw (e, obtener_nuevas_rutas) refl)
      | inr (pun, e) ↦ elim (Ronda-cases (ronda ruta (drop pun cuerpo))) [
        | inl (c, z) ↦ (fuera_de_rango rutas c, rw (e, z, obtener_nuevas_rutas) refl)
        | inr (inl (o, c, z)) ↦
            (fuera_de_rango (rutas ++ o ∷ []) c, rw (e, z, obtener_nuevas_rutas) refl)
        | inr (inr (o, c, z)) ↦
            let corta : length (drop pun cuerpo) < 2 ^ 63 = omega (arith, length-drop pun cuerpo) in
            let a = rw (z) at (ronda-Acorta ruta (drop pun cuerpo) corta) in
            let (x, k) =
              obtener_nuevas_rutas_total f (rutas ++ o ∷ []) ruta c
                (omega (arith, length-drop pun cuerpo)) (omega (arith, length-drop pun cuerpo)) in
            (x, rw (e, z, obtener_nuevas_rutas) k)
      ]
    ]
