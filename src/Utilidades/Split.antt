-- ===== src/Utilidades/Split.antt =====
-- `split` (src/Utilidades.cpp): its pieces, and the line that they were cut from.
use server_load_balancer_cli.Prelude.{
  ℕ, zero, suc, ◌+◌, ◌≤◌, ◌≡◌, ◌≢◌, refl, ◌⊎◌, inl, inr, ◌∙◌, ap, sym, none, List, [], ◌∷◌, ◌++◌,
  append-nil, append_assoc, length, length-append, take, drop, arith, Option-cases,
}
use server_load_balancer_cli.Prelude.Text.{Bytes, find}
use server_load_balancer_cli.Prelude.Find.{find_split, find_first}
use server_load_balancer_cli.Utilidades.{split, split_loop, con_resto}

-- Every piece with the delimiter behind it.
abbrev pub terminados : Bytes → List Bytes → Bytes
terminados d [] = []
terminados d (h ∷ hs) = h ++ (d ++ terminados d hs)

terminados-append :
    (d : Bytes) (hs ks : List Bytes) → terminados d (hs ++ ks) ≡ terminados d hs ++ terminados d ks
terminados-append d [] ks = refl
terminados-append d (h ∷ hs) ks = simp (terminados-append d hs ks, append_assoc)

-- The loop keeps the text: the pieces, each with its delimiter, and then the rest.
split_loop_text :
    (n : ℕ) (line d : Bytes) (out : List Bytes)
    → terminados d (split_loop n line d out).hileras ++ (split_loop n line d out).resto
      ≡ terminados d out ++ line
unfolding split_loop
split_loop_text zero line d out = refl
split_loop_text (suc n) line d out = elim (Option-cases (find line d)) [
  | inl e ↦ rw (e, split_loop)
  | inr (p, e) ↦
      rw (e, split_loop)
        (split_loop_text n _ d _
          ∙ simp (terminados-append, append_assoc, append-nil)
              (ap (◌++◌ (terminados d out)) (find_split line d p e)))
]

length-split_loop :
    (n : ℕ) (line d : Bytes) (out : List Bytes)
    → length (split_loop n line d out).hileras ≤ length out + n
unfolding split_loop
length-split_loop zero line d out = omega arith
length-split_loop (suc n) line d out = elim (Option-cases (find line d)) [
  | inl e ↦ rw (e, split_loop) (omega arith)
  | inr (p, e) ↦
      rw (e, split_loop)
        (omega (
          arith,
          length-split_loop n (drop (p + length d) line) d (out ++ take p line ∷ []),
          length-append {0} out (take p line ∷ []),
        ))
]

-- No piece that the loop cuts holds the delimiter.
abbrev pub SinDelimitador : Bytes → List Bytes → Type 0
SinDelimitador d [] = Unit
SinDelimitador d (h ∷ hs) = (find h d ≡ none) × SinDelimitador d hs

SinDelimitador-append :
    (d : Bytes) (hs ks : List Bytes)
    → SinDelimitador d hs
    → SinDelimitador d ks
    → SinDelimitador d (hs ++ ks)
SinDelimitador-append d [] ks a b = b
SinDelimitador-append d (h ∷ hs) ks a b = (a.0, SinDelimitador-append d hs ks a.1 b)

split_loop-SinDelimitador :
    (n : ℕ) (line d : Bytes) (out : List Bytes)
    → d ≢ []
    → SinDelimitador d out
    → SinDelimitador d (split_loop n line d out).hileras
unfolding split_loop
split_loop-SinDelimitador zero line d out ne h = h
split_loop-SinDelimitador (suc n) line d out ne h = elim (Option-cases (find line d)) [
  | inl e ↦ rw (e, split_loop) h
  | inr (p, e) ↦
      rw (e, split_loop)
        (split_loop-SinDelimitador n _ d _ ne
          (SinDelimitador-append d out _ h (find_first line d p ne e, tt)))
]

con_resto_text :
    (d : Bytes) (hs : List Bytes) (resto line : Bytes)
    → terminados d hs ++ resto ≡ line
    → (terminados d (con_resto hs resto) ≡ line) ⊎ (terminados d (con_resto hs resto) ≡ line ++ d)
unfolding con_resto
con_resto_text d hs [] line h = inl (rw append-nil at h)
con_resto_text d hs (x ∷ r) line h =
    inr (rw (← h) (simp (terminados-append, append_assoc, append-nil)))

length-con_resto :
    (hs : List Bytes) (resto : Bytes) (n : ℕ) → length hs ≤ n → length (con_resto hs resto) ≤ suc n
unfolding con_resto
length-con_resto hs [] n h = omega arith
length-con_resto hs (x ∷ r) n h = omega (arith, length-append {0} hs ((x ∷ r) ∷ []))

append_left_nil : (s t : Bytes) → s ++ t ≡ [] → s ≡ []
append_left_nil [] t h = refl
append_left_nil (c ∷ s) t h = cc

-- The pieces spell the line: each with the delimiter behind it, they give it back, up to one
-- delimiter at the end that the line need not have.
pub split_text :
    (line d : Bytes) (veces : ℕ)
    → (terminados d (split line d veces) ≡ line) ⊎ (terminados d (split line d veces) ≡ line ++ d)
unfolding split
split_text [] d veces = inl refl
split_text (c ∷ s) d veces =
    con_resto_text d (split_loop (veces + 1) (c ∷ s) d []).hileras _ (c ∷ s)
      (split_loop_text (veces + 1) (c ∷ s) d [])

-- There are never more than `veces + 2` pieces.
length-split : (line d : Bytes) (veces : ℕ) → length (split line d veces) ≤ veces + 2
unfolding split
length-split [] d veces = omega arith
length-split (c ∷ s) d veces =
    let corte = split_loop (veces + 1) (c ∷ s) d [] in
    omega (
      arith,
      length-split_loop (veces + 1) (c ∷ s) d [],
      length-con_resto corte.hileras corte.resto (veces + 1),
    )

-- A piece is left out only at the end: a text has a piece unless it is empty.
pub split-ne-nil : (line d : Bytes) (veces : ℕ) → line ≢ [] → split line d veces ≢ []
split-ne-nil line d veces ne e = elim (split_text line d veces) [
  | inl t ↦ ne (rw e at (sym t))
  | inr t ↦ ne (append_left_nil line d (rw e at (sym t)))
]
