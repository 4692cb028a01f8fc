-- ===== src/Prelude/Find.antt =====
-- The laws of `find`: where it stops, and that it finds the first place.
use server_load_balancer_cli.Prelude.{
  ℕ, zero, suc, ◌+◌, ◌≤◌, ◌≡◌, refl, ap, ◌≢◌, true, false, Option, none, some, [], ◌∷◌, ◌++◌, arith,
  length, take, drop, ◌⊎◌, inl, inr, Bool-cases,
}
use native.Mathlib.Nat.{zero-add, suc-add}
use server_load_balancer_cli.Prelude.Text.{
  Bytes, starts_with, find, shift, starts_with-append, starts_with-split, Lacks,
}

shift-some : (o : Option ℕ) {p : ℕ} → shift o ≡ some p → (q : ℕ) × (o ≡ some q) × (p ≡ suc q)
shift-some none h = cc
shift-some (some q) h = (q, refl, ground arith)

-- A pattern is found at the front, or one place further on than in the tail.
pub find_cases :
    (c : ℕ) (s d : Bytes) {p : ℕ}
    → find (c ∷ s) d ≡ some p
    → ((starts_with d (c ∷ s) ≡ true) × (p ≡ 0))
      ⊎ ((q : ℕ) × (starts_with d (c ∷ s) ≡ false) × (find s d ≡ some q) × (p ≡ suc q))
unfolding find
find_cases c s d {p} h = elim (Bool-cases (starts_with d (c ∷ s))) [
  | inl e ↦ inl (e, ground arith)
  | inr e ↦
      let (q, found, eq) = shift-some (find s d) {p = p} (ground arith) in inr (q, e, found, eq)
]

-- In the empty text only the empty pattern is found.
find_nil : (d : Bytes) {p : ℕ} → find [] d ≡ some p → (d ≡ []) × (p ≡ 0)
unfolding find starts_with
find_nil [] h = (refl, ground arith)
find_nil (x ∷ d) h = cc

-- The text is what stands before the place, the pattern, and what stands behind.
pub find_split :
    (s d : Bytes) (p : ℕ) → find s d ≡ some p → take p s ++ (d ++ drop (p + length d) s) ≡ s
find_split [] d p h = let (e, f) = find_nil d h in rw (e, f)
find_split (c ∷ s) d p h = elim (find_cases c s d h) [
  | inl (e, z) ↦ rw (z, zero-add) (starts_with-split d (c ∷ s) e)
  | inr (q, e, found, z) ↦ rw (z, suc-add) (ap (◌∷◌ c) (find_split s d q found))
]

starts_with-le : (d s : Bytes) → starts_with d s ≡ true → length d ≤ length s
unfolding starts_with
starts_with-le [] s h = omega arith
starts_with-le (x ∷ d) [] h = cc
starts_with-le (x ∷ d) (c ∷ s) h = ground (arith, starts_with-le d s)

pub find-le-length : (s d : Bytes) (p : ℕ) → find s d ≡ some p → p + length d ≤ length s
find-le-length [] d p h = let (e, f) = find_nil d h in rw (e, f) (omega arith)
find-le-length (c ∷ s) d p h = elim (find_cases c s d h) [
  | inl (e, z) ↦ omega (arith, starts_with-le d (c ∷ s) e)
  | inr (q, e, found, z) ↦ omega (arith, find-le-length s d q found)
]

-- Behind bytes other than its first, a pattern is found at once.
pub find-append :
    (pre : Bytes) (d : ℕ) (ds rest : Bytes)
    → Lacks d pre
    → find (pre ++ (d ∷ ds ++ rest)) (d ∷ ds) ≡ some (length pre)
unfolding find starts_with
find-append [] d ds rest h = ground (arith, starts_with-append ds rest)
find-append (c ∷ pre) d ds rest h = ground (arith, find-append pre d ds rest)

-- A text that lacks the first byte of a pattern does not hold it.
pub find-none : (s : Bytes) (d : ℕ) (ds : Bytes) → Lacks d s → find s (d ∷ ds) ≡ none
unfolding find starts_with
find-none [] d ds h = refl
find-none (c ∷ s) d ds (hc, hs) = ground (arith, find-none s d ds hs)

-- A prefix of a text holds the pattern at its front only if the text does.
starts_with-take :
    (d s : Bytes) (p : ℕ) → starts_with d s ≡ false → starts_with d (take p s) ≡ false
unfolding starts_with
starts_with-take [] s p h = cc
starts_with-take (x ∷ d) s zero h = refl
starts_with-take (x ∷ d) [] (suc p) h = refl
starts_with-take (x ∷ d) (c ∷ s) (suc p) h = ground (arith, starts_with-take d s p)

-- It is the first place: the pattern does not stand in what comes before.
pub find_first : (s d : Bytes) (p : ℕ) → d ≢ [] → find s d ≡ some p → find (take p s) d ≡ none
unfolding find starts_with
find_first [] d p ne h = absurd (ne (find_nil d h).0)
find_first (c ∷ s) [] p ne h = absurd (ne refl)
find_first (c ∷ s) (x ∷ d) p ne h = elim (find_cases c s (x ∷ d) h) [
  | inl (e, z) ↦ rw z
  | inr (q, e, found, z) ↦
      rw z (
        ground (arith, starts_with-take (x ∷ d) (c ∷ s) (suc q) e, find_first s (x ∷ d) q ne found))
]

starts_with-append_le :
    (d s t : Bytes) → length d ≤ length s → starts_with d (s ++ t) ≡ starts_with d s
unfolding starts_with
starts_with-append_le [] s t h = refl
starts_with-append_le (x ∷ d) [] t h = absurd (omega arith)
starts_with-append_le (x ∷ d) (c ∷ s) t h = ground (arith, starts_with-append_le d s t)

-- The first place of a pattern is that in every longer text.
pub find-append_some : (s t d : Bytes) (p : ℕ) → find s d ≡ some p → find (s ++ t) d ≡ some p
unfolding find
find-append_some [] t d p h = let (e, z) = find_nil d h in rw (e, z) (find_vacio t)
  where
    find_vacio : (t : Bytes) → find t [] ≡ some 0
    find_vacio [] = refl
    find_vacio (c ∷ t) = refl
find-append_some (c ∷ s) t d p h = elim (find_cases c s d h) [
  | inl (e, z) ↦
      rw (find, starts_with-append_le d (c ∷ s) t (starts_with-le d (c ∷ s) e), e, z) refl
  | inr (q, e, found, z) ↦
      rw
        (
          find,
          starts_with-append_le d (c ∷ s) t (omega (arith, find-le-length s d q found)),
          e,
          find-append_some s t d q found,
          z,
        )
        refl
]
