-- ===== src/Utilidades/Header.antt =====
-- `extraerValorHeader` (src/Utilidades.cpp): the unsigned arithmetic of its two ends.
use server_load_balancer_cli.Prelude.{
  ℕ, zero, suc, ◌+◌, ◌-◌, ◌^◌, ◌≤◌, ◌<◌, ◌≡◌, refl, inl, inr, ap, ◌||◌, Option, none, some, [], ◌∷◌,
  min, length, take, drop, length-drop, take_all, arith, if◌then◌else◌, Option-cases, Bool-cases,
  le→ltb,
}
use server_load_balancer_cli.Prelude.Int.{int32, int32_small, size_t}
use server_load_balancer_cli.Prelude.Text.{Bytes, find, find_from, offset, starts_with, shift}
use server_load_balancer_cli.Prelude.Find.{find-le-length}
use server_load_balancer_cli.Utilidades.{crlf, hasta_cierre, extraer_valor_header}

-- The text up to the first line end or semicolon, or all of it.
unfoldable pub hasta_fin : Bytes → Bytes
hasta_fin [] = []
hasta_fin (c ∷ s) =
    if starts_with crlf (c ∷ s) || starts_with (b';' ∷ []) (c ∷ s) then [] else c ∷ hasta_fin s

-- The smaller place, if there is one.
primero : ℕ → Option ℕ → Option ℕ → ℕ
primero n none none = n
primero n (some p) none = p
primero n none (some q) = q
primero n (some p) (some q) = min p q

primero_zero_left : (n : ℕ) (o : Option ℕ) → primero n (some 0) o ≡ 0
unfolding primero
primero_zero_left n none = refl
primero_zero_left n (some q) = omega arith

primero_zero_right : (n : ℕ) (o : Option ℕ) → primero n o (some 0) ≡ 0
unfolding primero
primero_zero_right n none = refl
primero_zero_right n (some q) = omega arith

primero-shift :
    (n : ℕ) (o₁ o₂ : Option ℕ) → primero (suc n) (shift o₁) (shift o₂) ≡ suc (primero n o₁ o₂)
unfolding primero
primero-shift n none none = refl
primero-shift n (some p) none = refl
primero-shift n none (some q) = refl
primero-shift n (some p) (some q) = omega arith

-- The text before the first of the two places is the text up to the end of the value.
take-primero :
    (s : Bytes) (n : ℕ)
    → length s ≤ n
    → take (primero n (find s crlf) (find s (b';' ∷ []))) s ≡ hasta_fin s
unfolding find hasta_fin primero
take-primero [] n h = take_all n [] h
take-primero (c ∷ s) zero h = absurd (omega arith)
take-primero (c ∷ s) (suc n) h = elim (Bool-cases (starts_with crlf (c ∷ s))) [
  | inl e ↦ rw (e, primero_zero_left)
  | inr e ↦ elim (Bool-cases (starts_with (b';' ∷ []) (c ∷ s))) [
    | inl f ↦ rw (e, f, primero_zero_right)
    | inr f ↦ rw (e, f, primero-shift) (ap (◌∷◌ c) (take-primero s n (omega arith)))
  ]
]

-- Where a place is not found, the difference of the two `size_t` is nearly 2^64.
hasta_cierre-none : (k : ℕ) → k < 2 ^ 31 → hasta_cierre (offset k none) k ≡ 2 ^ 64 - 1 - k
unfolding hasta_cierre int32 size_t
hasta_cierre-none k h = omega arith

hasta_cierre-some : (k q : ℕ) → k + q < 2 ^ 31 → hasta_cierre (offset k (some q)) k ≡ q
unfolding hasta_cierre size_t
hasta_cierre-some k q h = rw (int32_small (k + q) h) (omega arith)

size_t-int32_small : (q : ℕ) → q < 2 ^ 31 → size_t (int32 q) ≡ q
unfolding size_t
size_t-int32_small q h = rw (int32_small q h)

size_t-int32_top : (k : ℕ) → k < 2 ^ 31 → size_t (int32 (2 ^ 64 - 1 - k)) ≡ 2 ^ 64 - 1 - k
unfolding size_t int32
size_t-int32_top k h = ground arith

-- A place found in a text lies within it.
abbrev Dentro : ℕ → Option ℕ → Type 0
Dentro n none = Unit {0}
Dentro n (some p) = p < n

-- What the code computes for the size, whichever of the two ends is found.
size_primero :
    (k n : ℕ) (o₁ o₂ : Option ℕ)
    → k + n < 2 ^ 31
    → Dentro n o₁
    → Dentro n o₂
    → size_t (int32 (min (hasta_cierre (offset k o₁) k) (hasta_cierre (offset k o₂) k)))
      ≡ primero (2 ^ 64 - 1 - k) o₁ o₂
unfolding primero
size_primero k n none none h a b =
    let e : min (hasta_cierre none k) (hasta_cierre none k) ≡ 2 ^ 64 - 1 - k =
      omega (arith, hasta_cierre-none k (omega arith)) in
    rw e (size_t-int32_top k (omega arith))
size_primero k n (some p) none h a b =
    let e : min (hasta_cierre (some (k + p)) k) (hasta_cierre none k) ≡ p =
      omega (arith, hasta_cierre-none k (omega arith), hasta_cierre-some k p (omega arith)) in
    rw e (size_t-int32_small p (omega arith))
size_primero k n none (some q) h a b =
    let e : min (hasta_cierre none k) (hasta_cierre (some (k + q)) k) ≡ q =
      omega (arith, hasta_cierre-none k (omega arith), hasta_cierre-some k q (omega arith)) in
    rw e (size_t-int32_small q (omega arith))
size_primero k n (some p) (some q) h a b =
    let e : min (hasta_cierre (some (k + p)) k) (hasta_cierre (some (k + q)) k) ≡ min p q =
      omega (arith, hasta_cierre-some k p (omega arith), hasta_cierre-some k q (omega arith)) in
    rw e (size_t-int32_small (min p q) (omega arith))

find_from-offset :
    (s d : Bytes) (k : ℕ) → k ≤ length s → find_from s d k ≡ offset k (find (drop k s) d)
unfolding find_from
find_from-offset s d k h = rw (le→ltb (length s) k h)

find-Dentro : (s : Bytes) (d : ℕ) (ds : Bytes) → Dentro (length s) (find s (d ∷ ds))
find-Dentro s d ds = elim (Option-cases (find s (d ∷ ds))) [
  | inl e ↦ rw e tt
  | inr (p, e) ↦ rw e (omega (arith, find-le-length s (d ∷ ds) p e))
]

-- In a header of less than 2 GiB, the value of a key that stands in it is the text behind the key,
-- up to the first line end or semicolon.
pub extraer_valor_header_lem :
    (header clave : Bytes) (p : ℕ)
    → length header < 2 ^ 31
    → find header clave ≡ some p
    → extraer_valor_header header clave ≡ hasta_fin (drop (p + length clave) header)
unfolding extraer_valor_header
extraer_valor_header_lem header clave p h e =
    let k = p + length clave in
    let r = drop k header in
    let within : k ≤ length header = find-le-length header clave p e in
    let room : length r + k ≡ length header = omega (arith, length-drop k header) in
    rw
      (
        e,
        extraer_valor_header,
        find_from-offset header crlf k within,
        find_from-offset header (b';' ∷ []) k within,
        size_primero k (length r) (find r crlf) (find r (b';' ∷ [])) (omega arith)
            (find-Dentro r 13 (10 ∷ [])) (find-Dentro r b';' []),
      )
      (take-primero r (2 ^ 64 - 1 - k) (omega arith))
