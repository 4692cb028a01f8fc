-- ===== src/Prelude/Text.antt =====
-- `std::string` as a list of bytes: what the sources use of it.
use Prim.Native.Char.{code}
use Prim.Native.String.{String}
use server_load_balancer_cli.Prelude.{
  ℕ, suc, ◌+◌, ◌≡◌, refl, ◌≢◌, ◌↔◌, Bool, true, false, ◌&&◌, Option, none, some, List, [], ◌∷◌,
  ◌++◌, arith, ltb, leb, ◌==◌, ==_refl, ==_iff, not, if◌then◌else◌, length, drop,
}

abbrev pub Bytes : Type 0
Bytes = List ℕ

-- The bytes of an ASCII literal.
abbrev pub codes : String → Bytes
codes String.[] = []
codes (String.◌∷◌ c s) = code c ∷ codes s

-- `a.compare(b) == 0`, `strcmp(a, b) == 0`.
unfoldable pub text_eq : Bytes → Bytes → Bool
text_eq [] [] = true
text_eq [] (y ∷ ys) = false
text_eq (x ∷ xs) [] = false
text_eq (x ∷ xs) (y ∷ ys) = (x == y) && text_eq xs ys

unfoldable pub starts_with : Bytes → Bytes → Bool
starts_with [] s = true
starts_with (d ∷ ds) [] = false
starts_with (d ∷ ds) (c ∷ s) = (d == c) && starts_with ds s

-- One place further on, if there is a place.
abbrev pub shift : Option ℕ → Option ℕ
shift none = none
shift (some p) = some (suc p)

-- `s.find(d)`, with `none` for `npos`.
unfoldable pub find : Bytes → Bytes → Option ℕ
unfolding starts_with
find [] d = if starts_with d [] then some 0 else none
find (c ∷ s) d = if starts_with d (c ∷ s) then some 0 else shift (find s d)

abbrev pub offset : ℕ → Option ℕ → Option ℕ
offset k none = none
offset k (some p) = some (k + p)

-- `s.find(d, from)`.
unfoldable pub find_from : Bytes → Bytes → ℕ → Option ℕ
unfolding find
find_from s d from = if ltb (length s) from then none else offset from (find (drop from s) d)

-- `s.find(d) != npos`.
abbrev pub is_found : Option ℕ → Bool
is_found none = false
is_found (some p) = true

-- A text up to its first NUL, as a `char*` is read.
unfoldable pub c_str : Bytes → Bytes
c_str [] = []
c_str (c ∷ s) = if c == 0 then [] else c ∷ c_str s

-- `tolower` in the C locale.
unfoldable pub to_lower : ℕ → ℕ
to_lower c = if leb b'A' c && leb c b'Z' then c + 32 else c

module _ {ℓ} (P : ℕ → Type ℓ) where
  abbrev pub All : Bytes → Type ℓ
  All [] = Unit
  All (c ∷ s) = P c × All s

  pub All-append : (s t : Bytes) → All s → All t → All (s ++ t)
  All-append [] t hs ht = ht
  All-append (c ∷ s) t (hc, hs) ht = (hc, All-append s t hs ht)

  pub All-split : (s t : Bytes) → All (s ++ t) → All s × All t
  All-split [] t h = (tt, h)
  All-split (c ∷ s) t (hc, h) = let (a, b) = All-split s t h in ((hc, a), b)

-- The text does not hold the byte.
abbrev pub Lacks : ℕ → Bytes → Type 0
Lacks b = All (λ c. c ≢ b)

-- The test for it.
abbrev pub lacks : ℕ → Bytes → Bool
lacks b [] = true
lacks b (c ∷ s) = not (c == b) && lacks b s

pub Lacks-of : (b : ℕ) (s : Bytes) → lacks b s ≡ true → Lacks b s
Lacks-of b [] h = tt
Lacks-of b (c ∷ s) h = (ground (arith, ==_iff c b), Lacks-of b s (ground arith))

pub text_eq_refl : (s : Bytes) → text_eq s s ≡ true
unfolding text_eq
text_eq_refl [] = refl
text_eq_refl (c ∷ s) = rw (==_refl c) (text_eq_refl s)

pub text_eq_sound : (s t : Bytes) → text_eq s t ≡ true → s ≡ t
unfolding text_eq
text_eq_sound [] [] h = refl
text_eq_sound [] (y ∷ t) h = cc
text_eq_sound (x ∷ s) [] h = cc
text_eq_sound (x ∷ s) (y ∷ t) h = ground (arith, text_eq_sound s t)

pub text_eq_iff : (s t : Bytes) → (text_eq s t ≡ true) ↔ (s ≡ t)
text_eq_iff s t = (text_eq_sound s t, λ e. rw e (text_eq_refl t))

pub starts_with-append : (d s : Bytes) → starts_with d (d ++ s) ≡ true
unfolding starts_with
starts_with-append [] s = refl
starts_with-append (c ∷ d) s = rw (==_refl c) (starts_with-append d s)

pub starts_with-split : (d s : Bytes) → starts_with d s ≡ true → d ++ drop (length d) s ≡ s
unfolding starts_with
starts_with-split [] s h = refl
starts_with-split (c ∷ d) [] h = cc
starts_with-split (c ∷ d) (x ∷ s) h = ground (arith, starts_with-split d s)

pub text_eq-nil : (s : Bytes) → s ≢ [] → text_eq s [] ≡ false
unfolding text_eq
text_eq-nil [] h = absurd (h refl)
text_eq-nil (c ∷ s) h = refl
