-- ===== src/Prelude/Decimal.antt =====
-- `to_string(int)` and `atoi`, and that the second reads back what the first wrote.
use server_load_balancer_cli.Prelude.{
  ℕ, zero, suc, ◌+◌, ◌-◌, ◌*◌, ◌/◌, ◌%◌, ◌<◌, ◌≡◌, refl, Bool, true, false, ◌&&◌, ◌||◌, [], ◌∷◌,
  ◌++◌, arith, ltb, leb, ◌==◌, if◌then◌else◌, Bool-cases, inl, inr, ap, sym, ◌∙◌,
}
use server_load_balancer_cli.Prelude.Int.{ℤ, pos, negsuc}
use server_load_balancer_cli.Prelude.Text.{Bytes, All, Lacks}

unfoldable pub is_digit : ℕ → Bool
is_digit c = leb b'0' c && leb c b'9'

-- The digits of `n` in front of `out`; the fuel is a bound on `n`.
digits : ℕ → ℕ → Bytes → Bytes
digits zero n out = out
digits (suc f) n out = elim (ltb n 10) [
  | true ↦ (b'0' + n) ∷ out
  | false ↦ digits f (n / 10) ((b'0' + n % 10) ∷ out)
]

unfoldable pub to_string_ℕ : ℕ → Bytes
unfolding digits
to_string_ℕ n = digits (suc n) n []

unfoldable pub to_string : ℤ → Bytes
unfolding to_string_ℕ
to_string (pos n) = to_string_ℕ n
to_string (negsuc n) = b'-' ∷ to_string_ℕ (suc n)

is_space : ℕ → Bool
is_space c = (c == b' ') || (leb 9 c && leb c 13)

-- The digits at the front, behind the value `acc` of those already read.
scan : ℕ → Bytes → ℕ
unfolding is_digit
scan acc [] = acc
scan acc (c ∷ s) = let rest = scan (acc * 10 + (c - b'0')) s in if is_digit c then rest else acc

negated : ℕ → ℤ
negated zero = pos 0
negated (suc n) = negsuc n

signed : Bytes → ℤ
unfolding scan negated
signed [] = pos 0
signed (c ∷ s) =
    if c == b'-'
    then negated (scan 0 s)
    else if c == b'+'
    then pos (scan 0 s)
    else pos (scan 0 (c ∷ s))

-- `atoi`: spaces, a sign, digits; what follows is ignored. Values outside `int` are undefined in C
-- and are kept exact here.
unfoldable pub atoi : Bytes → ℤ
unfolding is_space signed
atoi [] = pos 0
atoi (c ∷ s) = let rest = atoi s in if is_space c then rest else signed (c ∷ s)

-- A text that does not begin with a digit ends a number.
abbrev pub EndsNumber : Bytes → Type 0
EndsNumber [] = Unit {0}
EndsNumber (c ∷ s) = is_digit c ≡ false

scan_end : (n : ℕ) (s : Bytes) → EndsNumber s → scan n s ≡ n
unfolding scan
scan_end n [] h = refl
scan_end n (c ∷ s) h = rw h

scan_digit : (acc d : ℕ) (s : Bytes) → d < 10 → scan acc ((b'0' + d) ∷ s) ≡ scan (acc * 10 + d) s
unfolding scan is_digit
scan_digit acc d s h = ground (arith)

scan-digits :
    (f n : ℕ) (out rest : Bytes) → n < f → scan 0 (digits f n out ++ rest) ≡ scan n (out ++ rest)
unfolding digits
scan-digits zero n out rest h = elim h [ ]
scan-digits (suc f) n out rest h = ground (
  arith,
  scan_digit 0 n (out ++ rest),
  scan-digits f (n / 10) ((b'0' + n % 10) ∷ out) rest,
  scan_digit (n / 10) (n % 10) (out ++ rest),
)

digits-IsDigit :
    (f n : ℕ) (out : Bytes)
    → All (λ c. is_digit c ≡ true) out
    → All (λ c. is_digit c ≡ true) (digits f n out)
unfolding digits is_digit
digits-IsDigit zero n out h = h
digits-IsDigit (suc f) n out h = ground (arith, digits-IsDigit f (n / 10) ((b'0' + n % 10) ∷ out))

-- The first byte is a digit.
digits_head :
    (f n : ℕ) (out : Bytes)
    → n < f
    → (c : ℕ) × (s : Bytes) × (digits f n out ≡ c ∷ s) × (is_digit c ≡ true)
unfolding digits is_digit
digits_head zero n out h = elim h [ ]
digits_head (suc f) n out h = elim (Bool-cases (ltb n 10)) [
  | inl small ↦ (b'0' + n, out, ground arith, ground arith)
  | inr large ↦
      let (c, s, e, d) = digits_head f (n / 10) ((b'0' + n % 10) ∷ out) (ground arith) in
      (c, s, ground arith, d)
]

atoi_digit : (c : ℕ) (s : Bytes) → is_digit c ≡ true → atoi (c ∷ s) ≡ pos (scan 0 (c ∷ s))
unfolding atoi is_digit
atoi_digit c s h = ground arith

-- `atoi` reads back what `to_string` wrote, whatever follows that is no digit.
pub atoi-to_string_ℕ :
    (n : ℕ) (rest : Bytes) → EndsNumber rest → atoi (to_string_ℕ n ++ rest) ≡ pos n
unfolding to_string_ℕ
atoi-to_string_ℕ n rest h =
    let (c, s, e, d) = digits_head (suc n) n [] (omega arith) in
    let read = scan-digits (suc n) n [] rest (omega arith) in
    rw e (atoi_digit c (s ++ rest) d ∙ ap pos (rw e at read ∙ scan_end n rest h))

-- What `to_string` writes of a count is digits.
pub to_string_ℕ-IsDigit : (n : ℕ) → All (λ c. is_digit c ≡ true) (to_string_ℕ n)
unfolding to_string_ℕ
to_string_ℕ-IsDigit n = digits-IsDigit (suc n) n [] tt

-- A byte that is no digit does not stand in digits.
pub IsDigit-Lacks :
    (b : ℕ) (s : Bytes) → is_digit b ≡ false → All (λ c. is_digit c ≡ true) s → Lacks b s
IsDigit-Lacks b [] n h = tt
IsDigit-Lacks b (c ∷ s) n (d, h) =
    (λ e. let x : true ≡ false = sym d ∙ (ap is_digit e ∙ n) in absurd (cc), IsDigit-Lacks b s n h)
