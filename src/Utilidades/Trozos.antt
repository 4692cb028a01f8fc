-- ===== src/Utilidades/Trozos.antt =====
-- The pieces of `split` (src/Utilidades.cpp) where the text is written out with its delimiters.
use server_load_balancer_cli.Prelude.{
  get_elem?, ℕ, zero, suc, ◌+◌, ◌≡◌, ◌≢◌, refl, inl, inr, ◌∙◌, ap, List, [], ◌∷◌, ◌++◌, length,
  take, drop, drop-add, drop-append, take-append, arith, Option-cases, some,
}
use server_load_balancer_cli.Prelude.Text.{Bytes, find, Lacks}
use server_load_balancer_cli.Prelude.Find.{find-append, find-none}
use server_load_balancer_cli.Utilidades.{split, split_loop, con_resto}

drop_behind : (pre d rest : Bytes) → drop (length pre + length d) (pre ++ (d ++ rest)) ≡ rest
drop_behind pre d rest =
    drop-add (length pre) (length d) (pre ++ (d ++ rest))
    ∙ ap (drop (length d)) (drop-append pre (d ++ rest))
    ∙ drop-append d rest

-- A text is cut at the first delimiter, and then what stands behind that.
split_loop_at :
    (n : ℕ) (pre : Bytes) (d : ℕ) (ds rest : Bytes) (out : List Bytes)
    → Lacks d pre
    → split_loop (suc n) (pre ++ (d ∷ ds ++ rest)) (d ∷ ds) out
      ≡ split_loop n rest (d ∷ ds) (out ++ pre ∷ [])
unfolding split_loop
split_loop_at n pre d ds rest out h =
    rw (find-append pre d ds rest h, split_loop)
      (cc (take-append {0} pre (d ∷ ds ++ rest), drop_behind pre (d ∷ ds) rest))

split_loop_end :
    (n : ℕ) (s : Bytes) (d : ℕ) (ds : Bytes) (out : List Bytes)
    → Lacks d s
    → split_loop n s (d ∷ ds) out ≡ record { hileras = out; resto = s }
unfolding split_loop
split_loop_end zero s d ds out h = refl
split_loop_end (suc n) s d ds out h = rw (find-none s d ds h, split_loop)

split_of_ne_nil :
    (line d : Bytes) (veces : ℕ)
    → line ≢ []
    → split line d veces
      ≡ con_resto
          (split_loop (veces + 1) line d []).hileras
          (split_loop (veces + 1) line d []).resto
unfolding split
split_of_ne_nil [] d veces ne = absurd (ne refl)
split_of_ne_nil (c ∷ s) d veces ne = refl

append-ne-nil : (s : Bytes) (c : ℕ) (t : Bytes) → s ++ (c ∷ t) ≢ []
append-ne-nil [] c t = λ e. cc
append-ne-nil (x ∷ s) c t = λ e. cc

con_resto-cola : (a b resto : Bytes) → (r : List Bytes) × (con_resto (a ∷ b ∷ []) resto ≡ a ∷ b ∷ r)
unfolding con_resto
con_resto-cola a b [] = ([], refl)
con_resto-cola a b (c ∷ resto) = ((c ∷ resto) ∷ [], refl)

-- Two texts, each with the delimiter behind it, are the first two pieces.
pub split_dos :
    (a b : Bytes) (d : ℕ) (ds resto : Bytes)
    → Lacks d a
    → Lacks d b
    → (r : List Bytes) × (split (a ++ (d ∷ ds ++ (b ++ (d ∷ ds ++ resto)))) (d ∷ ds) 1 ≡ a ∷ b ∷ r)
split_dos a b d ds resto ha hb =
    let (r, e) = con_resto-cola a b resto in
    (
      r,
      rw
          (
            split_of_ne_nil _ (d ∷ ds) 1 (append-ne-nil a d (ds ++ (b ++ (d ∷ ds ++ resto)))),
            split_loop_at 1 a d ds (b ++ (d ∷ ds ++ resto)) [] ha,
            split_loop_at 0 b d ds resto (a ∷ []) hb,
          )
          (unfold split_loop in e),
    )

-- Three texts with a delimiter between them, cut at most `n + 3` times, are the pieces.
pub split_tres :
    (a b c : Bytes) (d n : ℕ)
    → Lacks d a
    → Lacks d b
    → Lacks d c
    → c ≢ []
    → split (a ++ (d ∷ (b ++ (d ∷ c)))) (d ∷ []) (n + 2) ≡ a ∷ b ∷ c ∷ []
split_tres a b [] d n ha hb hc ne = absurd (ne refl)
split_tres a b (x ∷ c) d n ha hb hc ne =
    let tres : n + 2 + 1 ≡ suc (suc (suc n)) = omega arith in
    rw
      (
        split_of_ne_nil _ (d ∷ []) (n + 2) (append-ne-nil a d (b ++ (d ∷ x ∷ c))),
        tres,
        split_loop_at (suc (suc n)) a d [] (b ++ (d ∷ x ∷ c)) [] ha,
        split_loop_at (suc n) b d [] (x ∷ c) (a ∷ []) hb,
        split_loop_end (suc n) (x ∷ c) d [] (a ∷ b ∷ []) hc,
      )
      (unfold con_resto in refl)

con_resto-cabeza :
    (a : Bytes) (out : List Bytes) (resto : Bytes)
    → get_elem? (con_resto (a ∷ out) resto) 0 ≡ some a
unfolding con_resto
con_resto-cabeza a out [] = refl
con_resto-cabeza a out (c ∷ resto) = refl

-- A piece that is cut off stays the first.
cabeza :
    (n : ℕ) (line d a : Bytes) (out : List Bytes)
    → get_elem?
        (con_resto (split_loop n line d (a ∷ out)).hileras (split_loop n line d (a ∷ out)).resto)
        0
      ≡ some a
unfolding split_loop
cabeza zero line d a out = con_resto-cabeza a out line
cabeza (suc n) line d a out = elim (Option-cases (find line d)) [
  | inl e ↦ rw (e, split_loop) (con_resto-cabeza a out line)
  | inr (p, e) ↦
      rw (e, split_loop) (cabeza n (drop (p + length d) line) d a (out ++ take p line ∷ []))
]

-- A text with the delimiter behind it is the first piece.
pub split-primero :
    (veces : ℕ) (a : Bytes) (d : ℕ) (ds resto : Bytes)
    → Lacks d a
    → get_elem? (split (a ++ (d ∷ ds ++ resto)) (d ∷ ds) veces) 0 ≡ some a
split-primero veces a d ds resto h =
    let uno : veces + 1 ≡ suc veces = omega arith in
    rw
      (
        split_of_ne_nil _ (d ∷ ds) veces (append-ne-nil a d (ds ++ resto)),
        uno,
        split_loop_at veces a d ds resto [] h,
      )
      (cabeza veces resto (d ∷ ds) a [])
