-- ===== src/Balanceador/Busqueda.antt =====
-- The search of the registry by text (`buscarServidor` of src/Balanceador.cpp), in a vector where no
-- text stands twice.
use server_load_balancer_cli.Prelude.{
  ℕ, zero, suc, ◌<◌, ◌≡◌, refl, ◌⊎◌, inl, inr, false, none, some, List, [], ◌∷◌, ◌++◌, length,
  erase_at, arith, Option-cases, Bool-cases,
}
use server_load_balancer_cli.Prelude.Text.{Bytes, text_eq, text_eq_sound, text_eq_refl}
use server_load_balancer_cli.Balanceador.{Servidor, buscar_servidor}

-- No two servers are registered under one text.
abbrev pub Distintos : List Servidor → Type 0
Distintos [] = Unit
Distintos (s ∷ ss) = (buscar_servidor ss s.comparador ≡ none) × Distintos ss

buscar-append :
    (ss : List Servidor) (n : Servidor) (hilera : Bytes)
    → buscar_servidor ss hilera ≡ none
    → text_eq hilera n.comparador ≡ false
    → buscar_servidor (ss ++ n ∷ []) hilera ≡ none
unfolding buscar_servidor
buscar-append [] n hilera h e = rw (e, buscar_servidor) refl
buscar-append (s ∷ ss) n hilera h e = ground (arith, buscar-append ss n hilera)

text_eq_sym : (s t : Bytes) → text_eq s t ≡ false → text_eq t s ≡ false
unfolding text_eq
text_eq_sym [] [] h = cc
text_eq_sym [] (y ∷ t) h = refl
text_eq_sym (x ∷ s) [] h = refl
text_eq_sym (x ∷ s) (y ∷ t) h = ground (arith, text_eq_sym s t)

pub Distintos-append :
    (ss : List Servidor) (n : Servidor)
    → Distintos ss
    → buscar_servidor ss n.comparador ≡ none
    → Distintos (ss ++ n ∷ [])
unfolding buscar_servidor
Distintos-append [] n d h = (refl, tt)
Distintos-append (s ∷ ss) n d h =
    let otro : text_eq n.comparador s.comparador ≡ false = ground arith in
    let resto : buscar_servidor ss n.comparador ≡ none = ground arith in
    (
      buscar-append ss n s.comparador d.0 (text_eq_sym n.comparador s.comparador otro),
      Distintos-append ss n d.1 resto,
    )

-- A server is found at the front, or one place further on than in the tail.
pub buscar_cases :
    (s : Servidor) (ss : List Servidor) (hilera : Bytes) {i : ℕ}
    → buscar_servidor (s ∷ ss) hilera ≡ some i
    → ((hilera ≡ s.comparador) × (i ≡ 0))
      ⊎ ((j : ℕ) × (text_eq hilera s.comparador ≡ false)
          × (buscar_servidor ss hilera ≡ some j)
          × (i ≡ suc j))
unfolding buscar_servidor
buscar_cases s ss hilera {i} h = elim (Bool-cases (text_eq hilera s.comparador)) [
  | inl e ↦ inl (text_eq_sound hilera s.comparador e, ground arith)
  | inr e ↦ elim (Option-cases (buscar_servidor ss hilera)) [
    | inl f ↦ absurd (ground arith)
    | inr (j, f) ↦ inr (j, e, f, ground arith)
  ]
]

-- A place that is found is within the vector.
pub buscar-lt-length :
    (ss : List Servidor) (hilera : Bytes) (i : ℕ)
    → buscar_servidor ss hilera ≡ some i
    → i < length ss
unfolding buscar_servidor
buscar-lt-length [] hilera i h = cc
buscar-lt-length (s ∷ ss) hilera i h = elim (buscar_cases s ss hilera h) [
  | inl (e, z) ↦ omega arith
  | inr (j, e, f, z) ↦ omega (arith, buscar-lt-length ss hilera j f)
]

buscar-erase_at :
    (ss : List Servidor) (hilera : Bytes) (i : ℕ)
    → buscar_servidor ss hilera ≡ none
    → buscar_servidor (erase_at ss i) hilera ≡ none
unfolding buscar_servidor
buscar-erase_at [] hilera i h = refl
buscar-erase_at (s ∷ ss) hilera zero h = ground arith
buscar-erase_at (s ∷ ss) hilera (suc i) h = ground (arith, buscar-erase_at ss hilera i)

pub Distintos-erase_at : (ss : List Servidor) (i : ℕ) → Distintos ss → Distintos (erase_at ss i)
Distintos-erase_at [] i d = tt
Distintos-erase_at (s ∷ ss) zero d = d.1
Distintos-erase_at (s ∷ ss) (suc i) d =
    (buscar-erase_at ss s.comparador i d.0, Distintos-erase_at ss i d.1)

-- After the first server of a text is erased, none is left.
pub buscar_borrado :
    (ss : List Servidor) (hilera : Bytes) (i : ℕ)
    → Distintos ss
    → buscar_servidor ss hilera ≡ some i
    → buscar_servidor (erase_at ss i) hilera ≡ none
unfolding buscar_servidor
buscar_borrado [] hilera i d h = cc
buscar_borrado (s ∷ ss) hilera i d h = elim (buscar_cases s ss hilera h) [
  | inl (e, z) ↦ rw (z, e) d.0
  | inr (j, e, f, z) ↦
      let resto = buscar_borrado ss hilera j d.1 f in rw (z, buscar_servidor, e, resto) refl
]

pub buscar-ultimo :
    (ss : List Servidor) (n : Servidor)
    → buscar_servidor ss n.comparador ≡ none
    → buscar_servidor (ss ++ n ∷ []) n.comparador ≡ some (length ss)
unfolding buscar_servidor
buscar-ultimo [] n h = rw (text_eq_refl n.comparador, buscar_servidor) refl
buscar-ultimo (s ∷ ss) n h = ground (arith, buscar-ultimo ss n)
