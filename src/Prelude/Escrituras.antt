-- ===== src/Prelude/Escrituras.antt =====
-- Writes to a file, each a place and a text, the first one first.
use server_load_balancer_cli.Prelude.{ℕ, ◌+◌, ◌≡◌, List, [], ◌∷◌, length}
use server_load_balancer_cli.Prelude.Text.{Bytes}

-- The writes lie one behind the other from the place on, and end at the other place.
abbrev pub Seguidos : ℕ → List (ℕ × Bytes) → ℕ → Type 0
Seguidos desde [] hasta = desde ≡ hasta
Seguidos desde ((p, t) ∷ es) hasta = (p ≡ desde) × Seguidos (desde + length t) es hasta

abbrev pub textos : List (ℕ × Bytes) → List Bytes
textos [] = []
textos ((p, t) ∷ es) = t ∷ textos es
