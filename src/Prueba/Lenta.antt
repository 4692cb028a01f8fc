-- ===== src/Prueba/Lenta.antt =====
-- A network that gives its first stream whole and the others byte by byte.
use server_load_balancer_cli.Prelude.{ℕ, zero, suc, ◌≡◌, refl, ap, List, [], ◌∷◌, flatten}
use server_load_balancer_cli.Prelude.Text.{Bytes}
use server_load_balancer_cli.Cadena.{NoVacias, Corriente, ConFin}

abbrev pub de_uno : Bytes → List Bytes
de_uno [] = []
de_uno (c ∷ t) = (c ∷ []) ∷ de_uno t

pub flatten-de_uno : (t : Bytes) → flatten (de_uno t) ≡ t
flatten-de_uno [] = refl
flatten-de_uno (c ∷ t) = ap (◌∷◌ c) (flatten-de_uno t)

pub de_uno-NoVacias : (t : Bytes) → NoVacias (de_uno t)
de_uno-NoVacias [] = tt
de_uno-NoVacias (c ∷ t) = de_uno-NoVacias t

-- The first stream comes whole.
abbrev pub piezas : ℕ → Bytes → List Bytes
piezas zero [] = []
piezas zero (c ∷ t) = (c ∷ t) ∷ []
piezas (suc k) t = de_uno t

pub flatten-piezas : (k : ℕ) (t : Bytes) → flatten (piezas k t) ≡ t
flatten-piezas zero [] = refl
flatten-piezas zero (c ∷ []) = refl
flatten-piezas zero (c ∷ a ∷ t) = ap (◌∷◌ c) (flatten-piezas zero (a ∷ t))
flatten-piezas (suc k) t = flatten-de_uno t

pub piezas-NoVacias : (k : ℕ) (t : Bytes) → NoVacias (piezas k t)
piezas-NoVacias zero [] = tt
piezas-NoVacias zero (c ∷ t) = tt
piezas-NoVacias (suc k) t = de_uno-NoVacias t

abbrev pub lenta : Corriente
lenta = record {
  partir = piezas;
  flatten-partir = flatten-piezas;
  partir-NoVacias = piezas-NoVacias;
}

-- Cleared buffers, one for each byte.
abbrev pub ceros_por : Bytes → List Bytes
ceros_por [] = []
ceros_por (c ∷ t) = (0 ∷ 0 ∷ []) ∷ ceros_por t

pub de_uno-ConFin : (t : Bytes) → ConFin (de_uno t) (ceros_por t)
de_uno-ConFin [] = tt
de_uno-ConFin (c ∷ t) = (refl, de_uno-ConFin t)
