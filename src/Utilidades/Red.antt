-- ===== src/Utilidades/Red.antt =====
-- `getBroadcastIP` (src/Utilidades.cpp), against the broadcast address of a network.
use native.Mathlib.Nat.{pow-suc}
use server_load_balancer_cli.Prelude.{
  ℕ, zero, suc, ◌+◌, ◌-◌, ◌%◌, ◌^◌, ◌≤◌, ◌<◌, ◌≡◌, refl, ◌⊎◌, inl, inr, ◌↔◌, Bool, true, not, ◌&&◌,
  ◌||◌, some, arith, ◌==◌,
}
use server_load_balancer_cli.Utilidades.{suma_potencias, direccion_broadcast}

-- All host bits set: what the broadcast address of a network is.
unfoldable pub broadcast_real : ℕ → ℕ → ℕ
broadcast_real direccion mascara =
    let tamano = 2 ^ (32 - mascara) in direccion - direccion % tamano + tamano - 1

pow_pos : (n : ℕ) → 0 < 2 ^ n
pow_pos zero = omega arith
pow_pos (suc n) = omega (arith, pow_pos n, pow-suc 2 n)

suma_potencias_lem : (n : ℕ) → suma_potencias n + 1 ≡ 2 ^ n
unfolding suma_potencias
suma_potencias_lem zero = refl
suma_potencias_lem (suc n) = omega (arith, suma_potencias_lem n, pow-suc 2 n)

-- The widths at which the square of the width is the size of the network.
ancho_valido : ℕ → Bool
ancho_valido c = not (c ^ 2 == 2 ^ c) || (c == 2 || c == 4)

-- The widths below a bound, checked one by one.
anchos_hasta : ℕ → Bool
unfolding ancho_valido
anchos_hasta zero = true
anchos_hasta (suc c) = anchos_hasta c && ancho_valido c

ancho_de : (tope c : ℕ) → c < tope → anchos_hasta tope ≡ true → ancho_valido c ≡ true
unfolding anchos_hasta
ancho_de zero c menor todos = elim menor [ ]
ancho_de (suc tope) c menor todos = ground (arith, ancho_de tope c)

todos_los_anchos : anchos_hasta 33 ≡ true
unfolding anchos_hasta
todos_los_anchos = refl

cuadrado-eq-pow : (c : ℕ) → c ≤ 32 → c ^ 2 ≡ 2 ^ c → (c ≡ 2) ⊎ (c ≡ 4)
unfolding ancho_valido
cuadrado-eq-pow c h e = ground (arith, ancho_de 33 c (omega arith) todos_los_anchos)

correcta_28 : (d : ℕ) → d < 2 ^ 32 → direccion_broadcast d 28 ≡ some (broadcast_real d 28)
unfolding direccion_broadcast broadcast_real
correcta_28 d h = ground arith

correcta_30 : (d : ℕ) → d < 2 ^ 32 → direccion_broadcast d 30 ≡ some (broadcast_real d 30)
unfolding direccion_broadcast broadcast_real
correcta_30 d h = ground arith

-- The right address at a width is the right square.
correcta_cuadrado :
    (d m : ℕ) → direccion_broadcast d m ≡ some (broadcast_real d m) → (32 - m) ^ 2 ≡ 2 ^ (32 - m)
unfolding direccion_broadcast broadcast_real
correcta_cuadrado d m h = ground (arith, suma_potencias_lem (32 - m), pow_pos (32 - m))

-- Over all addresses and masks, `getBroadcastIP` gives the broadcast address exactly when the mask
-- has 28 or 30 bits: there the square of the number of host bits is the size of the network.
pub direccion_broadcast_iff :
    (d m : ℕ)
    → d < 2 ^ 32
    → 1 ≤ m
    → m ≤ 32
    → (direccion_broadcast d m ≡ some (broadcast_real d m)) ↔ ((m ≡ 28) ⊎ (m ≡ 30))
direccion_broadcast_iff d m h a b = (solo, ida)
  where
    solo : direccion_broadcast d m ≡ some (broadcast_real d m) → (m ≡ 28) ⊎ (m ≡ 30)
    solo e = elim (cuadrado-eq-pow (32 - m) (omega arith) (correcta_cuadrado d m e)) [
      | inl c ↦ inr (omega arith)
      | inr c ↦ inl (omega arith)
    ]

    ida : (m ≡ 28) ⊎ (m ≡ 30) → direccion_broadcast d m ≡ some (broadcast_real d m)
    ida (inl e) = rw e (correcta_28 d h)
    ida (inr e) = rw e (correcta_30 d h)
