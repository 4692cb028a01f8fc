-- ===== src/NachOs/IdaVuelta.antt =====
-- Bytes that the kernel places in the user's memory and takes again
-- (nachOS/code/userprog/exception.cc).
use server_load_balancer_cli.Prelude.{
  ℕ, zero, suc, ◌≤◌, ◌<◌, ◌≡◌, ◌≢◌, refl, ◌∙◌, Bool, true, [], ◌∷◌, ◌++◌, length, take, arith,
}
use server_load_balancer_cli.Prelude.Int.{ℤ, pos, ◌+ℤ◌, size_t}
use server_load_balancer_cli.Prelude.Text.{Bytes, All}
use server_load_balancer_cli.NachOs.Base.{Maquina, hecho}
use server_load_balancer_cli.NachOs.Resultado.{sigue}
use server_load_balancer_cli.NachOs.Copia.{
  char_de, int_de, leer_byte, leer_bytes, system_to_nachos, escribir_byte, escribir_bytes,
  nachos_to_system,
}

-- The user's memory as bytes: a place that the page table maps is read and written alone.
pub record Memoria (m : Maquina) : Type 0 where
  pub byte : m.Estado → ℤ → ℕ
  pub mapeada : m.Estado → ℤ → Bool
  pub ReadMem_lem :
      (e : m.Estado) (a : ℤ) → mapeada e a ≡ true → m.ReadMem e a ≡ hecho (int_de (byte e a))
  pub WriteMem_lem :
      (e : m.Estado) (a v : ℤ)
      → mapeada e a ≡ true
      → (f : m.Estado) × (m.WriteMem e a v ≡ hecho f)
        × (byte f a ≡ char_de v)
        × ((c : ℤ) → c ≢ a → byte f c ≡ byte e c)
        × ((c : ℤ) → mapeada f c ≡ mapeada e c)

pub char_de-int_de : (c : ℕ) → c < 256 → char_de (int_de c) ≡ c
unfolding size_t
char_de-int_de c h = ground arith

+ℤ_inj : (a : ℤ) (i j : ℕ) → (a +ℤ pos i) ≡ (a +ℤ pos j) → i ≡ j
unfolding ◌+ℤ◌
+ℤ_inj a i j h = ground arith

module _ (m : Maquina) (r : Memoria m) where
  -- The first `n` bytes of the text stand from `va + i` on.
  abbrev Guarda : ℕ → ℤ → ℕ → Bytes → m.Estado → Type 0
  Guarda zero va i bs e = Unit
  Guarda (suc n) va i [] e = Unit
  Guarda (suc n) va i (c ∷ bs) e = (r.byte e (va +ℤ pos i) ≡ c) × Guarda n va (suc i) bs e

  -- The places from `va + i` on, `n` of them, are mapped.
  abbrev pub Mapeadas : ℕ → ℤ → ℕ → m.Estado → Type 0
  Mapeadas zero va i e = Unit
  Mapeadas (suc n) va i e = (r.mapeada e (va +ℤ pos i) ≡ true) × Mapeadas n va (suc i) e

  Mapeadas-tras :
      (n : ℕ) (va : ℤ) (i : ℕ) (e f : m.Estado)
      → ((c : ℤ) → r.mapeada f c ≡ r.mapeada e c)
      → Mapeadas n va i e
      → Mapeadas n va i f
  Mapeadas-tras zero va i e f h x = tt
  Mapeadas-tras (suc n) va i e f h x = (h (va +ℤ pos i) ∙ x.0, Mapeadas-tras n va (suc i) e f h x.1)

  escribir_bytes_lem :
      (S : Type 0) (n : ℕ) (va : ℤ) (i : ℕ) (bs : Bytes) (e : m.Estado)
      → n ≤ length bs
      → All (λ c. c < 256) bs
      → Mapeadas n va i e
      → (f : m.Estado) × (escribir_bytes m {S = S} n va i bs e ≡ sigue f)
        × Guarda n va i bs f
        × ((j : ℕ) → j < i → r.byte f (va +ℤ pos j) ≡ r.byte e (va +ℤ pos j))
        × ((c : ℤ) → r.mapeada f c ≡ r.mapeada e c)
  unfolding escribir_bytes escribir_byte
  escribir_bytes_lem S zero va i bs e h b x = (e, refl, tt, λ j. λ k. refl, λ c. refl)
  escribir_bytes_lem S (suc n) va i [] e h b x = absurd (omega arith)
  escribir_bytes_lem S (suc n) va i (c ∷ bs) e h b x =
      let (e₂, w, igual, otros, mapas) = r.WriteMem_lem e (va +ℤ pos i) (int_de c) x.0 in
      let (f, k, guarda, antes, mapas₂) =
        escribir_bytes_lem S n va (suc i) bs e₂ (omega arith) b.1
          (Mapeadas-tras n va (suc i) e e₂ mapas x.1) in
      (
        f,
        rw w k,
        (antes i (omega arith) ∙ (igual ∙ char_de-int_de c b.0), guarda),
        λ j. λ menor.
            antes j (omega arith)
            ∙ otros (va +ℤ pos j) (λ q. (let p = +ℤ_inj va j i q in omega arith)),
        λ d. mapas₂ d ∙ mapas d,
      )

  leer_bytes_lem :
      (S : Type 0) (n : ℕ) (va : ℤ) (i : ℕ) (v : ℤ) (bs : Bytes) (e : m.Estado)
      → n ≤ length bs
      → All (λ c. c < 256) bs
      → Mapeadas n va i e
      → Guarda n va i bs e
      → leer_bytes m {S = S} n va i v e ≡ sigue (take n bs, e)
  unfolding leer_bytes leer_byte
  leer_bytes_lem S zero va i v bs e h b x g = refl
  leer_bytes_lem S (suc n) va i v [] e h b x g = absurd (omega arith)
  leer_bytes_lem S (suc n) va i v (c ∷ bs) e h b x g =
      rw
        (
          r.ReadMem_lem e (va +ℤ pos i) x.0,
          leer_bytes_lem S n va (suc i) (int_de (r.byte e (va +ℤ pos i))) bs e (omega arith) b.1 x.1
              g.1,
          g.0,
          char_de-int_de c b.0,
        )
        refl

  -- Bytes that the kernel writes to mapped memory are all written, and a read of as many from the same
  -- address gives them, with a NUL behind them, and changes nothing.
  pub system_to_nachos-nachos_to_system :
      (S : Type 0) (basura va : ℤ) (buffer : Bytes) (n : ℕ) (e : m.Estado)
      → n ≤ length buffer
      → All (λ c. c < 256) buffer
      → Mapeadas n va 0 e
      → (f : m.Estado) × (nachos_to_system m {S = S} va buffer (pos n) e ≡ sigue (pos n, f))
        × (system_to_nachos m {S = S} basura va (pos n) f ≡ sigue (take n buffer ++ 0 ∷ [], f))
  unfolding nachos_to_system system_to_nachos
  system_to_nachos-nachos_to_system S basura va buffer zero e h b x = (e, refl, refl)
  system_to_nachos-nachos_to_system S basura va buffer (suc n) e h b x =
      let (f, w, guarda, antes, mapas) = escribir_bytes_lem S (suc n) va 0 buffer e h b x in
      (
        f,
        rw w refl,
        rw
            (leer_bytes_lem S (suc n) va 0 basura buffer f h b
              (Mapeadas-tras (suc n) va 0 e f mapas x) guarda)
            refl,
      )
