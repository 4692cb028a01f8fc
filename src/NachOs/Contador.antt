-- ===== src/NachOs/Contador.antt =====
-- The copies between memories and the program counters (nachOS/code/userprog/exception.cc).
use server_load_balancer_cli.Prelude.{
  ℕ, zero, suc, ◌≡◌, refl, Option, none, some, [], ◌∷◌, ◌∙◌, ◌++◌, arith,
}
use server_load_balancer_cli.Prelude.Int.{ℤ, pos, negsuc, ◌+ℤ◌}
use server_load_balancer_cli.Prelude.Text.{Bytes}
use server_load_balancer_cli.NachOs.Base.{
  Maquina, Registros, Acceso, hecho, excepcion, Fallo, no_exception, page_fault_exception,
  read_only_exception, bus_error_exception, address_error_exception, overflow_exception,
  illegal_instr_exception, pc_reg, next_pc_reg,
}
use server_load_balancer_cli.NachOs.Resultado.{
  Resultado, sigue, detenido, terminado, abortado, indefinido, luego, o_indefinido,
}
use server_load_balancer_cli.NachOs.Copia.{
  atender, leer_byte, leer_bytes, system_to_nachos, escribir_byte, escribir_bytes, nachos_to_system,
  char_de, int_de,
}

-- What holds of the value with which a step goes on.
abbrev pub Vale : {S A : Type 0} → (A → Type 0) → Resultado S A → Type 0
Vale P (sigue a) = P a
Vale P (detenido s) = Unit
Vale P (terminado s) = Unit
Vale P abortado = Unit
Vale P indefinido = Unit

pub Vale-luego :
    {S A B : Type 0} (P : A → Type 0) (Q : B → Type 0) (r : Resultado S A) (k : A → Resultado S B)
    → Vale P r
    → ((a : A) → P a → Vale Q (k a))
    → Vale Q (luego r k)
Vale-luego P Q (sigue a) k p h = h a p
Vale-luego P Q (detenido s) k p h = tt
Vale-luego P Q (terminado s) k p h = tt
Vale-luego P Q abortado k p h = tt
Vale-luego P Q indefinido k p h = tt

pub Vale-imp :
    {S A : Type 0} (P Q : A → Type 0) (r : Resultado S A)
    → Vale P r
    → ((a : A) → P a → Q a)
    → Vale Q r
Vale-imp P Q (sigue a) p h = h a p
Vale-imp P Q (detenido s) p h = tt
Vale-imp P Q (terminado s) p h = tt
Vale-imp P Q abortado p h = tt
Vale-imp P Q indefinido p h = tt

pub Vale-o_indefinido :
    (S : Type 0) {A : Type 0} (P : A → Type 0) (o : Option A)
    → ((a : A) → P a)
    → Vale P (o_indefinido {S = S} o)
Vale-o_indefinido S P none h = tt
Vale-o_indefinido S P (some a) h = h a

Vale-atender :
    (S : Type 0) {A : Type 0} (P : A → Type 0) (f : Fallo) (a : A)
    → P a
    → Vale P (atender {S = S} f a)
unfolding atender
Vale-atender S P no_exception a p = tt
Vale-atender S P page_fault_exception a p = p
Vale-atender S P read_only_exception a p = tt
Vale-atender S P bus_error_exception a p = tt
Vale-atender S P address_error_exception a p = tt
Vale-atender S P overflow_exception a p = tt
Vale-atender S P illegal_instr_exception a p = tt

module _ (m : Maquina) (r : Registros m) where
  -- Neither program counter has changed.
  abbrev pub Igual : m.Estado → m.Estado → Type 0
  Igual e f =
      (m.read_register f pc_reg ≡ m.read_register e pc_reg)
      × (m.read_register f next_pc_reg ≡ m.read_register e next_pc_reg)

  pub Igual-trans : (e f g : m.Estado) → Igual e f → Igual f g → Igual e g
  Igual-trans e f g h k = (k.0 ∙ h.0, k.1 ∙ h.1)

  -- A write to register 2 changes neither.
  pub Igual-respuesta : (e : m.Estado) (v : ℤ) → Igual e (m.WriteRegister e 2 v)
  Igual-respuesta e v = (
    r.read_other e 2 pc_reg v (λ h. omega arith),
    r.read_other e 2 next_pc_reg v (λ h. omega arith),
  )

  Igual-leer_byte :
      (S : Type 0) (a v : ℤ) (e : m.Estado) (x : Acceso m.Estado ℤ)
      → m.ReadMem e a ≡ x
      → Vale {S = S} (λ (p : ℤ × m.Estado). Igual e p.1) (leer_byte m x v e)
  unfolding leer_byte
  Igual-leer_byte S a v e (hecho w) h = (refl, refl)
  Igual-leer_byte S a v e (excepcion x f) h =
      Vale-atender S (λ (p : ℤ × m.Estado). Igual e p.1) x (v, f) (r.read_pc e f a x h)

  Igual-leer_bytes :
      (S : Type 0) (n : ℕ) (va : ℤ) (i : ℕ) (v : ℤ) (e : m.Estado)
      → Vale {S = S} (λ (p : Bytes × m.Estado). Igual e p.1) (leer_bytes m n va i v e)
  unfolding leer_bytes
  Igual-leer_bytes S zero va i v e = (refl, refl)
  Igual-leer_bytes S (suc n) va i v e =
      Vale-luego (λ (p : ℤ × m.Estado). Igual e p.1) (λ (p : Bytes × m.Estado). Igual e p.1)
        (leer_byte m (m.ReadMem e (va +ℤ pos i)) v e)
        (λ (w, e₂). luego (leer_bytes m n va (suc i) w e₂) (λ (bs, e₃). sigue (char_de w ∷ bs, e₃)))
        (Igual-leer_byte S (va +ℤ pos i) v e (m.ReadMem e (va +ℤ pos i)) refl)
        (λ (w, e₂). λ igual.
          Vale-luego (λ (p : Bytes × m.Estado). Igual e₂ p.1)
            (λ (p : Bytes × m.Estado). Igual e p.1) (leer_bytes m n va (suc i) w e₂)
            (λ (bs, e₃). sigue (char_de w ∷ bs, e₃)) (Igual-leer_bytes S n va (suc i) w e₂)
            (λ (bs, e₃). λ resto. Igual-trans e e₂ e₃ igual resto))

  pub Igual-system_to_nachos :
      (S : Type 0) (basura va size : ℤ) (e : m.Estado)
      → Vale {S = S} (λ (p : Bytes × m.Estado). Igual e p.1) (system_to_nachos m basura va size e)
  unfolding system_to_nachos
  Igual-system_to_nachos S basura va (pos n) e =
      Vale-luego (λ (p : Bytes × m.Estado). Igual e p.1) (λ (p : Bytes × m.Estado). Igual e p.1)
        (leer_bytes m n va 0 basura e) (λ (bs, e₂). sigue (bs ++ 0 ∷ [], e₂))
        (Igual-leer_bytes S n va 0 basura e) (λ (bs, e₂). λ h. h)
  Igual-system_to_nachos S basura va (negsuc zero) e = tt
  Igual-system_to_nachos S basura va (negsuc (suc n)) e = tt

  Igual-escribir_byte :
      (S : Type 0) (a v : ℤ) (e : m.Estado) (x : Acceso m.Estado m.Estado)
      → m.WriteMem e a v ≡ x
      → Vale {S = S} (Igual e) (escribir_byte m x)
  unfolding escribir_byte
  Igual-escribir_byte S a v e (hecho f) h = r.write_pc e f a v h
  Igual-escribir_byte S a v e (excepcion x f) h =
      Vale-atender S (Igual e) x f (r.fault_pc e f a v x h)

  Igual-escribir_bytes :
      (S : Type 0) (n : ℕ) (va : ℤ) (i : ℕ) (bs : Bytes) (e : m.Estado)
      → Vale {S = S} (Igual e) (escribir_bytes m n va i bs e)
  unfolding escribir_bytes
  Igual-escribir_bytes S zero va i bs e = (refl, refl)
  Igual-escribir_bytes S (suc n) va i [] e = tt
  Igual-escribir_bytes S (suc n) va i (c ∷ bs) e =
      Vale-luego (Igual e) (Igual e) (escribir_byte m (m.WriteMem e (va +ℤ pos i) (int_de c)))
        (λ e₂. escribir_bytes m n va (suc i) bs e₂)
        (Igual-escribir_byte S (va +ℤ pos i) (int_de c) e (m.WriteMem e (va +ℤ pos i) (int_de c))
          refl)
        (λ e₂. λ igual.
          Vale-imp (Igual e₂) (Igual e) (escribir_bytes m n va (suc i) bs e₂)
            (Igual-escribir_bytes S n va (suc i) bs e₂) (λ e₃. Igual-trans e e₂ e₃ igual))

  pub Igual-nachos_to_system :
      (S : Type 0) (va : ℤ) (buffer : Bytes) (size : ℤ) (e : m.Estado)
      → Vale {S = S} (λ (p : ℤ × m.Estado). Igual e p.1) (nachos_to_system m va buffer size e)
  unfolding nachos_to_system
  Igual-nachos_to_system S va buffer (negsuc n) e = (refl, refl)
  Igual-nachos_to_system S va buffer (pos zero) e = (refl, refl)
  Igual-nachos_to_system S va buffer (pos (suc n)) e =
      Vale-luego (Igual e) (λ (p : ℤ × m.Estado). Igual e p.1)
        (escribir_bytes m (suc n) va 0 buffer e) (λ e₂. sigue (pos (suc n), e₂))
        (Igual-escribir_bytes S (suc n) va 0 buffer e) (λ e₂. λ h. h)
