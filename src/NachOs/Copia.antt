-- ===== src/NachOs/Copia.antt =====
-- The copies between the user program's memory and the kernel's (nachOS/code/userprog/exception.cc).
use server_load_balancer_cli.Prelude.{ℕ, zero, suc, ◌%◌, ◌-◌, [], ◌∷◌, ◌++◌, ltb, if◌then◌else◌}
use server_load_balancer_cli.Prelude.Int.{ℤ, pos, negsuc, ◌+ℤ◌, size_t}
use server_load_balancer_cli.Prelude.Text.{Bytes}
use server_load_balancer_cli.NachOs.Base.{
  Maquina, Fallo, Acceso, hecho, excepcion, page_fault_exception, pc_reg, next_pc_reg, prev_pc_reg,
}
use server_load_balancer_cli.NachOs.Resultado.{Resultado, sigue, abortado, indefinido, luego}

-- A `char` as the low byte of an `int`, and as an `int`.
abbrev pub char_de : ℤ → ℕ
char_de z = size_t z % 256

abbrev pub int_de : ℕ → ℤ
int_de c = if ltb c 128 then pos c else negsuc (255 - c)

-- The handler of an exception that an access to memory raises: a page fault returns, and the access is
-- lost; the others are a failed ASSERT.
unfoldable pub atender : {S A : Type 0} → Fallo → A → Resultado S A
atender page_fault_exception a = sigue a
atender f a = abortado

module _ (m : Maquina) where
  -- `PrevPC`, `PC` and `NextPC` move on by one instruction.
  unfoldable pub return_from_system_call : m.Estado → m.Estado
  return_from_system_call e =
      let pc = m.read_register e pc_reg in
      let npc = m.read_register e next_pc_reg in
      m.WriteRegister (m.WriteRegister (m.WriteRegister e prev_pc_reg pc) pc_reg npc) next_pc_reg
        (npc +ℤ pos 4)

module _ (m : Maquina) {S : Type 0} where
  unfoldable pub leer_byte : Acceso m.Estado ℤ → ℤ → m.Estado → Resultado S (ℤ × m.Estado)
  unfolding atender
  leer_byte (hecho v) buffer_local e = sigue (v, e)
  leer_byte (excepcion x f) buffer_local e = atender x (buffer_local, f)

  -- The loop of `systemToNachos`: the bytes from `va + i` on, `n` of them. Where the read fails,
  -- `buffer_local` is as before.
  unfoldable pub leer_bytes : ℕ → ℤ → ℕ → ℤ → m.Estado → Resultado S (Bytes × m.Estado)
  unfolding leer_byte
  leer_bytes zero va i buffer_local e = sigue ([], e)
  leer_bytes (suc n) va i buffer_local e =
      luego (leer_byte (m.ReadMem e (va +ℤ pos i)) buffer_local e)
        (λ (v, e₂). luego (leer_bytes n va (suc i) v e₂) (λ (bs, e₃). sigue (char_de v ∷ bs, e₃)))

  -- `new char[size + 1]` for a negative size: `size + 1` is 0, and the last byte is stored at -1; or the
  -- allocation throws.
  unfoldable pub system_to_nachos : ℤ → ℤ → ℤ → m.Estado → Resultado S (Bytes × m.Estado)
  unfolding leer_bytes
  system_to_nachos basura va (pos n) e =
      luego (leer_bytes n va 0 basura e) (λ (bs, e₂). sigue (bs ++ 0 ∷ [], e₂))
  system_to_nachos basura va (negsuc zero) e = indefinido
  system_to_nachos basura va (negsuc (suc n)) e = abortado

  unfoldable pub escribir_byte : Acceso m.Estado m.Estado → Resultado S m.Estado
  unfolding atender
  escribir_byte (hecho e) = sigue e
  escribir_byte (excepcion x f) = atender x f

  -- The loop of `nachosToSystem`; a buffer that is too short is read outside.
  unfoldable pub escribir_bytes : ℕ → ℤ → ℕ → Bytes → m.Estado → Resultado S m.Estado
  unfolding escribir_byte
  escribir_bytes zero va i bs e = sigue e
  escribir_bytes (suc n) va i [] e = indefinido
  escribir_bytes (suc n) va i (c ∷ bs) e =
      luego (escribir_byte (m.WriteMem e (va +ℤ pos i) (int_de c)))
        (λ e₂. escribir_bytes n va (suc i) bs e₂)

  unfoldable pub nachos_to_system : ℤ → Bytes → ℤ → m.Estado → Resultado S (ℤ × m.Estado)
  unfolding escribir_bytes
  nachos_to_system va buffer (negsuc n) e = sigue (negsuc 0, e)
  nachos_to_system va buffer (pos zero) e = sigue (pos 0, e)
  nachos_to_system va buffer (pos (suc n)) e =
      luego (escribir_bytes (suc n) va 0 buffer e) (λ e₂. sigue (pos (suc n), e₂))
