-- ===== src/NachOs/Resultado.antt =====
-- How a step of the kernel ends (nachOS/code/userprog).
use server_load_balancer_cli.Prelude.{Option, none, some}

-- How a step of the kernel ends: it goes on, the machine halts, the thread finishes, an ASSERT or
-- `new` fails, or the behaviour is undefined.
pub data Resultado (S A : Type 0) : Type 0 where
  sigue : A → Resultado S A
  detenido : S → Resultado S A
  terminado : S → Resultado S A
  abortado : Resultado S A
  indefinido : Resultado S A

abbrev pub luego : {S A B : Type 0} → Resultado S A → (A → Resultado S B) → Resultado S B
luego (sigue a) k = k a
luego (detenido s) k = detenido s
luego (terminado s) k = terminado s
luego abortado k = abortado
luego indefinido k = indefinido

-- An access outside an array.
abbrev pub o_indefinido : {S A : Type 0} → Option A → Resultado S A
o_indefinido none = indefinido
o_indefinido (some a) = sigue a
