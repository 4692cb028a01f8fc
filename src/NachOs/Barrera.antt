-- ===== src/NachOs/Barrera.antt =====
-- `Barrier` (nachOS/code/threads/synch.cc), as the moves of threads that are interleaved. The decrement of
-- the counter is a read and a write, with other threads between them.
use server_load_balancer_cli.Prelude.{
  ℕ, zero, suc, ◌+◌, ◌≡◌, ap, Option, some, some_inj, List, [], ◌∷◌, set, get_elem?, arith,
}
use server_load_balancer_cli.Prelude.Int.{ℤ, pos, ◌-ℤ◌, ◌≤ℤ◌}
use server_load_balancer_cli.NachOs.Synch.{
  Cerrojo, cerrojo_nuevo, fuera, dentro, Mueve, cierra, intenta, abre, suelta, termina,
}
use server_load_balancer_cli.NachOs.Exclusion.{fueras}

-- Where a thread is in `Wait`: before the decrement; behind the read of `counter`, with what it read;
-- behind the write; behind the read of `WaitMutex`; and behind the loop.
pub data Lugar : Type 0 where
  entra : Lugar
  carga : ℤ → Lugar
  mira : Lugar
  vista : ℤ → Lugar
  pasa : Lugar

pub record Barrera : Type 0 where
  pub contador : Cerrojo
  pub barrera : Cerrojo
  pub counter : ℤ
  pub lugares : List Lugar

-- `contador` is locked to decrement, and unlocked behind the write.
abbrev pub EnContador : {c d : Cerrojo} → Mueve c d → List Lugar → Type 0
EnContador (cierra c t h) ls = get_elem? ls t ≡ some entra
EnContador (abre c t h) ls = get_elem? ls t ≡ some mira
EnContador (intenta c t h) ls = Unit
EnContador (suelta c t h) ls = Unit
EnContador (termina c t h) ls = Unit

-- `barrera` is locked to look at the counter, when `contador` is left, and unlocked behind the read.
abbrev pub EnBarrera : {c d : Cerrojo} → Mueve c d → Cerrojo → List Lugar → Type 0
EnBarrera (cierra c t h) k ls = (get_elem? ls t ≡ some mira) × (get_elem? k.fases t ≡ some fuera)
EnBarrera (abre c t h) k ls = (v : ℤ) × (get_elem? ls t ≡ some (vista v))
EnBarrera (intenta c t h) k ls = Unit
EnBarrera (suelta c t h) k ls = Unit
EnBarrera (termina c t h) k ls = Unit

-- The moves of `Wait` and `WaitMutex`.
pub data PasoBarrera : Barrera → Barrera → Type 0 where
  en_contador :
      (b : Barrera) {c : Cerrojo} (m : Mueve b.contador c)
      → EnContador m b.lugares
      → PasoBarrera b (record b { contador = c })
  en_barrera :
      (b : Barrera) {c : Cerrojo} (m : Mueve b.barrera c)
      → EnBarrera m b.contador b.lugares
      → PasoBarrera b (record b { barrera = c })
  lee :
      (b : Barrera) (t : ℕ)
      → get_elem? b.lugares t ≡ some entra
      → get_elem? b.contador.fases t ≡ some dentro
      → PasoBarrera b (record b { lugares = set b.lugares t (carga b.counter) })
  guarda :
      (b : Barrera) (t : ℕ) (v : ℤ)
      → get_elem? b.lugares t ≡ some (carga v)
      → PasoBarrera b (record b { counter = v -ℤ pos 1; lugares = set b.lugares t mira })
  ve :
      (b : Barrera) (t : ℕ)
      → get_elem? b.lugares t ≡ some mira
      → get_elem? b.barrera.fases t ≡ some dentro
      → PasoBarrera b (record b { lugares = set b.lugares t (vista b.counter) })
  sale :
      (b : Barrera) (t : ℕ) (v : ℤ)
      → get_elem? b.lugares t ≡ some (vista v)
      → get_elem? b.barrera.fases t ≡ some fuera
      → v ≤ℤ pos 0
      → PasoBarrera b (record b { lugares = set b.lugares t pasa })
  vuelve :
      (b : Barrera) (t : ℕ) (v : ℤ)
      → get_elem? b.lugares t ≡ some (vista v)
      → get_elem? b.barrera.fases t ≡ some fuera
      → pos 1 ≤ℤ v
      → PasoBarrera b (record b { lugares = set b.lugares t mira })

pub data LlegaBarrera (b : Barrera) : Barrera → Type 0 where
  aqui : LlegaBarrera b b
  y_paso : {c d : Barrera} → LlegaBarrera b c → PasoBarrera c d → LlegaBarrera b d

-- Has the thread decremented the counter?
abbrev pub ha_llegado : Lugar → ℕ
ha_llegado entra = 0
ha_llegado (carga v) = 0
ha_llegado mira = 1
ha_llegado (vista v) = 1
ha_llegado pasa = 1

abbrev pub llegados : List Lugar → ℕ
llegados [] = 0
llegados (l ∷ ls) = ha_llegado l + llegados ls

pub llegados-set :
    (ls : List Lugar) (t : ℕ) (l : Lugar) {k : Lugar}
    → get_elem? ls t ≡ some k
    → llegados (set ls t l) + ha_llegado k ≡ llegados ls + ha_llegado l
llegados-set [] t l h = cc
llegados-set (x ∷ ls) zero l h = omega (arith, ap ha_llegado (some_inj h))
llegados-set (x ∷ ls) (suc t) l h = omega (arith, llegados-set ls t l h)

abbrev pub entran : ℕ → List Lugar
entran zero = []
entran (suc n) = entra ∷ entran n

-- A new barrier for `count` threads and `n` threads before it; `holdingThread` is not initialised.
abbrev pub barrera_nueva : Option ℕ → Option ℕ → ℕ → ℕ → Barrera
barrera_nueva basura basura' count n = record {
  contador = cerrojo_nuevo basura (fueras n);
  barrera = cerrojo_nuevo basura' (fueras n);
  counter = pos count;
  lugares = entran n;
}
