-- ===== src/NachOs/Exclusion.antt =====
-- Mutual exclusion of `Mutex`, and the state in which it is lost for good
-- (nachOS/code/threads/synch.cc).
use server_load_balancer_cli.Prelude.{
  ℕ, zero, suc, ◌+◌, ◌≤◌, ◌≡◌, ◌≢◌, refl, ap, Option, none, some, some_inj, List, [], ◌∷◌, set,
  get_elem?, ◌==◌, arith, Bool-cases, inl, inr,
}
use server_load_balancer_cli.NachOs.Synch.{
  semaphore_p, semaphore_v, primero_de, Fase, fuera, pide, duerme, anota, dentro, libera, limpia,
  Cerrojo, cerrojo_nuevo, es_de, despertar, mutex_lock, esperar, mutex_unlock, soltar, borrar,
  Mueve, cierra, intenta, abre, suelta, termina, Llega, aqui, sigue_con,
}

-- The threads that have taken the semaphore and not given it back.
abbrev pub toma : Fase → ℕ
toma fuera = 0
toma pide = 0
toma duerme = 0
toma anota = 1
toma dentro = 1
toma libera = 1
toma limpia = 0

abbrev pub tomados : List Fase → ℕ
tomados [] = 0
tomados (f ∷ fs) = toma f + tomados fs

tomados-set :
    (fs : List Fase) (t : ℕ) (f : Fase) {g : Fase}
    → get_elem? fs t ≡ some g
    → tomados (set fs t f) + toma g ≡ tomados fs + toma f
tomados-set [] t f h = cc
tomados-set (k ∷ fs) zero f h = omega (arith, ap toma (some_inj h))
tomados-set (k ∷ fs) (suc t) f h = omega (arith, tomados-set fs t f h)

tomados-set-pide : (fs : List Fase) (t : ℕ) → tomados (set fs t pide) ≤ tomados fs
tomados-set-pide [] t = omega arith
tomados-set-pide (k ∷ fs) zero = omega arith
tomados-set-pide (k ∷ fs) (suc t) = omega (arith, tomados-set-pide fs t)

tomados-despertar : (o : Option ℕ) (fs : List Fase) → tomados (despertar o fs) ≤ tomados fs
tomados-despertar none fs = omega arith
tomados-despertar (some t) fs = tomados-set-pide fs t

-- The semaphore's value and the threads that have it are never more than one together.
abbrev pub IsUnico : Cerrojo → Type 0
IsUnico c = c.semaforo.value + tomados c.fases ≤ 1

pub Mueve-IsUnico : {c d : Cerrojo} → Mueve c d → IsUnico c → IsUnico d
unfolding mutex_lock esperar mutex_unlock soltar borrar semaphore_p semaphore_v
Mueve-IsUnico (cierra c t h) u = omega (arith, tomados-set c.fases t pide h)
Mueve-IsUnico (intenta c t h) u = elim (Bool-cases (c.semaforo.value == 0)) [
  | inl e ↦ rw e (omega (arith, tomados-set c.fases t duerme h))
  | inr e ↦ rw e (ground (arith, tomados-set c.fases t dentro h))
]
Mueve-IsUnico (abre c t h) u = elim (Bool-cases (es_de c.holding_thread t)) [
  | inl e ↦ rw e (omega (arith, tomados-set c.fases t libera h))
  | inr e ↦ rw e (omega (arith, tomados-set c.fases t limpia h))
]
Mueve-IsUnico (suelta c t h) u = omega (
  arith,
  tomados-set c.fases t limpia h,
  tomados-despertar (primero_de c.semaforo.queue) (set c.fases t limpia),
)
Mueve-IsUnico (termina c t h) u = omega (arith, tomados-set c.fases t fuera h)

Llega-IsUnico : {c d : Cerrojo} → Llega c d → IsUnico c → IsUnico d
Llega-IsUnico aqui u = u
Llega-IsUnico (sigue_con r p) u = Mueve-IsUnico p (Llega-IsUnico r u)

tomados-at : (fs : List Fase) (t : ℕ) {f : Fase} → get_elem? fs t ≡ some f → toma f ≤ tomados fs
tomados-at [] t h = cc
tomados-at (k ∷ fs) zero h = omega (arith, ap toma (some_inj h))
tomados-at (k ∷ fs) (suc t) h = omega (arith, tomados-at fs t h)

pub tomados_two :
    (fs : List Fase) (t u : ℕ) {f g : Fase}
    → t ≢ u
    → get_elem? fs t ≡ some f
    → get_elem? fs u ≡ some g
    → toma f + toma g ≤ tomados fs
tomados_two [] t u ne h k = cc
tomados_two (x ∷ fs) zero zero ne h k = absurd (ne refl)
tomados_two (x ∷ fs) zero (suc u) ne h k = omega (arith, ap toma (some_inj h), tomados-at fs u k)
tomados_two (x ∷ fs) (suc t) zero ne h k = omega (arith, ap toma (some_inj k), tomados-at fs t h)
tomados_two (x ∷ fs) (suc t) (suc u) ne h k =
    omega (arith, tomados_two fs t u (λ e. ne (ap suc e)) h k)

abbrev pub fueras : ℕ → List Fase
fueras zero = []
fueras (suc n) = fuera ∷ fueras n

pub tomados-fueras : (n : ℕ) → tomados (fueras n) ≡ 0
tomados-fueras zero = refl
tomados-fueras (suc n) = omega (arith, tomados-fueras n)

-- However the threads that use a new `Mutex` are interleaved, with whatever stands in its
-- uninitialised `holdingThread`, while one is inside no other is.
pub Llega-exclusion :
    (basura : Option ℕ) (n : ℕ) {c : Cerrojo} (t u : ℕ)
    → Llega (cerrojo_nuevo basura (fueras n)) c
    → t ≢ u
    → get_elem? c.fases t ≡ some dentro
    → get_elem? c.fases u ≢ some dentro
Llega-exclusion basura n {c} t u r ne h k =
    let unico : IsUnico c = Llega-IsUnico r (omega (arith, tomados-fueras n)) in
    omega (arith, tomados_two c.fases t u ne h k)

-- The semaphore is 0 and nobody has it.
abbrev pub IsBloqueado : Cerrojo → Type 0
IsBloqueado c = (c.semaforo.value ≡ 0) × (tomados c.fases ≡ 0)

-- A `Mutex` that is 0 with nobody inside stays so: no thread that asks gets in.
Mueve-IsBloqueado : {c d : Cerrojo} → Mueve c d → IsBloqueado c → IsBloqueado d
unfolding mutex_lock esperar mutex_unlock soltar borrar semaphore_p semaphore_v
Mueve-IsBloqueado (cierra c t h) b = (b.0, omega (arith, tomados-set c.fases t pide h, b.1))
Mueve-IsBloqueado (intenta c t h) b =
    rw b.0 (refl, omega (arith, tomados-set c.fases t duerme h, b.1))
Mueve-IsBloqueado (abre c t h) b = absurd (omega (arith, tomados-at c.fases t h, b.1))
Mueve-IsBloqueado (suelta c t h) b = absurd (omega (arith, tomados-at c.fases t h, b.1))
Mueve-IsBloqueado (termina c t h) b = (b.0, omega (arith, tomados-set c.fases t fuera h, b.1))

pub Llega-IsBloqueado : {c d : Cerrojo} → Llega c d → IsBloqueado c → IsBloqueado d
Llega-IsBloqueado aqui b = b
Llega-IsBloqueado (sigue_con r p) b = Mueve-IsBloqueado p (Llega-IsBloqueado r b)
