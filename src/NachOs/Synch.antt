-- ===== src/NachOs/Synch.antt =====
-- Semaphores, `Mutex` and `Lock` (nachOS/code/threads/synch.cc), as the moves of threads that may be
-- interleaved wherever interrupts are on. A thread is its place in the list of phases.
use server_load_balancer_cli.Prelude.{
  ℕ, ◌+◌, ◌-◌, ◌≡◌, Bool, true, false, Option, none, some, List, [], ◌∷◌, ◌++◌, set, get_elem?,
  ◌==◌, if◌then◌else◌,
}

pub record Semaphore : Type 0 where
  pub value : ℕ
  pub queue : List ℕ

-- One pass of the loop of `P`: the semaphore is taken, or the thread goes to the queue and sleeps.
unfoldable pub semaphore_p : Semaphore → ℕ → Bool × Semaphore
semaphore_p s thread =
    if s.value == 0
    then (false, record s { queue = s.queue ++ thread ∷ [] })
    else (true, record s { value = s.value - 1 })

abbrev pub primero_de : List ℕ → Option ℕ
primero_de [] = none
primero_de (t ∷ ts) = some t

abbrev pub resto_de : List ℕ → List ℕ
resto_de [] = []
resto_de (t ∷ ts) = ts

-- `V`: the thread that wakes, if any, and the semaphore.
unfoldable pub semaphore_v : Semaphore → Option ℕ × Semaphore
semaphore_v s = (primero_de s.queue, record { value = s.value + 1; queue = resto_de s.queue })

-- `Destroy`: the threads that are made ready, in their order, and the semaphore.
unfoldable pub semaphore_destroy : Semaphore → List ℕ × Semaphore
semaphore_destroy s = (s.queue, record s { queue = [] })

-- Where a thread is: outside; before a pass of `P`; asleep; behind `P`, before `holdingThread` is set
-- (`Lock`); inside; before the `V` of a release; before the `NULL` of a release.
pub data Fase : Type 0 where
  fuera : Fase
  pide : Fase
  duerme : Fase
  anota : Fase
  dentro : Fase
  libera : Fase
  limpia : Fase

-- The object and the threads. `Mutex` and `Lock` have the same fields.
pub record Cerrojo : Type 0 where
  pub semaforo : Semaphore
  pub holding_thread : Option ℕ
  pub fases : List Fase

-- `new Semaphore(…, 1)`; `holdingThread` is not initialised.
abbrev pub cerrojo_nuevo : Option ℕ → List Fase → Cerrojo
cerrojo_nuevo basura fases = record {
  semaforo = record { value = 1; queue = [] };
  holding_thread = basura;
  fases = fases;
}

abbrev pub es_de : Option ℕ → ℕ → Bool
es_de none t = false
es_de (some h) t = h == t

abbrev pub pasar : Cerrojo → ℕ → Fase → Cerrojo
pasar c t f = record c { fases = set c.fases t f }

-- `Scheduler::ReadyToRun` of the thread that `V` takes off the queue, which makes another pass of `P`.
abbrev pub despertar : Option ℕ → List Fase → List Fase
despertar none fs = fs
despertar (some t) fs = set fs t pide

-- `Mutex::Lock` sets `holdingThread` before it waits.
unfoldable pub mutex_lock : Cerrojo → ℕ → Cerrojo
mutex_lock c t = pasar (record c { holding_thread = some t }) t pide

-- A pass of `P`; `tras` is where the thread goes on.
unfoldable pub esperar : Fase → Cerrojo → ℕ → Cerrojo
unfolding semaphore_p
esperar tras c t =
    let (tomado, s) = semaphore_p c.semaforo t in
    pasar (record c { semaforo = s }) t (if tomado then tras else duerme)

-- `Mutex::Unlock`: the test, the `V`, and `holdingThread = NULL`, which is done in either case.
unfoldable pub mutex_unlock : Cerrojo → ℕ → Cerrojo
mutex_unlock c t = pasar c t (if es_de c.holding_thread t then libera else limpia)

unfoldable pub soltar : Cerrojo → ℕ → Cerrojo
unfolding semaphore_v
soltar c t =
    let (despierto, s) = semaphore_v c.semaforo in
    record c { semaforo = s; fases = despertar despierto (set c.fases t limpia) }

unfoldable pub borrar : Cerrojo → ℕ → Cerrojo
borrar c t = pasar (record c { holding_thread = none }) t fuera

-- `Lock::Acquire`: a thread that finds a holder goes on without the lock.
unfoldable pub lock_acquire : Cerrojo → ℕ → Cerrojo
lock_acquire c t = pasar c t (entrada c.holding_thread)
  where
    entrada : Option ℕ → Fase
    entrada none = pide
    entrada (some h) = dentro

unfoldable pub lock_anota : Cerrojo → ℕ → Cerrojo
lock_anota c t = pasar (record c { holding_thread = some t }) t dentro

-- `Lock::Release` of a thread that does not hold the lock does nothing.
unfoldable pub lock_release : Cerrojo → ℕ → Cerrojo
lock_release c t = pasar c t (if es_de c.holding_thread t then libera else fuera)

-- The moves on a `Mutex` of threads that unlock only what they have locked.
pub data Mueve : Cerrojo → Cerrojo → Type 0 where
  cierra : (c : Cerrojo) (t : ℕ) → get_elem? c.fases t ≡ some fuera → Mueve c (mutex_lock c t)
  intenta : (c : Cerrojo) (t : ℕ) → get_elem? c.fases t ≡ some pide → Mueve c (esperar dentro c t)
  abre : (c : Cerrojo) (t : ℕ) → get_elem? c.fases t ≡ some dentro → Mueve c (mutex_unlock c t)
  suelta : (c : Cerrojo) (t : ℕ) → get_elem? c.fases t ≡ some libera → Mueve c (soltar c t)
  termina : (c : Cerrojo) (t : ℕ) → get_elem? c.fases t ≡ some limpia → Mueve c (borrar c t)

pub data Llega (c : Cerrojo) : Cerrojo → Type 0 where
  aqui : Llega c c
  sigue_con : {d e : Cerrojo} → Llega c d → Mueve d e → Llega c e

-- The moves on a `Lock`.
pub data MueveLock : Cerrojo → Cerrojo → Type 0 where
  adquiere :
      (c : Cerrojo) (t : ℕ) → get_elem? c.fases t ≡ some fuera → MueveLock c (lock_acquire c t)
  espera : (c : Cerrojo) (t : ℕ) → get_elem? c.fases t ≡ some pide → MueveLock c (esperar anota c t)
  apunta : (c : Cerrojo) (t : ℕ) → get_elem? c.fases t ≡ some anota → MueveLock c (lock_anota c t)
  deja : (c : Cerrojo) (t : ℕ) → get_elem? c.fases t ≡ some dentro → MueveLock c (lock_release c t)
  suelta : (c : Cerrojo) (t : ℕ) → get_elem? c.fases t ≡ some libera → MueveLock c (soltar c t)
  termina : (c : Cerrojo) (t : ℕ) → get_elem? c.fases t ≡ some limpia → MueveLock c (borrar c t)
