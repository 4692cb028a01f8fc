-- ===== src/NachOs/Cola.antt =====
-- The queue of a `Mutex` (nachOS/code/threads/synch.cc): who waits in it, and who stays inside meanwhile.
use server_load_balancer_cli.Prelude.{
  ℕ, zero, suc, ◌≡◌, ◌≢◌, refl, sym, ◌∙◌, ap, ◌⊎◌, inl, inr, some, some_inj, List, [], ◌∷◌, ◌++◌,
  set, get_elem?, get_elem?-set_self, get_elem?-set_ne, get_elem?-lt_length, ◌==◌, arith,
  Bool-cases, if◌then◌else◌,
}
use server_load_balancer_cli.NachOs.Synch.{
  semaphore_p, semaphore_v, primero_de, resto_de, Fase, fuera, pide, duerme, dentro, libera, limpia,
  Cerrojo, es_de, despertar, mutex_lock, esperar, mutex_unlock, soltar, borrar, Mueve, cierra,
  intenta, abre, suelta, termina,
}

-- What stands at a place after a write there or elsewhere.
pub get_elem?-set_cases {ℓ} :
    {A : Type ℓ} (xs : List A) (t u : ℕ) (v w : A)
    → get_elem? (set xs t v) u ≡ some w
    → ((t ≡ u) × (w ≡ v)) ⊎ ((t ≢ u) × (get_elem? xs u ≡ some w))
get_elem?-set_cases [] t u v w h = cc
get_elem?-set_cases (x ∷ xs) zero zero v w h = inl (refl, sym (some_inj h))
get_elem?-set_cases (x ∷ xs) zero (suc u) v w h = inr (λ e. omega arith, h)
get_elem?-set_cases (x ∷ xs) (suc t) zero v w h = inr (λ e. omega arith, h)
get_elem?-set_cases (x ∷ xs) (suc t) (suc u) v w h = elim (get_elem?-set_cases xs t u v w h) [
  | inl (e, f) ↦ inl (ap suc e, f)
  | inr (e, f) ↦ inr (λ z. e (omega arith), f)
]

abbrev pub Ausente : ℕ → List ℕ → Type 0
Ausente t [] = Unit
Ausente t (u ∷ q) = (u ≢ t) × Ausente t q

-- The threads of the queue sleep, each once in it.
abbrev pub Duermen : List ℕ → List Fase → Type 0
Duermen [] fs = Unit
Duermen (u ∷ q) fs = (get_elem? fs u ≡ some duerme) × Ausente u q × Duermen q fs

Duermen-set :
    (q : List ℕ) (fs : List Fase) (t : ℕ) (f : Fase)
    → Ausente t q
    → Duermen q fs
    → Duermen q (set fs t f)
Duermen-set [] fs t f a d = tt
Duermen-set (u ∷ q) fs t f (ne, a) (en, sola, d) =
    (get_elem?-set_ne fs f (λ e. ne (sym e)) ∙ en, sola, Duermen-set q fs t f a d)

Ausente-of :
    (q : List ℕ) (fs : List Fase) (t : ℕ) (g : Fase)
    → get_elem? fs t ≡ some g
    → g ≢ duerme
    → Duermen q fs
    → Ausente t q
Ausente-of [] fs t g h ne d = tt
Ausente-of (u ∷ q) fs t g h ne (en, sola, d) =
    (λ e. ne (some_inj (sym h ∙ ap (get_elem? fs) (sym e) ∙ en)), Ausente-of q fs t g h ne d)

Ausente-append : (t u : ℕ) (q : List ℕ) → Ausente t q → u ≢ t → Ausente t (q ++ u ∷ [])
Ausente-append t u [] a ne = (ne, tt)
Ausente-append t u (w ∷ q) (x, a) ne = (x, Ausente-append t u q a ne)

Duermen-append :
    (q : List ℕ) (fs : List Fase) (t : ℕ)
    → Ausente t q
    → get_elem? fs t ≡ some duerme
    → Duermen q fs
    → Duermen (q ++ t ∷ []) fs
Duermen-append [] fs t a h d = (h, tt, tt)
Duermen-append (u ∷ q) fs t (ne, a) h (en, sola, d) =
    (en, Ausente-append u t q sola (λ e. ne (sym e)), Duermen-append q fs t a h d)

abbrev pub Ordenado : Cerrojo → Type 0
Ordenado c = Duermen c.semaforo.queue c.fases

-- A move of a thread that is awake to a phase other than sleep.
cambia :
    (q : List ℕ) (fs : List Fase) (t : ℕ) (g f : Fase)
    → get_elem? fs t ≡ some g
    → g ≢ duerme
    → Duermen q fs
    → Duermen q (set fs t f)
cambia q fs t g f h ne d = Duermen-set q fs t f (Ausente-of q fs t g h ne d) d

Duermen-despertar :
    (q : List ℕ) (fs : List Fase)
    → Duermen q fs
    → Duermen (resto_de q) (despertar (primero_de q) fs)
Duermen-despertar [] fs d = tt
Duermen-despertar (u ∷ q) fs (en, sola, d) = Duermen-set q fs u pide sola d

pub Mueve-Ordenado : {c d : Cerrojo} → Mueve c d → Ordenado c → Ordenado d
unfolding mutex_lock esperar mutex_unlock soltar borrar semaphore_p semaphore_v
Mueve-Ordenado (cierra c t h) o = cambia c.semaforo.queue c.fases t fuera pide h (λ e. cc) o
Mueve-Ordenado (intenta c t h) o = elim (Bool-cases (c.semaforo.value == 0)) [
  | inl e ↦
      let a = Ausente-of c.semaforo.queue c.fases t pide h (λ z. cc) o in
      rw e (
        Duermen-append c.semaforo.queue (set c.fases t duerme) t a
          (get_elem?-set_self c.fases t duerme (get_elem?-lt_length c.fases t h))
          (Duermen-set c.semaforo.queue c.fases t duerme a o))
  | inr e ↦ rw e (cambia c.semaforo.queue c.fases t pide dentro h (λ z. cc) o)
]
Mueve-Ordenado (abre c t h) o = elim (Bool-cases (es_de c.holding_thread t)) [
  | inl e ↦ rw e (cambia c.semaforo.queue c.fases t dentro libera h (λ z. cc) o)
  | inr e ↦ rw e (cambia c.semaforo.queue c.fases t dentro limpia h (λ z. cc) o)
]
Mueve-Ordenado (suelta c t h) o =
    Duermen-despertar c.semaforo.queue (set c.fases t limpia)
      (cambia c.semaforo.queue c.fases t libera limpia h (λ z. cc) o)
Mueve-Ordenado (termina c t h) o = cambia c.semaforo.queue c.fases t limpia fuera h (λ e. cc) o

-- The move is not an unlock of the thread.
abbrev pub SinAbrir : {c d : Cerrojo} → Mueve c d → ℕ → Type 0
SinAbrir (abre c t h) u = t ≢ u
SinAbrir (cierra c t h) u = Unit
SinAbrir (intenta c t h) u = Unit
SinAbrir (suelta c t h) u = Unit
SinAbrir (termina c t h) u = Unit

-- Another thread, or one in another phase, moves.
sigue_dentro :
    (fs : List Fase) (t u : ℕ) (f g : Fase)
    → get_elem? fs t ≡ some g
    → g ≢ dentro
    → get_elem? fs u ≡ some dentro
    → get_elem? (set fs t f) u ≡ some dentro
sigue_dentro fs t u f g h ne k =
    get_elem?-set_ne fs f (λ e. ne (some_inj (sym h ∙ ap (get_elem? fs) e ∙ k))) ∙ k

despierta_dentro :
    (q : List ℕ) (fs : List Fase) (u : ℕ)
    → Duermen q fs
    → get_elem? fs u ≡ some dentro
    → get_elem? (despertar (primero_de q) fs) u ≡ some dentro
despierta_dentro [] fs u d k = k
despierta_dentro (w ∷ q) fs u (en, sola, d) k = sigue_dentro fs w u pide duerme en (λ z. cc) k

-- Who is inside stays inside until it unlocks.
pub Mueve-dentro :
    {c d : Cerrojo} (m : Mueve c d) (u : ℕ)
    → SinAbrir m u
    → Ordenado c
    → get_elem? c.fases u ≡ some dentro
    → get_elem? d.fases u ≡ some dentro
unfolding mutex_lock esperar mutex_unlock soltar borrar semaphore_p semaphore_v
Mueve-dentro (cierra c t h) u s o k = sigue_dentro c.fases t u pide fuera h (λ z. cc) k
Mueve-dentro (intenta c t h) u s o k = elim (Bool-cases (c.semaforo.value == 0)) [
  | inl e ↦ rw e (sigue_dentro c.fases t u duerme pide h (λ z. cc) k)
  | inr e ↦ rw e (sigue_dentro c.fases t u dentro pide h (λ z. cc) k)
]
Mueve-dentro (abre c t h) u s o k =
    get_elem?-set_ne c.fases (if es_de c.holding_thread t then libera else limpia) s ∙ k
Mueve-dentro (suelta c t h) u s o k =
    despierta_dentro c.semaforo.queue (set c.fases t limpia) u
      (cambia c.semaforo.queue c.fases t libera limpia h (λ z. cc) o)
      (sigue_dentro c.fases t u limpia libera h (λ z. cc) k)
Mueve-dentro (termina c t h) u s o k = sigue_dentro c.fases t u fuera limpia h (λ z. cc) k
