-- ===== src/NachOs/Condicion.antt =====
-- `Condition` (nachOS/code/threads/synch.cc) over a `Lock`. A call is one step, up to the sleep in `Wait`;
-- the `Acquire` behind the sleep is a move of the lock.
use server_load_balancer_cli.Prelude.{
  ℕ, ◌≡◌, refl, ap, ◌∙◌, Bool, true, Option, none, some, List, [], ◌∷◌, ◌++◌, if◌then◌else◌,
  append_assoc, append-nil, Bool-cases, inl, inr, sym, ◌>>=◌,
}
use server_load_balancer_cli.NachOs.Synch.{Cerrojo, es_de, soltar, borrar}

-- The lock, the waiting threads, and those that were given to `Scheduler::ReadyToRun`.
pub record Condicion : Type 0 where
  pub cerrojo : Cerrojo
  pub waiting_threads : List ℕ
  pub listos : List ℕ

-- `Lock::Release` in one step.
abbrev pub soltar_todo : Cerrojo → ℕ → Cerrojo
unfolding soltar borrar
soltar_todo c t = if es_de c.holding_thread t then borrar (soltar c t) t else c

-- `Wait` up to the sleep, where `apagadas` says whether interrupts were off; `none` is the failed
-- `ASSERT` of `Thread::Sleep`.
unfoldable pub condition_wait : Bool → Condicion → ℕ → Option Condicion
condition_wait apagadas c t =
    if apagadas
    then some (record c {
      cerrojo = soltar_todo c.cerrojo t;
      waiting_threads = c.waiting_threads ++ t ∷ [];
    })
    else none

-- `Remove` and `ReadyToRun` of the first waiting thread, if there is one.
abbrev pub listo : Condicion → Condicion
listo c = elim c.waiting_threads [
  | [] ↦ c
  | w ∷ ws ↦ record c { waiting_threads = ws; listos = c.listos ++ w ∷ [] }
]

unfoldable pub condition_signal : Condicion → ℕ → Condicion
condition_signal c t =
    if es_de c.cerrojo.holding_thread t
    then listo (record c { cerrojo = soltar_todo c.cerrojo t })
    else c

-- The loop of `Broadcast`, over the waiting threads.
listos_todos : List ℕ → List ℕ → List ℕ
listos_todos [] ya = ya
listos_todos (w ∷ ws) ya = listos_todos ws (ya ++ w ∷ [])

unfoldable pub condition_broadcast : Condicion → ℕ → Condicion
unfolding listos_todos
condition_broadcast c t =
    if es_de c.cerrojo.holding_thread t
    then record {
      cerrojo = soltar_todo c.cerrojo t;
      waiting_threads = [];
      listos = listos_todos c.waiting_threads c.listos;
    }
    else c

-- The threads that came, in order: those that were made ready, and then those that wait.
abbrev pub llegados : Condicion → List ℕ
llegados c = c.listos ++ c.waiting_threads

-- A call; the lock may have any state at it, since other threads take it and let it go in between.
pub data Aviso : Type 0 where
  espera_en : Cerrojo → ℕ → Aviso
  avisa : Cerrojo → ℕ → Aviso
  avisa_todos : Cerrojo → ℕ → Aviso

unfoldable pub hacer : Aviso → Condicion → Option Condicion
unfolding condition_wait condition_signal condition_broadcast
hacer (espera_en k t) c = condition_wait true (record c { cerrojo = k }) t
hacer (avisa k t) c = some (condition_signal (record c { cerrojo = k }) t)
hacer (avisa_todos k t) c = some (condition_broadcast (record c { cerrojo = k }) t)

unfoldable pub hacer_todos : List Aviso → Condicion → Option Condicion
unfolding hacer
hacer_todos [] c = some c
hacer_todos (a ∷ avisos) c = do d ← hacer a c; hacer_todos avisos d

abbrev pub que_esperan : List Aviso → List ℕ
que_esperan [] = []
que_esperan (espera_en k t ∷ avisos) = t ∷ que_esperan avisos
que_esperan (avisa k t ∷ avisos) = que_esperan avisos
que_esperan (avisa_todos k t ∷ avisos) = que_esperan avisos

listos_todos_lem : (ws ya : List ℕ) → listos_todos ws ya ≡ ya ++ ws
unfolding listos_todos
listos_todos_lem [] ya = sym (append-nil ya)
listos_todos_lem (w ∷ ws) ya = listos_todos_lem ws (ya ++ w ∷ []) ∙ append_assoc ya (w ∷ []) ws

llegados-listo : (c : Condicion) → llegados (listo c) ≡ llegados c
llegados-listo c = go c.waiting_threads
  where
    go : (ws : List ℕ) → llegados (listo (record c { waiting_threads = ws })) ≡ c.listos ++ ws
    go [] = refl
    go (w ∷ ws) = append_assoc c.listos (w ∷ []) ws

llegados-signal : (c : Condicion) (t : ℕ) → llegados (condition_signal c t) ≡ llegados c
unfolding condition_signal
llegados-signal c t = elim (Bool-cases (es_de c.cerrojo.holding_thread t)) [
  | inl e ↦
      rw (condition_signal, e) (llegados-listo (record c { cerrojo = soltar_todo c.cerrojo t }))
  | inr e ↦ rw (condition_signal, e) refl
]

llegados-broadcast : (c : Condicion) (t : ℕ) → llegados (condition_broadcast c t) ≡ llegados c
unfolding condition_broadcast
llegados-broadcast c t = elim (Bool-cases (es_de c.cerrojo.holding_thread t)) [
  | inl e ↦ rw (condition_broadcast, e) (append-nil _ ∙ listos_todos_lem c.waiting_threads c.listos)
  | inr e ↦ rw (condition_broadcast, e) refl
]

-- With interrupts off no sequence of calls fails. The threads that were made ready, and then those that
-- still wait, are the ones of before and then those that called `Wait`, in the order of their calls.
pub hacer_todos-llegados :
    (avisos : List Aviso) (c : Condicion)
    → (d : Condicion) × (hacer_todos avisos c ≡ some d)
      × (llegados d ≡ llegados c ++ que_esperan avisos)
unfolding hacer_todos condition_wait
hacer_todos-llegados [] c = (c, refl, sym (append-nil _))
hacer_todos-llegados (espera_en k t ∷ avisos) c =
    let c₁ : Condicion = record c {
      cerrojo = soltar_todo k t;
      waiting_threads = c.waiting_threads ++ t ∷ [];
    } in
    let (d, e, o) = hacer_todos-llegados avisos c₁ in
    (
      d,
      e,
      o
          ∙ (ap (λ l. l ++ que_esperan avisos)
                (sym (append_assoc c.listos c.waiting_threads (t ∷ [])))
              ∙ append_assoc (llegados c) (t ∷ []) (que_esperan avisos)),
    )
hacer_todos-llegados (avisa k t ∷ avisos) c =
    let c₁ : Condicion = condition_signal (record c { cerrojo = k }) t in
    let (d, e, o) = hacer_todos-llegados avisos c₁ in
    (d, e, o ∙ ap (λ l. l ++ que_esperan avisos) (llegados-signal (record c { cerrojo = k }) t))
hacer_todos-llegados (avisa_todos k t ∷ avisos) c =
    let c₁ : Condicion = condition_broadcast (record c { cerrojo = k }) t in
    let (d, e, o) = hacer_todos-llegados avisos c₁ in
    (d, e, o ∙ ap (λ l. l ++ que_esperan avisos) (llegados-broadcast (record c { cerrojo = k }) t))
