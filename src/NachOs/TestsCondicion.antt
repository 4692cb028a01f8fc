-- ===== src/NachOs/TestsCondicion.antt =====
-- `Condition` of nachOS/code/threads/synch.cc with two threads that wait and one that signals.
use server_load_balancer_cli.Prelude.{◌≡◌, some, List, [], ◌∷◌, ℕ}
use server_load_balancer_cli.NachOs.Synch.{Cerrojo, dentro}
use server_load_balancer_cli.NachOs.Condicion.{
  Condicion, Aviso, espera_en, avisa, avisa_todos, llegados, hacer_todos, hacer_todos-llegados,
}

-- The lock in the hands of the thread `t`.
abbrev tomado : ℕ → Cerrojo
tomado t = record {
  semaforo = record { value = 0; queue = [] };
  holding_thread = some t;
  fases = dentro ∷ dentro ∷ dentro ∷ [];
}

abbrev nadie_espera : Condicion
nadie_espera = record { cerrojo = tomado 0; waiting_threads = []; listos = [] }

abbrev dos_y_aviso : List Aviso
dos_y_aviso =
    espera_en (tomado 0) 0
    ∷ espera_en (tomado 1) 1
    ∷ avisa (tomado 2) 2
    ∷ avisa_todos (tomado 2) 2
    ∷ []

hacer_todos-llegados_example :
    (d : Condicion) × (hacer_todos dos_y_aviso nadie_espera ≡ some d) × (llegados d ≡ 0 ∷ 1 ∷ [])
hacer_todos-llegados_example = hacer_todos-llegados dos_y_aviso nadie_espera
