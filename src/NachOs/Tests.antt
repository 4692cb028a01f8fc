-- ===== src/NachOs/Tests.antt =====
-- The theorems on nachOS/code/userprog and nachOS/code/threads at concrete states.
use server_load_balancer_cli.Prelude.{
  ℕ, zero, suc, ◌+◌, ◌≡◌, ◌≢◌, refl, none, some, List, [], ◌∷◌, ◌++◌, take, get_elem?, arith, inl,
  true, ◌==◌, if◌then◌else◌,
}
use server_load_balancer_cli.Prelude.Int.{ℤ, pos, negsuc, ◌+ℤ◌}
use server_load_balancer_cli.Prelude.Text.{codes}
use server_load_balancer_cli.NachOs.Base.{syscall_exception, pc_reg, next_pc_reg, prev_pc_reg}
use server_load_balancer_cli.NachOs.Resultado.{sigue}
use server_load_balancer_cli.NachOs.Copia.{
  system_to_nachos, nachos_to_system, return_from_system_call,
}
use server_load_balancer_cli.NachOs.OpenFilesTable.{
  OpenFilesTable, oft_open, is_opened, get_unix_handle,
}
use server_load_balancer_cli.NachOs.AddrSpace.{Segment}
use server_load_balancer_cli.NachOs.Nucleo.{Nucleo, registro, responde}
use server_load_balancer_cli.NachOs.Sockets.{nachos_listen}
use server_load_balancer_cli.NachOs.Despacho.{llamada_de, llamar, buscar_codigo, exception_handler}
use server_load_balancer_cli.NachOs.Avance.{exception_handler-avanza}
use server_load_balancer_cli.NachOs.IdaVuelta.{system_to_nachos-nachos_to_system}
use server_load_balancer_cli.NachOs.Abiertos.{Tabla, oft_open_lem}
use server_load_balancer_cli.NachOs.Rechazo.{exception_handler-rechaza}
use server_load_balancer_cli.NachOs.Synch.{
  dentro, Cerrojo, cerrojo_nuevo, cierra, intenta, Llega, aqui, sigue_con, mutex_lock, esperar,
  semaphore_p,
}
use server_load_balancer_cli.NachOs.Exclusion.{fueras, Llega-exclusion}
use server_load_balancer_cli.NachOs.Modelo.{
  mapa, mapas, simulada, registros_simulados, memoria_simulada, base, apagados, Simulada,
}

-- A program that asks for `listen` (33), at address 100, or for a socket of type 7 (30).
abbrev maquina_con : ℤ → Simulada
maquina_con codigo = record { registros = registros_de codigo; memoria = λ a. 0 }
  where
    registros_de : ℤ → ℕ → ℤ
    registros_de c r =
        if r == 2
        then c
        else if r == 5
        then pos 7
        else if r == 34
        then pos 100
        else if r == 35
        then pos 104
        else pos 0

abbrev tabla : OpenFilesTable mapa
tabla = record { open_files = handles 32; open_files_map = apagados 32; usage = pos 3 }
  where
    handles : ℕ → List ℤ
    handles zero = []
    handles (suc n) = pos 0 ∷ handles n

abbrev nucleo : ℤ → Nucleo base
nucleo codigo = record {
  maquina = maquina_con codigo;
  oft = tabla;
  unix = tt;
  paginas = record { memory_bit_map = []; threads_on_phy_page = [] };
  space = record {
    page_table = [];
    num_pages = 0;
    noff_h = record { noff_magic = 0; code = nada; init_data = nada; uninit_data = nada };
  };
  num_console_chars_written = pos 0;
  num_console_chars_read = pos 0;
}
  where
    nada : Segment
    nada = record { size = 0; virtual_addr = 0; in_file_addr = 0 }

abbrev tras_listen : Nucleo base
tras_listen = record (nucleo (pos 33)) {
  maquina = return_from_system_call simulada (responde base (nucleo (pos 33)) (negsuc 0)).maquina;
}

listen_vuelve : exception_handler base syscall_exception (nucleo (pos 33)) ≡ sigue tras_listen
unfolding exception_handler llamada_de llamar buscar_codigo nachos_listen
listen_vuelve = refl

exception_handler-avanza_example :
    (registro base tras_listen prev_pc_reg ≡ pos 100)
    × (registro base tras_listen pc_reg ≡ pos 104)
    × (registro base tras_listen next_pc_reg ≡ pos 104 +ℤ pos 4)
exception_handler-avanza_example =
    exception_handler-avanza base registros_simulados (nucleo (pos 33)) tras_listen listen_vuelve

system_to_nachos-nachos_to_system_example :
    (f : Simulada) × (nachos_to_system simulada {S = Unit {0}}
        (pos 40)
        (codes "hola")
        (pos 3)
        (maquina_con (pos 0))
      ≡ sigue (pos 3, f))
    × (system_to_nachos simulada {S = Unit {0}} (pos 9) (pos 40) (pos 3) f
        ≡ sigue (take 3 (codes "hola") ++ 0 ∷ [], f))
unfolding memoria_simulada
system_to_nachos-nachos_to_system_example =
    system_to_nachos-nachos_to_system simulada memoria_simulada (Unit {0}) (pos 9) (pos 40)
      (codes "hola") 3 (maquina_con (pos 0)) (omega arith)
      (omega arith, (omega arith, (omega arith, (omega arith, tt)))) (refl, (refl, (refl, tt)))

tabla-Tabla : Tabla mapa mapas tabla 3
unfolding mapas
tabla-Tabla = record { open_files = refl; open_files_map = refl; usage = refl }

oft_open_lem_example :
    (u : OpenFilesTable mapa) × (oft_open mapa tabla (pos 9) ≡ some (pos 3, u))
    × (get_unix_handle mapa u (pos 3) ≡ some (pos 9))
    × (is_opened mapa u (pos 3) ≡ some true)
    × (get_unix_handle mapa u (pos 1) ≡ get_unix_handle mapa tabla (pos 1))
    × Tabla mapa mapas u (3 + 1)
oft_open_lem_example =
    oft_open_lem mapa mapas tabla 3 (pos 9) (pos 1) tabla-Tabla (omega arith) (λ h. cc)

exception_handler-rechaza_example :
    exception_handler base syscall_exception (nucleo (pos 30))
    ≡ sigue (record (nucleo (pos 30)) {
      maquina =
          return_from_system_call simulada (responde base (nucleo (pos 30)) (negsuc 0)).maquina;
    })
exception_handler-rechaza_example =
    exception_handler-rechaza base (nucleo (pos 30)) refl (inl (λ h. cc, λ h. cc))

-- One thread is inside, and another waits.
abbrev ocupado : Cerrojo
ocupado = esperar dentro (mutex_lock (cerrojo_nuevo none (fueras 2)) 0) 0

ocupado_pronto : Llega (cerrojo_nuevo none (fueras 2)) ocupado
unfolding mutex_lock
ocupado_pronto =
    sigue_con (sigue_con aqui (cierra (cerrojo_nuevo none (fueras 2)) 0 refl))
      (intenta (mutex_lock (cerrojo_nuevo none (fueras 2)) 0) 0 refl)

ocupado_dentro : get_elem? ocupado.fases 0 ≡ some dentro
unfolding mutex_lock esperar semaphore_p
ocupado_dentro = refl

Llega-exclusion_example : get_elem? ocupado.fases 1 ≢ some dentro
Llega-exclusion_example =
    Llega-exclusion none 2 0 1 ocupado_pronto (λ h. omega arith) ocupado_dentro
