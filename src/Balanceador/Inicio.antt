-- ===== src/Balanceador/Inicio.antt =====
-- The start of the balancer (src/Balanceador.cpp): the constructor with its report file, the arguments of
-- `main`, and the first lines of the threads. The host's subnet and clock are parameters.
use server_load_balancer_cli.Prelude.{
  ℕ, Bool, true, Option, none, some, List, [], ◌∷◌, ◌++◌, ◌>>=◌, if◌then◌else◌,
}
use server_load_balancer_cli.Prelude.Int.{ℤ, pos}
use server_load_balancer_cli.Prelude.Text.{Bytes, codes}
use server_load_balancer_cli.Prelude.Decimal.{atoi}
use server_load_balancer_cli.Utilidades.{get_fecha}
use server_load_balancer_cli.FileSystem.{
  FileSystem, existe_directorio, set_ruta, crear_archivo, crear_directorios,
}
use server_load_balancer_cli.FileSystem.Llamadas.{Sistema}
use server_load_balancer_cli.Socket.{Red}
use server_load_balancer_cli.Balanceador.{
  Balanceador, Algoritmo, round_robin, log, log_red, mostrar_estadisticas,
}
use server_load_balancer_cli.Balanceador.Puertos.{
  Puertos, Arranque, salida, indefinido, en_marcha, vincular_puertos,
}

-- The path of the report: the line feed is part of it.
abbrev pub ruta_reporte : Bytes → Bytes
unfolding get_fecha
ruta_reporte tiempo = codes "log/report " ++ (get_fecha tiempo ++ codes ".log\n")

-- The constructor without its files. `memoria` holds what the memory held: the constructor sets neither
-- the turn of round robin, nor the count of the servers, nor the two sockets.
unfoldable pub nuevo_balanceador : Puertos → Bytes → Algoritmo → Bytes → ℤ → ℤ → Puertos
unfolding log_red log
nuevo_balanceador memoria subred algoritmo ip cliente servidor = record memoria {
  balanceador = log_red vacio (codes " * Load Balancer Development Build\n");
  puerto_servidor = servidor;
  direccion_host = ip;
  ejecutandose = true;
}
  where
    vacio : Balanceador
    vacio = record memoria.balanceador {
      ip_subnet = subred;
      puerto_cliente = cliente;
      servidores = [];
      clientes = [];
      algoritmo_balanceo = algoritmo;
      log_mensajes = [];
      file_position = 0;
      enviados = [];
    }

-- The two arguments behind the address, from `argv` without the program's name; `none` is `_exit(1)`.
unfoldable pub argumentos_balanceador : List Bytes → Option (Bytes × ℤ × ℤ)
unfolding atoi
argumentos_balanceador (ip ∷ cliente ∷ servidor ∷ mas) = some (ip, atoi cliente, atoi servidor)
argumentos_balanceador argv = none

module _ (s : Sistema) where
  open s use {Disco, Fd}

  -- The report of the constructor: its directory is made where it does not open, and its file emptied.
  unfoldable pub preparar_reporte : Bytes → Disco → FileSystem Fd → Option (Disco × FileSystem Fd)
  unfolding set_ruta crear_directorios crear_archivo
  preparar_reporte tiempo d fs = do
    fs₁ ← set_ruta s d fs (codes "log")
    d₁ ← if existe_directorio fs₁ then some d else crear_directorios s d (codes "log")
    fs₂ ← set_ruta s d₁ fs₁ (ruta_reporte tiempo)
    let d₂ = crear_archivo s d₁ fs₂
    fs₃ ← set_ruta s d₂ fs₂ (ruta_reporte tiempo)
    some (d₂, fs₃)

-- The first lines that `hilo_Output` logs.
unfoldable pub inicio_output : Bool → Balanceador → Balanceador
unfolding log mostrar_estadisticas
inicio_output vivo b =
    if vivo
    then mostrar_estadisticas
        (log b (codes " * (PRESIONE CTRL + C para cerrar el balanceador de forma segura). \n"))
    else b

-- `ejecutarBalanceador` up to the loops of its threads.
unfoldable pub ejecutar_balanceador : Puertos → Puertos
unfolding inicio_output
ejecutar_balanceador p = record p {
  balanceador = inicio_output p.ejecutandose (record p.balanceador { servidores_actuales = pos 0 });
}

module _ (r : Red) where
  -- `ejecutarBalanceador` where `vincularPuertos` did not end the process.
  ejecutar : Arranque r.Mundo → Arranque r.Mundo
  unfolding ejecutar_balanceador
  ejecutar (salida p v u) = salida p v u
  ejecutar indefinido = indefinido
  ejecutar (en_marcha p u) = en_marcha (ejecutar_balanceador p) u

  -- `main`, with the report beside it; `none` is its `_exit(1)` for too few arguments.
  unfoldable pub main_balanceador :
      Puertos → Bytes → Bytes → ℕ → List Bytes → r.Mundo → Option (Arranque r.Mundo)
  unfolding argumentos_balanceador nuevo_balanceador vincular_puertos ejecutar
  main_balanceador memoria subred difusion basura argv u = do
    (ip, cliente, servidor) ← argumentos_balanceador argv
    some (
        ejecutar (
          vincular_puertos r difusion basura
            (nuevo_balanceador memoria subred round_robin ip cliente servidor) u))
