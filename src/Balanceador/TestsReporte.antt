-- ===== src/Balanceador/TestsReporte.antt =====
-- The report file and the end of a session of src/Balanceador.cpp at concrete states.
use server_load_balancer_cli.Prelude.{◌≡◌, refl, some, List, [], ◌∷◌, ◌++◌, flatten, arith}
use server_load_balancer_cli.Prelude.Text.{Bytes, codes, text_eq, c_str}
use server_load_balancer_cli.FileSystem.{FileSystem}
use server_load_balancer_cli.Prueba.{
  disco, regulares, escribibles, fs_vacio, servidor_con, balanceador_con,
}
use server_load_balancer_cli.Balanceador.{Balanceador, Servidor, buscar_servidor, eliminar_servidor}
use server_load_balancer_cli.Balanceador.Bitacora.{sin_color}
use server_load_balancer_cli.Balanceador.Registro.{anunciado}
use server_load_balancer_cli.Balanceador.Reporte.{
  Uso, anota, anota_rojo, vuelca, mensajes_de, manejar_en_disco, usar_todos, IsAlFinal, reporte_lem,
}
use server_load_balancer_cli.Balanceador.Desfase.{Desfasada, restar_carga-eliminar_servidor}

-- The report holds a line, and another one waits.
abbrev empezado : Bytes × Balanceador
empezado = (
  codes "antes\n",
  record (balanceador_con []) { log_mensajes = codes "espera\n" ∷ []; file_position = 6 },
)

abbrev usos : List Uso
usos = anota (codes "uno\n") ∷ vuelca ∷ anota_rojo (codes "dos\n") ∷ []

abbrev reporte : FileSystem (Unit {0})
reporte = record fs_vacio { fichero = some tt }

reporte_lem_example :
    (e₁ : Bytes × Balanceador) × (e' : Bytes × Balanceador) × (usar_todos disco reporte empezado
        usos
      ≡ some e₁)
    × (manejar_en_disco disco reporte e₁ ≡ some e')
    × (e'.0 ≡ codes "antes\nespera\n" ++ flatten (sin_color (mensajes_de usos)))
    × (e'.1.log_mensajes ≡ [])
    × IsAlFinal disco regulares escribibles reporte tt refl e'
unfolding text_eq
reporte_lem_example =
    reporte_lem disco regulares escribibles reporte tt refl empezado usos refl (omega arith)

abbrev tres : List Servidor
tres =
    servidor_con (codes "10.0.0.1/80") 0
    ∷ servidor_con (codes "10.0.0.2/80") 1
    ∷ servidor_con (codes "10.0.0.3/80") 4
    ∷ []

primero_conocido : buscar_servidor tres (anunciado (codes "S/D/10.0.0.1/80")) ≡ some 0
unfolding buscar_servidor text_eq c_str
primero_conocido = refl

restar_carga-eliminar_servidor_example :
    Desfasada
      (balanceador_con tres)
      (eliminar_servidor (balanceador_con tres) (codes "S/D/10.0.0.1/80"))
      1
      0
restar_carga-eliminar_servidor_example =
    restar_carga-eliminar_servidor (balanceador_con tres) (codes "S/D/10.0.0.1/80") 1 0
      primero_conocido (omega arith) (omega arith)
