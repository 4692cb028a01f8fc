-- ===== src/Balanceador/Tests.antt =====
-- The theorems on src/Balanceador.cpp at concrete states.
use server_load_balancer_cli.Prelude.{
  ℕ, ◌%◌, ◌≤◌, ◌<◌, ◌≡◌, refl, true, false, none, some, List, [], ◌∷◌, ◌++◌, length, get_elem?,
  arith, ◌⊎◌,
}
use server_load_balancer_cli.Prelude.Int.{pos, ◌+ℤ◌}
use server_load_balancer_cli.Prelude.Text.{Bytes, codes, Lacks-of, text_eq, c_str, find}
use server_load_balancer_cli.Prelude.Decimal.{to_string, to_string_ℕ}
use server_load_balancer_cli.Utilidades.{crlf}
use server_load_balancer_cli.Balanceador.Reenvio.{reenviar_peticion}
use server_load_balancer_cli.WebServidor.{aviso}
use server_load_balancer_cli.Prueba.{servidor_con, balanceador_con}
use server_load_balancer_cli.Balanceador.{
  Servidor, Balanceador, red, white, buscar_servidor, recibir_anuncio, partir_anuncio, sin_fijar,
}
use server_load_balancer_cli.Balanceador.Seleccion.{
  elegir, abrir_sesion, buscar_libre, buscar_servidor_con_menor_carga,
}
use server_load_balancer_cli.Balanceador.Registro.{
  IsRegistro, Atendido, anunciado, recibir_anuncio_lem,
}
use server_load_balancer_cli.Balanceador.Conjunto.{
  esta, recibir_todos, repetir, Caben, recibir_todos-repetir,
}
use server_load_balancer_cli.Balanceador.Anuncio.{nombre, IsRegistrado, aviso_lem}
use server_load_balancer_cli.Balanceador.Eleccion.{
  turnos, turnos-round_robin, menor_carga_total, CargaDesde,
}
use server_load_balancer_cli.Balanceador.Pesos.{
  buscar_libre_primero, Parada, Llenos, buscar_libre_cases,
}
use server_load_balancer_cli.Balanceador.Sesiones.{
  EstadoSesiones, Pasos, abre, falla, fin, y_luego, Cuadra, Pasos-Cuadra,
}

abbrev dos : List Servidor
dos = servidor_con (codes "10.0.0.1/80") 3 ∷ servidor_con (codes "10.0.0.2/80") 1 ∷ []

dos-IsRegistro : IsRegistro (balanceador_con dos)
unfolding buscar_servidor text_eq
dos-IsRegistro = record { distintos = (refl, (refl, tt)); contados = refl }

cabe : length (partir_anuncio (anunciado (codes "S/C/10.0.0.3/80"))).0 ≤ 32
unfolding partir_anuncio c_str find
cabe = omega arith

corto : length (aviso false (codes "10.0.0.3") (pos 80)) < 64
unfolding aviso to_string
corto = omega arith

nueva : buscar_servidor dos (nombre (codes "10.0.0.3") 80) ≡ none
unfolding buscar_servidor text_eq to_string_ℕ
nueva = refl

sin_falta : sin_fijar (codes "S/C/10.0.0.3/80") ≡ false
unfolding sin_fijar
sin_falta = refl

recibir_anuncio_lem_example :
    (b' : Balanceador) × (recibir_anuncio
        (balanceador_con dos)
        (some (codes "S/C/10.0.0.3/80"))
        7
        []
      ≡ some b')
    × IsRegistro b'
    × Atendido (codes "S/C/10.0.0.3/80") (balanceador_con dos) b'
recibir_anuncio_lem_example =
    recibir_anuncio_lem (balanceador_con dos) (codes "S/C/10.0.0.3/80") 7 [] dos-IsRegistro
      (omega arith) sin_falta cabe

aviso_lem_example :
    (b' : Balanceador) × (s : Servidor) × (b'' : Balanceador) × (recibir_anuncio
        (balanceador_con dos)
        (some (aviso false (codes "10.0.0.3") (pos 80)))
        7
        []
      ≡ some b')
    × (b'.servidores ≡ dos ++ s ∷ [])
    × IsRegistrado (codes "10.0.0.3") 80 s
    × (recibir_anuncio b' (some (aviso true (codes "10.0.0.3") (pos 80))) 9 [] ≡ some b'')
    × (b''.servidores ≡ dos)
aviso_lem_example =
    aviso_lem (balanceador_con dos) (codes "10.0.0.3") 80 7 9 [] []
      (Lacks-of 0 (codes "10.0.0.3") refl) (Lacks-of b'/' (codes "10.0.0.3") refl) corto
      (omega arith) nueva

abbrev anuncios : List (Bytes × ℕ × Bytes)
anuncios = (codes "S/C/10.0.0.3/80", 7, []) ∷ (codes "S/D/10.0.0.1/80", 0, []) ∷ []

anuncios-Caben : Caben anuncios
unfolding partir_anuncio c_str find sin_fijar
anuncios-Caben = (omega arith, refl, omega arith, (omega arith, refl, omega arith, tt))

recibir_todos-repetir_example :
    (b' : Balanceador) × (recibir_todos anuncios (balanceador_con dos) ≡ some b')
    × IsRegistro b'
    × (esta b'.servidores (codes "10.0.0.3/80")
        ≡ repetir anuncios (codes "10.0.0.3/80") (esta dos (codes "10.0.0.3/80")))
recibir_todos-repetir_example =
    recibir_todos-repetir anuncios (balanceador_con dos) (codes "10.0.0.3/80") dos-IsRegistro
      anuncios-Caben

turnos-round_robin_example :
    (b' : Balanceador) × (turnos (λ n. n) 5 ((1, 0) ∷ (2, 0) ∷ (3, 0) ∷ []) (balanceador_con dos)
      ≡ some b')
    × (b'.servidores ≡ dos)
    × (b'.round_robin_actual < 2)
    × ((f : Balanceador) × (elegir (λ n. n) 5 b' 4 0 ≡ some (f, 3 % 2)))
turnos-round_robin_example =
    turnos-round_robin (λ n. n) 5 ((1, 0) ∷ (2, 0) ∷ (3, 0) ∷ []) (balanceador_con dos) 4 0 refl
      (omega arith)

menor_carga_total_example :
    (i : ℕ) × (s : Servidor) × (buscar_servidor_con_menor_carga dos ≡ some i)
    × (get_elem? dos i ≡ some s)
    × CargaDesde s.carga_actual dos
menor_carga_total_example = menor_carga_total dos 0 (servidor_con (codes "10.0.0.1/80") 3) refl refl

-- The last of two servers is above its bound, and the turn is at it.
abbrev ultimo_lleno : List Servidor
ultimo_lleno = servidor_con (codes "10.0.0.1/80") 3 ∷ servidor_con (codes "10.0.0.2/80") 7 ∷ []

buscar_libre_cases_example :
    Parada 2 ultimo_lleno 1
    ⊎ (Llenos (length ultimo_lleno) ultimo_lleno × ((g : ℕ) → buscar_libre g ultimo_lleno 1 ≡ none))
buscar_libre_cases_example = buscar_libre_cases 1 2 ultimo_lleno (omega arith) (omega arith)

buscar_libre_primero_example :
    buscar_libre 3 (servidor_con (codes "10.0.0.1/80") 6 ∷ dos) 0 ≡ some 1
buscar_libre_primero_example =
    buscar_libre_primero 1 3 (servidor_con (codes "10.0.0.1/80") 6 ∷ dos)
      (servidor_con (codes "10.0.0.1/80") 3) refl refl (refl, tt) (omega arith)

abbrev con_mensajes : Balanceador
con_mensajes = record (balanceador_con dos) {
  log_mensajes = red ∷ codes "fallo\n" ∷ white ∷ codes "listo\n" ∷ [];
  file_position = 10;
}

-- One session is opened with an idle server, and cannot reach it.
abbrev uno : EstadoSesiones
uno = record {
  balanceador = balanceador_con (servidor_con (codes "10.0.0.1/80") 0 ∷ []);
  activas = [];
  fallidas = [];
}

abbrev abierta : EstadoSesiones
abierta = record {
  balanceador = balanceador_con (servidor_con (codes "10.0.0.1/80") 1 ∷ []);
  activas = 0 ∷ [];
  fallidas = [];
}

abbrev fallida : EstadoSesiones
fallida = record abierta { activas = []; fallidas = 0 ∷ [] }

abre_uno : abrir_sesion (λ n. n) 5 uno.balanceador 1 0 ≡ some (abierta.balanceador, 0)
unfolding abrir_sesion ◌+ℤ◌
abre_uno = refl

dos-Pasos : Pasos (λ n. n) uno fallida
dos-Pasos =
    y_luego uno abierta fallida (abre uno 5 1 0 0 abierta.balanceador abre_uno)
      (y_luego abierta fallida fallida (falla abierta 0 0 refl) (fin fallida))

Pasos-Cuadra_example : Cuadra fallida
Pasos-Cuadra_example = Pasos-Cuadra (λ n. n) uno fallida dos-Pasos (refl, tt)

abbrev primera : Bytes
primera = codes "GET / HTTP/1.1"

abbrev segunda : Bytes
segunda = 13 ∷ 10 ∷ 13 ∷ 10 ∷ []

incompleta : reenviar_peticion [] (primera ∷ []) ≡ none
unfolding reenviar_peticion find c_str
incompleta = refl

hay_linea_vacia : find segunda (crlf ++ crlf) ≡ some 0
unfolding find
hay_linea_vacia = refl
