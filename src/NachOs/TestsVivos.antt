-- ===== src/NachOs/TestsVivos.antt =====
-- The theorems on nachOS/code/userprog/addrspace.cc at a kernel with one program.
use server_load_balancer_cli.Prelude.{
  ℕ, ◌≡◌, refl, some, List, [], ◌∷◌, get_elem?, erase_at, ltb, arith, true,
}
use server_load_balancer_cli.Prelude.Int.{pos, ◌+ℤ◌}
use server_load_balancer_cli.NachOs.Resultado.{sigue}
use server_load_balancer_cli.NachOs.AddrSpace.{
  AddrSpace, NoffHeader, OpenFile, Segment, Paginas, ceros, pages_real, pages_copyable,
  entrada_nueva, liberar,
}
use server_load_balancer_cli.NachOs.Carga.{Fisica, cargar}
use server_load_balancer_cli.NachOs.Cuentas.{refs}
use server_load_balancer_cli.NachOs.Espacios.{refs_todas}
use server_load_balancer_cli.NachOs.Vivos.{
  Tablas, arranque, nace, Alcanza, aqui, luego_paso, veces, Alcanza-cuenta, cargar-aislada,
  liberar_vivo,
}
use server_load_balancer_cli.NachOs.Modelo.{mapa, mapas, apagados, bit_de}

abbrev vacio : Segment
vacio = record { size = 0; virtual_addr = 0; in_file_addr = 0 }

-- A program of no bytes: its one page is the stack's.
abbrev sin_codigo : NoffHeader
sin_codigo = record { noff_magic = 12246957; code = vacio; init_data = vacio; uninit_data = vacio }

abbrev programa : OpenFile
programa = record { header = sin_codigo; ReadAt = λ n. λ p. [] }

abbrev memoria : List ℕ
memoria = ceros 8192

abbrev espacio : AddrSpace
espacio = record { page_table = entrada_nueva 0 0 ∷ []; num_pages = 1; noff_h = sin_codigo }

abbrev cargada : Fisica mapa
cargada = record {
  paginas = record {
    memory_bit_map = true ∷ apagados 1023;
    threads_on_phy_page = pos 1 ∷ veces 31;
  };
  main_memory = memoria;
}

programa_cargado :
    cargar mapa {S = Unit {0}} (λ n. n) programa (arranque mapa memoria).fisica
    ≡ sigue (espacio, cargada)
unfolding cargar pages_real pages_copyable ◌+ℤ◌
programa_cargado = refl

abbrev uno_vivo : Tablas mapa
uno_vivo = record { fisica = cargada; vivos = espacio ∷ [] }

uno_vivo_pronto : Alcanza mapa (λ n. n) (arranque mapa memoria) uno_vivo
uno_vivo_pronto =
    luego_paso aqui (nace (arranque mapa memoria) programa espacio cargada programa_cargado)

-- A second program gets the next page.
abbrev otro : AddrSpace
otro = record { page_table = entrada_nueva 0 1 ∷ []; num_pages = 1; noff_h = sin_codigo }

abbrev con_otro : Fisica mapa
con_otro = record {
  paginas = record {
    memory_bit_map = true ∷ true ∷ apagados 1022;
    threads_on_phy_page = pos 1 ∷ pos 1 ∷ veces 30;
  };
  main_memory = memoria;
}

otro_cargado : cargar mapa {S = Unit {0}} (λ n. n) programa cargada ≡ sigue (otro, con_otro)
unfolding cargar pages_real pages_copyable ◌+ℤ◌
otro_cargado = refl

Alcanza-cuenta_example :
    (get_elem? cargada.paginas.threads_on_phy_page 0 ≡ some (pos (refs_todas (espacio ∷ []) 0)))
    × (bit_de cargada.paginas.memory_bit_map 0 ≡ ltb 0 (refs_todas (espacio ∷ []) 0))
unfolding mapas
Alcanza-cuenta_example = Alcanza-cuenta mapa mapas (λ n. n) memoria 0 uno_vivo_pronto (omega arith)

cargar-aislada_example : (refs otro.page_table 1 ≡ 1) × (refs_todas (espacio ∷ []) 1 ≡ 0)
cargar-aislada_example =
    cargar-aislada mapa mapas (λ n. n) memoria programa otro con_otro 1 uno_vivo_pronto otro_cargado
      (omega arith)

liberar_vivo_example :
    (ps : Paginas mapa) × (liberar mapa espacio.page_table cargada.paginas ≡ some ps)
    × (bit_de ps.memory_bit_map 0 ≡ ltb 0 (refs_todas (erase_at (espacio ∷ []) 0) 0))
unfolding mapas
liberar_vivo_example = liberar_vivo mapa mapas (λ n. n) memoria 0 espacio 0 uno_vivo_pronto refl
