-- ===== src/NachOs/Lectura.antt =====
-- The system call `Read` (nachOS/code/userprog/exception.cc).
use server_load_balancer_cli.Prelude.{
  Option, none, some, [], ◌∷◌, ◌++◌, length, drop, leb, if◌then◌else◌,
}
use server_load_balancer_cli.Prelude.Int.{ℤ, pos, negsuc, ◌+ℤ◌, size_t}
use server_load_balancer_cli.Prelude.Text.{Bytes, codes}
use server_load_balancer_cli.Prelude.Decimal.{to_string}
use server_load_balancer_cli.NachOs.Base.{Base}
use server_load_balancer_cli.NachOs.Resultado.{sigue, luego, o_indefinido}
use server_load_balancer_cli.NachOs.OpenFilesTable.{get_unix_handle}
use server_load_balancer_cli.NachOs.Copia.{nachos_to_system}
use server_load_balancer_cli.NachOs.Nucleo.{
  Nucleo, Fin, Abierto, abierto, console_input, console_output, console_error, fichero, registro,
  responde, strlen,
}

-- What the host stores in the buffer; more than the buffer holds is written outside it.
unfoldable pub en_buffer : Bytes → Bytes → Option Bytes
en_buffer datos buffer =
    if leb (length datos) (length buffer) then some (datos ++ drop (length datos) buffer) else none

-- `scanf("%s", buffer)`: the word and its NUL, or the buffer as it was.
unfoldable pub tras_scanf : Option Bytes → Bytes → Option Bytes
unfolding en_buffer
tras_scanf none buffer = some buffer
tras_scanf (some palabra) buffer = en_buffer (palabra ++ 0 ∷ []) buffer

module _ (b : Base) where
  -- `nachosToSystem` into the user's memory at register 4.
  abbrev pub llevar : Nucleo b → Bytes → ℤ → (ℤ → Nucleo b → Fin b) → Fin b
  unfolding nachos_to_system
  llevar n buffer size k =
      luego (nachos_to_system b.maquina (registro b n 4) buffer size n.maquina)
        (λ (copiados, e). k copiados (record n { maquina = e }))

  unfoldable pub read_en : Abierto → ℤ → ℤ → Bytes → Nucleo b → Fin b
  unfolding tras_scanf nachos_to_system get_unix_handle en_buffer
  read_en console_input id size buffer n =
      let (palabra, u) = b.unix.scanf n.unix in
      luego (o_indefinido (tras_scanf palabra buffer)) (λ lleno.
        llevar (record n { unix = u }) lleno size
          (λ copiados. λ n₂. luego (o_indefinido (strlen lleno)) (λ leidos.
            sigue (record (responde b n₂ copiados) {
              num_console_chars_read = n₂.num_console_chars_read +ℤ pos leidos;
            }))))
  read_en console_output id size buffer n = sigue (responde b n (negsuc 0))
  read_en console_error id size buffer n = sigue (record (responde b n (pos 0)) {
    unix = b.unix.printf n.unix (to_string (registro b n 4) ++ codes "\n");
  })
  read_en fichero id size buffer n =
      luego (o_indefinido (get_unix_handle b.bits n.oft id)) (λ handle.
        let (datos, readed, u) = b.unix.recv n.unix handle (size_t size) in
        luego (o_indefinido (en_buffer datos buffer)) (λ lleno.
          llevar (record n { unix = u }) lleno readed
            (λ copiados. λ n₂. sigue (record (responde b n₂ readed) {
              num_console_chars_read = n₂.num_console_chars_read +ℤ readed;
            }))))

  unfoldable pub nachos_read : Nucleo b → Fin b
  unfolding read_en
  nachos_read n =
      let size = registro b n 5 in
      let id = registro b n 6 in read_en (abierto id) id size (b.unix.nuevo_char 1024) n
