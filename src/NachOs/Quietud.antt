-- ===== src/NachOs/Quietud.antt =====
-- The program counters across the system calls on files (nachOS/code/userprog/exception.cc).
use server_load_balancer_cli.Prelude.{ℕ, refl, Option, none, some, take, length}
use server_load_balancer_cli.Prelude.Int.{ℤ, pos, negsuc, ◌+ℤ◌, size_t}
use server_load_balancer_cli.Prelude.Text.{Bytes, c_str}
use server_load_balancer_cli.NachOs.Base.{Registros, Base}
use server_load_balancer_cli.NachOs.Resultado.{sigue, terminado, luego, o_indefinido}
use server_load_balancer_cli.NachOs.Contador.{
  Vale, Vale-luego, Vale-imp, Igual, Igual-trans, Igual-respuesta, Igual-system_to_nachos,
  Igual-nachos_to_system,
}
use server_load_balancer_cli.NachOs.Copia.{system_to_nachos, nachos_to_system}
use server_load_balancer_cli.NachOs.OpenFilesTable.{
  OpenFilesTable, oft_open, get_unix_handle, add_thread, del_thread,
}
use server_load_balancer_cli.NachOs.AddrSpace.{liberar}
use server_load_balancer_cli.NachOs.Nucleo.{
  Nucleo, Fin, Abierto, abierto, console_input, console_output, console_error, fichero, registro,
  responde, strlen, traer, nachos_exit, nachos_create, nachos_open, write_en, nachos_write,
  nachos_close,
}
use server_load_balancer_cli.NachOs.Lectura.{en_buffer, tras_scanf, llevar, read_en, nachos_read}

module _ (b : Base) (r : Registros b.maquina) where
  -- Neither program counter of the machine has changed.
  abbrev pub Quieto : Nucleo b → Nucleo b → Type 0
  Quieto n n' = Igual b.maquina r n.maquina n'.maquina

  pub Quieto-responde : (n : Nucleo b) (v : ℤ) → Quieto n (responde b n v)
  Quieto-responde n v = Igual-respuesta b.maquina r n.maquina v

  pub Quieto-traer :
      (n : Nucleo b) (va size : ℤ) (k : Bytes → Nucleo b → Fin b)
      → ((bs : Bytes) (n₂ : Nucleo b) → Vale (Quieto n₂) (k bs n₂))
      → Vale (Quieto n) (traer b n va size k)
  unfolding system_to_nachos
  Quieto-traer n va size k h =
      Vale-luego (λ (p : Bytes × b.maquina.Estado). Igual b.maquina r n.maquina p.1) (Quieto n)
        (system_to_nachos b.maquina b.unix.basura_int va size n.maquina)
        (λ (bs, e). k bs (record n { maquina = e }))
        (Igual-system_to_nachos b.maquina r (Nucleo b) b.unix.basura_int va size n.maquina)
        (λ (bs, e). λ igual.
          Vale-imp (Quieto (record n { maquina = e })) (Quieto n) (k bs (record n { maquina = e }))
            (h bs (record n { maquina = e }))
            (λ n₃. Igual-trans b.maquina r n.maquina e n₃.maquina igual))

  Quieto-llevar :
      (n : Nucleo b) (buffer : Bytes) (size : ℤ) (k : ℤ → Nucleo b → Fin b)
      → ((v : ℤ) (n₂ : Nucleo b) → Vale (Quieto n₂) (k v n₂))
      → Vale (Quieto n) (llevar b n buffer size k)
  unfolding nachos_to_system
  Quieto-llevar n buffer size k h =
      Vale-luego (λ (p : ℤ × b.maquina.Estado). Igual b.maquina r n.maquina p.1) (Quieto n)
        (nachos_to_system b.maquina (registro b n 4) buffer size n.maquina)
        (λ (v, e). k v (record n { maquina = e }))
        (Igual-nachos_to_system b.maquina r (Nucleo b) (registro b n 4) buffer size n.maquina)
        (λ (v, e). λ igual.
          Vale-imp (Quieto (record n { maquina = e })) (Quieto n) (k v (record n { maquina = e }))
            (h v (record n { maquina = e }))
            (λ n₃. Igual-trans b.maquina r n.maquina e n₃.maquina igual))

  -- An access to a table, and then a step that answers.
  pub Quieto-tras :
      {A : Type 0} (n : Nucleo b) (o : Option A) (k : A → Fin b)
      → ((a : A) → Vale (Quieto n) (k a))
      → Vale (Quieto n) (luego (o_indefinido o) k)
  Quieto-tras n none k h = tt
  Quieto-tras n (some a) k h = h a

  pub Quieto-create : (n : Nucleo b) → Vale (Quieto n) (nachos_create b n)
  unfolding nachos_create
  Quieto-create n =
      Quieto-traer n (registro b n 4) (pos 64)
        (λ buffer. λ n₂.
          let (fd, u) = b.unix.crear n₂.unix (c_str buffer) in
          sigue (responde b (record n₂ { unix = u }) fd))
        (λ buffer. λ n₂. Quieto-responde n₂ (b.unix.crear n₂.unix (c_str buffer)).0)

  pub Quieto-open : (n : Nucleo b) → Vale (Quieto n) (nachos_open b n)
  unfolding nachos_open
  Quieto-open n =
      Quieto-traer n (registro b n 4) (pos 64)
        (λ buffer. λ n₂.
          let (unix_fd, u) = b.unix.abrir n₂.unix (c_str buffer) in
          luego (o_indefinido (oft_open b.bits n₂.oft unix_fd)) (λ (nachos_fd, t).
            sigue (responde b (record n₂ { unix = u; oft = add_thread b.bits t }) nachos_fd)))
        (λ buffer. λ n₂.
          let (unix_fd, u) = b.unix.abrir n₂.unix (c_str buffer) in
          Quieto-tras n₂ (oft_open b.bits n₂.oft unix_fd)
            (λ (nachos_fd, t).
              sigue (responde b (record n₂ { unix = u; oft = add_thread b.bits t }) nachos_fd))
            (λ (nachos_fd, t). Quieto-responde n₂ nachos_fd))

  Quieto-write_en :
      (a : Abierto) (id size position : ℤ) (buffer : Bytes) (n : Nucleo b)
      → Vale (Quieto n) (write_en b a id size position buffer n)
  unfolding write_en
  Quieto-write_en console_input id size position buffer n = Quieto-responde n (negsuc 0)
  Quieto-write_en console_output id size position buffer n =
      Quieto-responde n (pos (length (c_str buffer)))
  Quieto-write_en console_error id size position buffer n = Quieto-responde n (pos 0)
  Quieto-write_en fichero id size position buffer n =
      let escribe : ℤ → ℤ × b.unix.Mundo = λ handle.
        b.unix.write (b.unix.lseek n.unix handle position) handle (take (size_t size) buffer) in
      Quieto-tras n (get_unix_handle b.bits n.oft id)
        (λ handle. sigue (record (responde b n (escribe handle).0) {
          unix = (escribe handle).1;
          num_console_chars_written = n.num_console_chars_written +ℤ (escribe handle).0;
        }))
        (λ handle. Quieto-responde n (escribe handle).0)

  pub Quieto-write : (n : Nucleo b) → Vale (Quieto n) (nachos_write b n)
  unfolding nachos_write
  Quieto-write n =
      Quieto-traer n (registro b n 4) (registro b n 5)
        (λ buffer. λ n₂.
          write_en b (abierto (registro b n 6)) (registro b n 6) (registro b n 5) (registro b n 7)
            buffer n₂)
        (λ buffer. λ n₂.
          Quieto-write_en (abierto (registro b n 6)) (registro b n 6) (registro b n 5)
            (registro b n 7) buffer n₂)

  Quieto-read_en :
      (a : Abierto) (id size : ℤ) (buffer : Bytes) (n : Nucleo b)
      → Vale (Quieto n) (read_en b a id size buffer n)
  unfolding read_en
  Quieto-read_en console_input id size buffer n =
      let (palabra, u) = b.unix.scanf n.unix in
      let tras : Bytes → ℤ → Nucleo b → ℕ → Fin b = λ lleno. λ copiados. λ n₂. λ leidos.
        sigue (record (responde b n₂ copiados) {
          num_console_chars_read = n₂.num_console_chars_read +ℤ pos leidos;
        }) in
      let copia : Bytes → ℤ → Nucleo b → Fin b =
        λ lleno. λ copiados. λ n₂. luego (o_indefinido (strlen lleno)) (tras lleno copiados n₂) in
      Quieto-tras n (tras_scanf palabra buffer)
        (λ lleno. llevar b (record n { unix = u }) lleno size (copia lleno))
        (λ lleno.
          Quieto-llevar (record n { unix = u }) lleno size (copia lleno)
            (λ copiados. λ n₂.
              Quieto-tras n₂ (strlen lleno) (tras lleno copiados n₂)
                (λ leidos. Quieto-responde n₂ copiados)))
  Quieto-read_en console_output id size buffer n = Quieto-responde n (negsuc 0)
  Quieto-read_en console_error id size buffer n = Quieto-responde n (pos 0)
  Quieto-read_en fichero id size buffer n =
      let recibe : ℤ → Bytes × ℤ × b.unix.Mundo =
        λ handle. b.unix.recv n.unix handle (size_t size) in
      let copia : ℤ → ℤ → Nucleo b → Fin b = λ handle. λ copiados. λ n₂.
        sigue (record (responde b n₂ (recibe handle).1) {
          num_console_chars_read = n₂.num_console_chars_read +ℤ (recibe handle).1;
        }) in
      let lleva : ℤ → Bytes → Fin b = λ handle. λ lleno.
        llevar b (record n { unix = (recibe handle).2 }) lleno (recibe handle).1 (copia handle) in
      Quieto-tras n (get_unix_handle b.bits n.oft id)
        (λ handle. luego (o_indefinido (en_buffer (recibe handle).0 buffer)) (lleva handle))
        (λ handle. Quieto-tras n (en_buffer (recibe handle).0 buffer) (lleva handle) (λ lleno.
          Quieto-llevar (record n { unix = (recibe handle).2 }) lleno (recibe handle).1
            (copia handle) (λ copiados. λ n₂. Quieto-responde n₂ (recibe handle).1)))

  pub Quieto-close : (n : Nucleo b) → Vale (Quieto n) (nachos_close b n)
  unfolding nachos_close
  Quieto-close n =
      let cerrada : ℤ → OpenFilesTable b.bits → Fin b =
        λ unix_id. λ t. sigue (record n { unix = b.unix.close n.unix unix_id; oft = t }) in
      Quieto-tras n (get_unix_handle b.bits n.oft (registro b n 4))
        (λ unix_id. luego (o_indefinido (del_thread b.bits n.oft)) (cerrada unix_id))
        (λ unix_id. Quieto-tras n (del_thread b.bits n.oft) (cerrada unix_id) (λ t. (refl, refl)))

  pub Quieto-exit : (n : Nucleo b) → Vale (Quieto n) (nachos_exit b n)
  unfolding nachos_exit
  Quieto-exit n =
      Quieto-tras n (liberar b.bits n.space.page_table n.paginas)
        (λ ps. terminado (record n { paginas = ps })) (λ ps. tt)

  pub Quieto-read : (n : Nucleo b) → Vale (Quieto n) (nachos_read b n)
  unfolding nachos_read
  Quieto-read n =
      Quieto-read_en (abierto (registro b n 6)) (registro b n 6) (registro b n 5)
        (b.unix.nuevo_char 1024) n
