-- ===== src/NachOs/Nucleo.antt =====
-- The state of the kernel, and the system calls on files (nachOS/code/userprog/exception.cc).
use server_load_balancer_cli.Prelude.{
  ℕ, suc, Option, none, some, [], ◌∷◌, length, take, ◌>>=◌, ◌==◌, if◌then◌else◌,
}
use server_load_balancer_cli.Prelude.Int.{ℤ, pos, negsuc, ◌+ℤ◌, size_t, eqb_ℤ}
use server_load_balancer_cli.Prelude.Text.{Bytes, c_str}
use server_load_balancer_cli.Prelude.Decimal.{to_string}
use server_load_balancer_cli.NachOs.Base.{Base}
use server_load_balancer_cli.NachOs.Resultado.{
  Resultado, sigue, detenido, terminado, luego, o_indefinido,
}
use server_load_balancer_cli.NachOs.OpenFilesTable.{
  OpenFilesTable, oft_open, get_unix_handle, add_thread, del_thread,
}
use server_load_balancer_cli.NachOs.AddrSpace.{AddrSpace, Paginas, liberar}
use server_load_balancer_cli.NachOs.Copia.{system_to_nachos}

-- `strlen`: `none` where no NUL stands in the memory that is read.
abbrev pub strlen : Bytes → Option ℕ
strlen [] = none
strlen (c ∷ s) = if c == 0 then some 0 else (strlen s >>= λ n. some (suc n))

-- The first three identifiers are the console's.
pub data Abierto : Type 0 where
  console_input : Abierto
  console_output : Abierto
  console_error : Abierto
  fichero : Abierto

abbrev pub abierto : ℤ → Abierto
abierto id =
    if eqb_ℤ id (pos 0)
    then console_input
    else if eqb_ℤ id (pos 1)
    then console_output
    else if eqb_ℤ id (pos 2)
    then console_error
    else fichero

module _ (b : Base) where
  -- The machine, the table of files, the host, the pages, the current thread's address space and the
  -- two counts of `stats`.
  pub record Nucleo : Type 0 where
    pub maquina : b.maquina.Estado
    pub oft : OpenFilesTable b.bits
    pub unix : b.unix.Mundo
    pub paginas : Paginas b.bits
    pub space : AddrSpace
    pub num_console_chars_written : ℤ
    pub num_console_chars_read : ℤ

  abbrev pub Fin : Type 0
  Fin = Resultado Nucleo Nucleo

  abbrev pub registro : Nucleo → ℕ → ℤ
  registro n r = b.maquina.read_register n.maquina r

  -- `machine->WriteRegister(2, v)`.
  abbrev pub responde : Nucleo → ℤ → Nucleo
  responde n v = record n { maquina = b.maquina.WriteRegister n.maquina 2 v }

  abbrev pub traer : Nucleo → ℤ → ℤ → (Bytes → Nucleo → Fin) → Fin
  unfolding system_to_nachos
  traer n va size k =
      luego (system_to_nachos b.maquina b.unix.basura_int va size n.maquina)
        (λ (bs, e). k bs (record n { maquina = e }))

  unfoldable pub nachos_halt : Nucleo → Fin
  nachos_halt n = detenido n

  -- The space's pages go back, and the thread does not return.
  unfoldable pub nachos_exit : Nucleo → Fin
  unfolding liberar
  nachos_exit n =
      luego (o_indefinido (liberar b.bits n.space.page_table n.paginas))
        (λ ps. terminado (record n { paginas = ps }))

  -- The calls whose body is empty.
  unfoldable pub nachos_sin_cuerpo : Nucleo → Fin
  nachos_sin_cuerpo n = sigue n

  unfoldable pub nachos_create : Nucleo → Fin
  unfolding system_to_nachos
  nachos_create n = traer n (registro n 4) (pos 64) (λ buffer. λ n₂.
      let (fd, u) = b.unix.crear n₂.unix (c_str buffer) in
      sigue (responde (record n₂ { unix = u }) fd))

  -- The host's descriptor is registered, a failed open's too, and the count of threads goes up.
  unfoldable pub nachos_open : Nucleo → Fin
  unfolding system_to_nachos
  nachos_open n = traer n (registro n 4) (pos 64) (λ buffer. λ n₂.
      let (unix_fd, u) = b.unix.abrir n₂.unix (c_str buffer) in
      luego (o_indefinido (oft_open b.bits n₂.oft unix_fd)) (λ (nachos_fd, t).
        sigue (responde (record n₂ { unix = u; oft = add_thread b.bits t }) nachos_fd)))

  unfoldable pub write_en : Abierto → ℤ → ℤ → ℤ → Bytes → Nucleo → Fin
  unfolding get_unix_handle
  write_en console_input id size position buffer n = sigue (responde n (negsuc 0))
  write_en console_output id size position buffer n =
      let texto = c_str buffer in
      sigue (record (responde n (pos (length texto))) {
        unix = b.unix.printf n.unix texto;
        num_console_chars_written = n.num_console_chars_written +ℤ pos (length texto);
      })
  write_en console_error id size position buffer n =
      sigue (record (responde n (pos 0)) { unix = b.unix.printf n.unix (to_string (registro n 4)) })
  write_en fichero id size position buffer n =
      luego (o_indefinido (get_unix_handle b.bits n.oft id)) (λ handle.
        let (written, u) =
          b.unix.write (b.unix.lseek n.unix handle position) handle (take (size_t size) buffer) in
        sigue (record (responde n written) {
          unix = u;
          num_console_chars_written = n.num_console_chars_written +ℤ written;
        }))

  unfoldable pub nachos_write : Nucleo → Fin
  unfolding write_en system_to_nachos
  nachos_write n =
      let size = registro n 5 in
      let id = registro n 6 in
      let position = registro n 7 in
      traer n (registro n 4) size (λ buffer. λ n₂. write_en (abierto id) id size position buffer n₂)

  unfoldable pub nachos_close : Nucleo → Fin
  unfolding get_unix_handle del_thread
  nachos_close n = luego (o_indefinido (get_unix_handle b.bits n.oft (registro n 4))) (λ unix_id.
      luego (o_indefinido (del_thread b.bits n.oft))
        (λ t. sigue (record n { unix = b.unix.close n.unix unix_id; oft = t })))
