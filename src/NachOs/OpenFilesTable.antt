-- ===== src/NachOs/OpenFilesTable.antt =====
-- The table of open files (nachOS/code/userprog/openfiletable.cc), over an array of 32 handles.
use server_load_balancer_cli.Prelude.{
  ℕ, zero, suc, Option, none, some, List, set, get_elem?, ◌>>=◌, ltb, if◌then◌else◌, Bool,
}
use server_load_balancer_cli.Prelude.Int.{ℤ, pos, negsuc, ◌+ℤ◌, ◌-ℤ◌, eqb_ℤ}
use server_load_balancer_cli.NachOs.Base.{BitMap}

abbrev pub file_limit : ℕ
file_limit = 32

-- `openFiles[i]`: `none` outside the array.
unfoldable pub en_tabla : ℤ → Option ℕ
en_tabla (pos n) = if ltb n file_limit then some n else none
en_tabla (negsuc n) = none

module _ (m : BitMap) where
  pub record OpenFilesTable : Type 0 where
    pub open_files : List ℤ
    pub open_files_map : m.Bits
    pub usage : ℤ

  -- `openFiles[usage] = UnixHandle` and `Mark(usage)`; the result is the place. `none` is an access
  -- outside the array.
  unfoldable pub oft_open : OpenFilesTable → ℤ → Option (ℤ × OpenFilesTable)
  unfolding en_tabla
  oft_open t unix_handle = en_tabla t.usage >>= λ i. m.mark t.open_files_map i >>= λ marcado. some (
    t.usage,
    record {
      open_files = set t.open_files i unix_handle;
      open_files_map = marcado;
      usage = t.usage +ℤ pos 1;
    },
  )

  -- The constructor, on the array that `new int[32]` gives.
  unfoldable pub oft_nueva : List ℤ → Option OpenFilesTable
  unfolding oft_open
  oft_nueva memoria =
      oft_open (record { open_files = memoria; open_files_map = m.nuevo file_limit; usage = pos 0 })
        (negsuc 0)
      >>= λ (i, t).
          oft_open t (negsuc 0) >>= λ (j, t₂). oft_open t₂ (negsuc 0) >>= λ (k, t₃). some t₃

  unfoldable pub oft_close : OpenFilesTable → ℤ → Option (ℤ × OpenFilesTable)
  unfolding en_tabla
  oft_close t nachos_handle = en_tabla nachos_handle >>= λ i.
      m.clear t.open_files_map i >>= λ libre.
      some (pos 0, record t { open_files = set t.open_files i (pos 0); open_files_map = libre })

  unfoldable pub is_opened : OpenFilesTable → ℤ → Option Bool
  unfolding en_tabla
  is_opened t nachos_handle = en_tabla nachos_handle >>= λ i. m.test t.open_files_map i

  unfoldable pub get_unix_handle : OpenFilesTable → ℤ → Option ℤ
  unfolding en_tabla
  get_unix_handle t nachos_handle = en_tabla nachos_handle >>= λ i. get_elem? t.open_files i

  unfoldable pub add_thread : OpenFilesTable → OpenFilesTable
  add_thread t = record t { usage = t.usage +ℤ pos 1 }

  -- The loop of `delThread`: the entries from `i` on, `n` of them, are cleared.
  unfoldable pub vaciar : ℕ → ℕ → OpenFilesTable → Option OpenFilesTable
  vaciar zero i t = some t
  vaciar (suc n) i t = m.clear t.open_files_map i >>= λ libre.
      vaciar n (suc i)
        (record t { open_files_map = libre; open_files = set t.open_files i (pos 0) })

  unfoldable pub del_thread : OpenFilesTable → Option OpenFilesTable
  unfolding vaciar
  del_thread t =
      let menos : OpenFilesTable = record t { usage = t.usage -ℤ pos 1 } in
      let vacia = vaciar file_limit 0 menos in
      if eqb_ℤ menos.usage (pos 0) then vacia else some menos
