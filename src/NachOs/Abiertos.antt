-- ===== src/NachOs/Abiertos.antt =====
-- What the table of open files answers (nachOS/code/userprog/openfiletable.cc).
use server_load_balancer_cli.Prelude.{
  ℕ, ◌+◌, ◌≤◌, ◌<◌, ◌≡◌, ◌≢◌, refl, ap, ◌∙◌, sym, true, none, some, List, length, length-set, set,
  get_elem?, get_elem?-set_self, get_elem?-set_ne, ◌>>=◌, ltb, lt→ltb, le→ltb, ==_refl, arith,
  Bool-cases, inl, inr,
}
use server_load_balancer_cli.Prelude.Int.{ℤ, pos, negsuc, ◌+ℤ◌, ◌-ℤ◌}
use server_load_balancer_cli.NachOs.Base.{BitMap, Mapas}
use server_load_balancer_cli.NachOs.OpenFilesTable.{
  OpenFilesTable, file_limit, en_tabla, oft_open, is_opened, get_unix_handle, del_thread,
}

en_tabla-lt : (n : ℕ) → n < file_limit → en_tabla (pos n) ≡ some n
unfolding en_tabla
en_tabla-lt n h = rw (lt→ltb n file_limit h) refl

pos_mas : (n : ℕ) → (pos n +ℤ pos 1) ≡ pos (n + 1)
unfolding ◌+ℤ◌
pos_mas n = ground arith

pos_menos : (n : ℕ) → (pos (n + 1) -ℤ pos 1) ≡ pos n
unfolding ◌-ℤ◌
pos_menos n = ground arith

otra_entrada :
    (hs : List ℤ) (n : ℕ) (v z : ℤ)
    → z ≢ pos n
    → (en_tabla z >>= λ i. get_elem? (set hs n v) i) ≡ (en_tabla z >>= λ i. get_elem? hs i)
unfolding en_tabla
otra_entrada hs n v (negsuc q) ne = refl
otra_entrada hs n v (pos q) ne = elim (Bool-cases (ltb q file_limit)) [
  | inl e ↦ rw e (get_elem?-set_ne hs v (λ h. ne (ap pos (sym h))))
  | inr e ↦ rw e refl
]

module _ (m : BitMap) (x : Mapas m) where
  -- An array of 32 handles and a bit map of 32 bits, and the next place.
  pub record Tabla (t : OpenFilesTable m) (n : ℕ) : Type 0 where
    pub open_files : length t.open_files ≡ file_limit
    pub open_files_map : x.num_bits t.open_files_map ≡ file_limit
    pub usage : t.usage ≡ pos n

  -- While there is room, a handle gets the next number; it is found under it, the number is open, the
  -- handles under the other numbers are as before, and the next number is one more.
  pub oft_open_lem :
      (t : OpenFilesTable m) (n : ℕ) (unix_handle z : ℤ)
      → Tabla t n
      → n < file_limit
      → z ≢ pos n
      → (u : OpenFilesTable m) × (oft_open m t unix_handle ≡ some (pos n, u))
        × (get_unix_handle m u (pos n) ≡ some unix_handle)
        × (is_opened m u (pos n) ≡ some true)
        × (get_unix_handle m u z ≡ get_unix_handle m t z)
        × Tabla u (n + 1)
  unfolding oft_open get_unix_handle is_opened
  oft_open_lem t n unix_handle z k h ne =
      let (b, marca, bits, cada) = x.mark_lem t.open_files_map n (rw k.open_files_map h) in
      (
        record {
          open_files = set t.open_files n unix_handle;
          open_files_map = b;
          usage = pos n +ℤ pos 1;
        },
        rw (oft_open, k.usage, en_tabla-lt n h, marca) refl,
        rw (get_unix_handle, en_tabla-lt n h)
            (get_elem?-set_self t.open_files n unix_handle (rw k.open_files h)),
        rw (is_opened, en_tabla-lt n h)
            (x.test_lem b n (rw (bits, k.open_files_map) h)
              ∙ ap some (cada n ∙ rw (==_refl n) refl)),
        otra_entrada t.open_files n unix_handle z ne,
        record {
          open_files = length-set t.open_files n unix_handle ∙ k.open_files;
          open_files_map = bits ∙ k.open_files_map;
          usage = pos_mas n;
        },
      )

  -- When the 32 places are taken, one more open writes outside the array.
  oft_open_llena :
      (t : OpenFilesTable m) (n : ℕ) (unix_handle : ℤ)
      → Tabla t n
      → file_limit ≤ n
      → oft_open m t unix_handle ≡ none
  unfolding oft_open en_tabla
  oft_open_llena t n unix_handle k h = rw (oft_open, k.usage, en_tabla, le→ltb n file_limit h) refl

  -- A close takes one from the count, which is not 0 then.
  del_thread_lem :
      (t : OpenFilesTable m) (n : ℕ)
      → Tabla t (n + 1)
      → 0 < n
      → (u : OpenFilesTable m) × (del_thread m t ≡ some u) × Tabla u n
  unfolding del_thread
  del_thread_lem t n k h = (
    record t { usage = t.usage -ℤ pos 1 },
    rw (del_thread, k.usage, pos_menos n) (ground arith),
    record {
      open_files = k.open_files;
      open_files_map = k.open_files_map;
      usage = rw k.usage (pos_menos n);
    },
  )
