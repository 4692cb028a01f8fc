-- ===== src/FileSystem/Llamadas.antt =====
-- What src/FileSystem.cpp calls of the operating system, and what it relies on of those calls.
use server_load_balancer_cli.Prelude.{ℕ, ◌≡◌, Option, some, List, length, take, drop}
use server_load_balancer_cli.Prelude.Int.{ℤ}
use server_load_balancer_cli.Prelude.Text.{Bytes}

-- The fields of `struct stat` that are used: the size, and the seconds of the last change.
pub record Stat : Type 0 where
  pub size : ℕ
  pub mtim : ℕ

-- The state of the files, and the calls. `none` is NULL or -1. `lseek` stands before each `read`
-- and `write`, so these take the position.
pub record Sistema : Type 1 where
  pub Disco : Type 0
  pub Fd : Type 0
  -- The names that `readdir` gives for a directory.
  pub opendir : Disco → Bytes → Option (List Bytes)
  -- `open(…, O_RDWR)`.
  pub abrir : Disco → Bytes → Option Fd
  pub stat : Disco → Bytes → Option Stat
  pub pread : Disco → Fd → ℕ → ℕ → Option Bytes
  pub pwrite : Disco → Fd → ℕ → Bytes → Disco × ℤ
  pub mkdir : Disco → Bytes → Option Disco
  -- `fopen(…, "w+")`.
  pub fopen : Disco → Bytes → Option Disco

-- Regular files: a read gives the bytes from the position on, as many as asked for and as there are,
-- and `stat` of a file that opens gives the number of its bytes.
pub record Regulares (s : Sistema) : Type 0 where
  pub contenido : s.Disco → s.Fd → Bytes
  pub pread_lem :
      (d : s.Disco) (fd : s.Fd) (p n : ℕ)
      → s.pread d fd p n ≡ some (take n (drop p (contenido d fd)))
  pub stat_lem :
      (d : s.Disco) (ruta : Bytes) (fd : s.Fd)
      → s.abrir d ruta ≡ some fd
      → (st : Stat) × (s.stat d ruta ≡ some st) × (st.size ≡ length (contenido d fd))
