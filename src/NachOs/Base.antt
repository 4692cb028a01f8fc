-- ===== src/NachOs/Base.antt =====
-- What nachOS/code/userprog calls of the simulated machine, of its bit maps and of the host's sockets
-- and files, and what it relies on of those calls.
use server_load_balancer_cli.Prelude.{
  ℕ, ◌<◌, ◌≡◌, ◌≢◌, Bool, false, Option, some, ◌==◌, if◌then◌else◌, ◌||◌, ◌⊎◌,
}
use server_load_balancer_cli.Prelude.Int.{ℤ, pos, negsuc}
use server_load_balancer_cli.Prelude.Text.{Bytes}

-- `BitMap`. `none` is a failed ASSERT on the number of the bit.
pub record BitMap : Type 1 where
  pub Bits : Type 0
  -- The constructor: every bit is clear.
  pub nuevo : ℕ → Bits
  pub mark : Bits → ℕ → Option Bits
  pub clear : Bits → ℕ → Option Bits
  pub test : Bits → ℕ → Option Bool
  -- The number of a bit that was clear, which is set; or -1.
  pub find : Bits → ℤ × Bits

-- The bits, and what the calls do to them.
pub record Mapas (m : BitMap) : Type 0 where
  pub num_bits : m.Bits → ℕ
  pub bit : m.Bits → ℕ → Bool
  pub num_bits-nuevo : (n : ℕ) → num_bits (m.nuevo n) ≡ n
  pub bit-nuevo : (n i : ℕ) → bit (m.nuevo n) i ≡ false
  pub mark_lem :
      (b : m.Bits) (i : ℕ)
      → i < num_bits b
      → (c : m.Bits) × (m.mark b i ≡ some c)
        × (num_bits c ≡ num_bits b)
        × ((j : ℕ) → bit c j ≡ ((i == j) || bit b j))
  pub clear_lem :
      (b : m.Bits) (i : ℕ)
      → i < num_bits b
      → (c : m.Bits) × (m.clear b i ≡ some c)
        × (num_bits c ≡ num_bits b)
        × ((j : ℕ) → bit c j ≡ (if i == j then false else bit b j))
  pub test_lem : (b : m.Bits) (i : ℕ) → i < num_bits b → m.test b i ≡ some (bit b i)
  pub find_lem :
      (b : m.Bits)
      → (m.find b ≡ (negsuc 0, b))
        ⊎ ((i : ℕ) × (c : m.Bits) × (m.find b ≡ (pos i, c))
            × (i < num_bits b)
            × (bit b i ≡ false)
            × (num_bits c ≡ num_bits b)
            × ((j : ℕ) → bit c j ≡ ((i == j) || bit b j)))

-- The exceptions other than a system call, of `ExceptionType`.
pub data Fallo : Type 0 where
  no_exception : Fallo
  page_fault_exception : Fallo
  read_only_exception : Fallo
  bus_error_exception : Fallo
  address_error_exception : Fallo
  overflow_exception : Fallo
  illegal_instr_exception : Fallo

pub data ExceptionType : Type 0 where
  syscall_exception : ExceptionType
  fallo : Fallo → ExceptionType

-- An access to memory: the value, or the exception that the machine raises and its registers then.
pub data Acceso (M A : Type 0) : Type 0 where
  hecho : A → Acceso M A
  excepcion : Fallo → M → Acceso M A

-- `Machine`, with accesses of one byte.
pub record Maquina : Type 1 where
  pub Estado : Type 0
  pub read_register : Estado → ℕ → ℤ
  pub WriteRegister : Estado → ℕ → ℤ → Estado
  pub ReadMem : Estado → ℤ → Acceso Estado ℤ
  pub WriteMem : Estado → ℤ → ℤ → Acceso Estado Estado

abbrev pub pc_reg : ℕ
pc_reg = 34

abbrev pub next_pc_reg : ℕ
next_pc_reg = 35

abbrev pub prev_pc_reg : ℕ
prev_pc_reg = 36

-- A register keeps what was written, and an access to memory changes neither program counter.
pub record Registros (m : Maquina) : Type 0 where
  pub read-write : (e : m.Estado) (r : ℕ) (v : ℤ) → m.read_register (m.WriteRegister e r v) r ≡ v
  pub read_other :
      (e : m.Estado) (r q : ℕ) (v : ℤ)
      → q ≢ r
      → m.read_register (m.WriteRegister e r v) q ≡ m.read_register e q
  pub read_pc :
      (e f : m.Estado) (a : ℤ) (x : Fallo)
      → m.ReadMem e a ≡ excepcion x f
      → (m.read_register f pc_reg ≡ m.read_register e pc_reg)
        × (m.read_register f next_pc_reg ≡ m.read_register e next_pc_reg)
  pub write_pc :
      (e f : m.Estado) (a v : ℤ)
      → m.WriteMem e a v ≡ hecho f
      → (m.read_register f pc_reg ≡ m.read_register e pc_reg)
        × (m.read_register f next_pc_reg ≡ m.read_register e next_pc_reg)
  pub fault_pc :
      (e f : m.Estado) (a v : ℤ) (x : Fallo)
      → m.WriteMem e a v ≡ excepcion x f
      → (m.read_register f pc_reg ≡ m.read_register e pc_reg)
        × (m.read_register f next_pc_reg ≡ m.read_register e next_pc_reg)

-- A socket address: the port and the address.
pub data Sockaddr : Type 0 where
  sockaddr_in : ℕ → ℕ → Sockaddr
  sockaddr_in6 : ℕ → ℕ → Sockaddr

-- The host: its calls, its constants, and the bytes of memory that is not initialised.
pub record Unix : Type 1 where
  pub Mundo : Type 0
  -- `open(…, O_TRUNC | O_CREAT, 0777)` and `open(…, O_RDWR)`.
  pub crear : Mundo → Bytes → ℤ × Mundo
  pub abrir : Mundo → Bytes → ℤ × Mundo
  pub lseek : Mundo → ℤ → ℤ → Mundo
  pub write : Mundo → ℤ → Bytes → ℤ × Mundo
  -- The bytes that are stored, and the result.
  pub recv : Mundo → ℤ → ℕ → Bytes × ℤ × Mundo
  pub close : Mundo → ℤ → Mundo
  -- The word, or `none` at the end of the input.
  pub scanf : Mundo → Option Bytes × Mundo
  pub printf : Mundo → Bytes → Mundo
  pub socket : Mundo → ℤ → ℤ → ℤ × Mundo
  -- The family that is stored, or `none` when the call fails.
  pub getsockname : Mundo → ℤ → Option ℤ
  pub connect : Mundo → ℤ → Sockaddr → ℤ × Mundo
  pub bind : Mundo → ℤ → Sockaddr → ℤ × Mundo
  pub listen : Mundo → ℤ → ℤ → ℤ × Mundo
  pub accept : Mundo → ℤ → ℤ × Mundo
  pub shutdown : Mundo → ℤ → ℤ → ℤ × Mundo
  pub inet_addr : Bytes → ℕ
  pub inet_pton : Bytes → Option ℕ
  pub af_inet : ℤ
  pub af_inet6 : ℤ
  pub sock_stream : ℤ
  pub sock_dgram : ℤ
  pub shut_rd : ℤ
  pub shut_wr : ℤ
  pub shut_rdwr : ℤ
  pub inaddr_any : ℕ
  pub in6addr_any : ℕ
  -- `new char[n]`, and uninitialised variables.
  pub nuevo_char : ℕ → Bytes
  pub basura_int : ℤ
  pub basura_direccion : ℕ

-- The three together.
pub record Base : Type 1 where
  pub bits : BitMap
  pub maquina : Maquina
  pub unix : Unix
