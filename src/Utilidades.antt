-- ===== src/Utilidades.antt =====
-- src/Utilidades.cpp: cutting texts, header values, random numbers, the broadcast address and the
-- small files. The clock, `rand`, the files and libc's address functions are arguments.
pub mod Split
pub mod Trozos
pub mod Header
pub mod Red
pub mod Rutas
mod Tests
use server_load_balancer_cli.Prelude.{
  ℕ, zero, suc, ◌+◌, ◌-◌, ◌*◌, ◌%◌, ◌^◌, ◌≤◌, Option, none, some, List, [], ◌∷◌, ◌++◌, min, length,
  take, drop, ltb, ◌==◌, if◌then◌else◌, true, false, ◌&&◌, ◌||◌, ◌>>=◌,
}
use server_load_balancer_cli.Prelude.Int.{
  ℤ, pos, negsuc, ◌+ℤ◌, ◌-ℤ◌, int32, size_t, pos_part, neg_part,
}
use server_load_balancer_cli.Prelude.Text.{Bytes, codes, find, find_from, c_str}

abbrev pub crlf : Bytes
crlf = 13 ∷ 10 ∷ []

-- `BUFFER_SIZE` of WebCliente.hpp and WebServidor.hpp.
abbrev pub buffer_size : ℕ
buffer_size = 4096

-- The pieces cut off so far, and the line that is left.
pub record Corte : Type 0 where
  pub hileras : List Bytes
  pub resto : Bytes

-- The `while` of `split`: `n` is the number of rounds that `contador` leaves.
split_loop : ℕ → Bytes → Bytes → List Bytes → Corte
split_loop zero line d out = record { hileras = out; resto = line }
split_loop (suc n) line d out = elim (find line d) [
  | none ↦ record { hileras = out; resto = line }
  | some p ↦ split_loop n (drop (p + length d) line) d (out ++ take p line ∷ [])
]

-- The rest goes to the end unless it is empty.
con_resto : List Bytes → Bytes → List Bytes
con_resto hileras [] = hileras
con_resto hileras (c ∷ resto) = hileras ++ (c ∷ resto) ∷ []

-- `split(line, delimitador, veces)`.
unfoldable pub split : Bytes → Bytes → ℕ → List Bytes
unfolding split_loop con_resto
split [] d veces = []
split (c ∷ s) d veces =
    let corte = split_loop (veces + 1) (c ∷ s) d [] in con_resto corte.hileras corte.resto

-- `split(&line, delimitador)`: the part before the delimiter, and the new value of `*line`.
unfoldable pub split_linea : Bytes → Bytes → Bytes × Bytes
split_linea line d = elim (find line d) [
  | none ↦ (line, [])
  | some p ↦ (take p line, drop (p + length d) line)
]

-- What `split(char*, delimitador, &pos)` leaves: its result, the buffer `line` and `*pos`.
pub record CorteBuffer : Type 0 where
  pub parte : Bytes
  pub line : Bytes
  pub pos : ℕ

-- `line` holds `BUFFER_SIZE` bytes; `ultimo` is the byte of `bufferTemporal` that nothing sets.
-- `none`: `strstr` finds nothing, or the length for `memcpy` is negative.
unfoldable pub split_buffer : Bytes → Bytes → ℕ → Option CorteBuffer
split_buffer line d ultimo = do
  p ← find (c_str (take buffer_size line ++ ultimo ∷ [])) d
  let pos = p + 4
  let diferencia = buffer_size - pos
  if ltb buffer_size pos
      then none
      else some (record {
        parte = c_str (take pos line);
        line = drop pos line ++ 0 ∷ drop (diferencia + 1) line;
        pos = pos;
      })

-- The value of `npos` where a place is stored in a `size_t`.
abbrev pub npos : Option ℕ → ℕ
npos none = 2 ^ 64 - 1
npos (some p) = p

-- A place in the header that `int posicionCierre` keeps, read as a `size_t`, less `posicion`.
hasta_cierre : Option ℕ → ℕ → ℕ
hasta_cierre cierre posicion = (size_t (int32 (npos cierre)) + 2 ^ 64 - posicion) % 2 ^ 64

unfoldable pub extraer_valor_header : Bytes → Bytes → Bytes
unfolding hasta_cierre
extraer_valor_header header clave = elim (find header clave) [
  | none ↦ []
  | some p ↦
      let posicion = p + length clave in
      let cierre_1 = hasta_cierre (find_from header crlf posicion) posicion in
      let cierre_2 = hasta_cierre (find_from header (b';' ∷ []) posicion) posicion in
      take (size_t (int32 (min cierre_1 cierre_2))) (drop posicion header)
]

-- `minimo + (rand() % (maximo - minimo + 1))`, for the `r` that `rand` returns; `none` is the
-- division by zero.
unfoldable pub get_numero_random : ℕ → ℤ → ℤ → Option ℤ
get_numero_random r minimo maximo =
    let ancho = maximo -ℤ minimo +ℤ pos 1 in
    let divisor = pos_part ancho + neg_part ancho in
    if divisor == 0 then none else some (minimo +ℤ pos (r % divisor))

-- The date without the line end that `ctime` gives.
unfoldable pub get_fecha : Bytes → Bytes
get_fecha tiempo = if length tiempo == 0 then tiempo else take (length tiempo - 1) tiempo

-- `leerArchivo`: the lines that `getline` gives, joined; `actual` is the line being read. A file that
-- does not open is `none`.
leer_lineas : Bytes → Bytes → Bytes → Bytes
leer_lineas [] actual doc = doc ++ actual
leer_lineas (c ∷ s) actual doc =
    leer_lineas s (if c == 10 then [] else actual ++ c ∷ [])
      (if c == 10 then doc ++ actual else doc)

unfoldable pub leer_archivo : Option Bytes → Bytes
unfolding leer_lineas
leer_archivo none = []
leer_archivo (some s) = leer_lineas s [] []

-- `recuperarSubnet`: network.config copied into 32 bytes; `none` is a write past their end.
unfoldable pub recuperar_subnet : Option Bytes → Option Bytes
unfolding leer_archivo
recuperar_subnet config =
    let ip = c_str (leer_archivo config) in if ltb (length ip) 32 then some ip else none

-- The sum of `pow(2, i)` for `i` from 0 below `complemento`.
suma_potencias : ℕ → ℕ
suma_potencias zero = 0
suma_potencias (suc i) = suma_potencias i + 2 ^ i

-- The arithmetic of `getBroadcastIP` on addresses in host order, for a mask of 1 to 32 bits.
-- `~suma & direccion` clears the bits of `suma`, which is 2^complemento - 1 (`Red`). A sum out of
-- 32 bits is undefined, since it is converted from a `double`.
unfoldable pub direccion_broadcast : ℕ → ℕ → Option ℕ
unfolding suma_potencias
direccion_broadcast direccion mascara =
    let complemento = 32 - mascara in
    let subnet = direccion - direccion % (suma_potencias complemento + 1) in
    let total = subnet + complemento ^ 2 in
    if (total == 0) || ltb (2 ^ 32) total then none else some (total - 1)
