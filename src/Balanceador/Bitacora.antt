-- ===== src/Balanceador/Bitacora.antt =====
-- `manejarBitacora` of src/Balanceador.cpp: the queue of messages goes to the console and to the file.
use server_load_balancer_cli.Prelude.{
  ◌<◌, ◌^◌, Option, some, none, ltb, lt→ltb, arith, ℕ, ◌+◌, ◌≡◌, refl, ap, Bool, true, false, ◌||◌,
  List, [], ◌∷◌, ◌++◌, flatten, length, map, if◌then◌else◌, Bool-cases, inl, inr,
}
use server_load_balancer_cli.Prelude.Text.{Bytes, text_eq, c_str}
use server_load_balancer_cli.Prelude.Escrituras.{Seguidos, textos}
use server_load_balancer_cli.FileSystem.Escritura.{Seguidos-length}
use server_load_balancer_cli.Balanceador.{Balanceador, red, white}

-- What the loop leaves, as far as `filePosition` can count: the queue is used up. `consola` is what `printf` was given, `escritos` the
-- calls of `escribirArchivo`, the text with its place in the file, the first one first.
pub record Volcado : Type 0 where
  pub file_position : ℕ
  pub consola : Bytes
  pub escritos : List (ℕ × Bytes)

abbrev pub es_color : Bytes → Bool
es_color hilera = text_eq hilera red || text_eq hilera white

unfoldable pub volcar : List Bytes → ℕ → Volcado
volcar [] pos = record { file_position = pos; consola = []; escritos = [] }
volcar (hilera ∷ cola) pos = elim (es_color hilera) [
  | true ↦ let resto = volcar cola pos in record resto { consola = c_str hilera ++ resto.consola }
  | false ↦
      let resto = volcar cola (pos + length hilera) in
      record resto {
        consola = c_str hilera ++ resto.consola;
        escritos = (pos, hilera) ∷ resto.escritos;
      }
]

-- `filePosition` is an `int`: `none` is a place that it cannot hold.
unfoldable pub manejar_bitacora : Balanceador → Option (Balanceador × Volcado)
unfolding volcar
manejar_bitacora b =
    let v = volcar b.log_mensajes b.file_position in
    if ltb v.file_position (2 ^ 31)
    then some (record b { log_mensajes = []; file_position = v.file_position }, v)
    else none

-- The messages that are no colour codes.
abbrev pub sin_color : List Bytes → List Bytes
sin_color [] = []
sin_color (m ∷ ms) = if es_color m then sin_color ms else m ∷ sin_color ms

abbrev pub Volcada : List Bytes → ℕ → Volcado → Type 0
Volcada ms desde v =
    (textos v.escritos ≡ sin_color ms)
    × Seguidos desde v.escritos v.file_position
    × (v.consola ≡ flatten (map c_str ms))

volcar_lem : (ms : List Bytes) (desde : ℕ) → Volcada ms desde (volcar ms desde)
unfolding volcar
volcar_lem [] desde = (refl, refl, refl)
volcar_lem (m ∷ ms) desde = elim (Bool-cases (es_color m)) [
  | inl e ↦ let (t, s, c) = volcar_lem ms desde in rw (volcar, e) (t, s, ap (λ x. c_str m ++ x) c)
  | inr e ↦
      let (t, s, c) = volcar_lem ms (desde + length m) in
      rw (volcar, e) (ap (λ x. m ∷ x) t, (refl, s), ap (λ x. c_str m ++ x) c)
]

-- Where the file stays below 2 GiB, the queue is emptied. The messages other than colour codes are
-- written in their order, without a gap and from the place where the file ended, where the next call
-- goes on; the console gets all of them.
pub manejar_bitacora_lem :
    (b : Balanceador)
    → b.file_position + length (flatten (sin_color b.log_mensajes)) < 2 ^ 31
    → (b' : Balanceador) × (v : Volcado) × (manejar_bitacora b ≡ some (b', v))
      × (b'.log_mensajes ≡ [])
      × (b'.file_position ≡ v.file_position)
      × Volcada b.log_mensajes b.file_position v
unfolding manejar_bitacora
manejar_bitacora_lem b h =
    let v = volcar b.log_mensajes b.file_position in
    let (t, s, c) = volcar_lem b.log_mensajes b.file_position in
    let cabe : ltb v.file_position (2 ^ 31) ≡ true = lt→ltb v.file_position (2 ^ 31) (
      omega (
        arith,
        h,
        Seguidos-length b.file_position v.file_position v.escritos s,
        ap (λ x. length (flatten x)) t,
      )) in
    (
      record b { log_mensajes = []; file_position = v.file_position },
      v,
      rw (manejar_bitacora, cabe) refl,
      refl,
      refl,
      (t, s, c),
    )
