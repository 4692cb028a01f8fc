-- ===== src/Balanceador/Reenvio.antt =====
-- The bytes that `hilo_Cliente` (src/Balanceador.cpp) passes on between the two sockets of a session.
use server_load_balancer_cli.Prelude.{
  ℕ, ◌≡◌, refl, inl, inr, true, false, Option, none, some, List, [], ◌∷◌, ◌++◌, length, drop, arith,
  ◌>>=◌, Bool-cases, Option-cases,
}
use server_load_balancer_cli.Prelude.Text.{Bytes, c_str, find, is_found, starts_with, shift, Lacks}
use server_load_balancer_cli.Prelude.Find.{find_cases}
use server_load_balancer_cli.Utilidades.{crlf}

-- A `recv` into the buffer: bytes of an earlier, longer text stay behind the new ones.
abbrev pub recibido : Bytes → Bytes → Bytes
recibido buffer datos = datos ++ drop (length datos) buffer

-- The loop over the request: each text is sent on, until the buffer, read up to its first NUL, holds
-- a blank line. `none`: the texts end first, and the loop would wait for more.
unfoldable pub reenviar_peticion : Bytes → List Bytes → Option (List Bytes)
reenviar_peticion buffer [] = none
reenviar_peticion buffer (datos ∷ mas) =
    elim (is_found (find (c_str (recibido buffer datos)) (crlf ++ crlf))) [
      | true ↦ some (datos ∷ [])
      | false ↦ do resto ← reenviar_peticion (recibido buffer datos) mas; some (datos ∷ resto)
    ]

-- The loop over the answer, up to the first read that gives nothing.
unfoldable pub reenviar_respuesta : List Bytes → List Bytes
reenviar_respuesta [] = []
reenviar_respuesta ([] ∷ mas) = []
reenviar_respuesta ((c ∷ datos) ∷ mas) = (c ∷ datos) ∷ reenviar_respuesta mas

pub c_str-append : (s t : Bytes) → Lacks 0 s → c_str (s ++ t) ≡ s ++ c_str t
unfolding c_str
c_str-append [] t h = refl
c_str-append (c ∷ s) t (d, h) = ground (arith, c_str-append s t h)

starts_with-mas : (d s t : Bytes) → starts_with d s ≡ true → starts_with d (s ++ t) ≡ true
unfolding starts_with
starts_with-mas [] s t h = refl
starts_with-mas (x ∷ d) [] t h = cc
starts_with-mas (x ∷ d) (c ∷ s) t h = ground (arith, starts_with-mas d s t)

is_found-shift : (o : Option ℕ) → is_found (shift o) ≡ is_found o
is_found-shift none = refl
is_found-shift (some p) = refl

-- A pattern that stands in a text stands in every longer one.
is_found-append :
    (s t : Bytes) (x : ℕ) (d : Bytes) (p : ℕ)
    → find s (x ∷ d) ≡ some p
    → is_found (find (s ++ t) (x ∷ d)) ≡ true
unfolding find starts_with
is_found-append [] t x d p h = cc
is_found-append (c ∷ s) t x d p h = elim (find_cases c s (x ∷ d) h) [
  | inl (e, z) ↦ rw (find, starts_with-mas (x ∷ d) (c ∷ s) t e) refl
  | inr (q, e, f, z) ↦ elim (Bool-cases (starts_with (x ∷ d) (c ∷ (s ++ t)))) [
    | inl g ↦ rw (find, g) refl
    | inr g ↦ rw (find, g, is_found-shift (find (s ++ t) (x ∷ d))) (is_found-append s t x d q f)
  ]
]

-- Each text that is received is sent on, in its order, and none behind the one that ends the request.
pub reenviar_peticion_lem :
    (buffer : Bytes) (antes : List Bytes) (datos : Bytes) (mas : List Bytes) (p : ℕ)
    → reenviar_peticion buffer antes ≡ none
    → Lacks 0 datos
    → find datos (crlf ++ crlf) ≡ some p
    → reenviar_peticion buffer (antes ++ datos ∷ mas) ≡ some (antes ++ datos ∷ [])
unfolding reenviar_peticion
reenviar_peticion_lem buffer [] datos mas p n h e =
    rw
      (
        reenviar_peticion,
        c_str-append datos (drop (length datos) buffer) h,
        is_found-append datos (c_str (drop (length datos) buffer)) 13 (10 ∷ 13 ∷ 10 ∷ []) p e,
      )
      refl
reenviar_peticion_lem buffer (a ∷ antes) datos mas p n h e =
    elim (Bool-cases (is_found (find (c_str (recibido buffer a)) (crlf ++ crlf)))) [
      | inl t ↦ absurd (let k = rw (reenviar_peticion, t) at n in cc)
      | inr t ↦ elim (Option-cases (reenviar_peticion (recibido buffer a) antes)) [
        | inl k ↦
            rw
              (
                reenviar_peticion,
                t,
                reenviar_peticion_lem (recibido buffer a) antes datos mas p k h e,
              )
              refl
        | inr (x, k) ↦ absurd (let q = rw (reenviar_peticion, t, k) at n in cc)
      ]
    ]
