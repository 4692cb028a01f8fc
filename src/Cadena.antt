-- ===== src/Cadena.antt =====
-- A request on its way: a client of src/WebCliente.cpp, a session of src/Balanceador.cpp and a child
-- process of src/WebServidor.cpp, over the streams of bytes between them.
pub mod Pedido
pub mod Descarga
mod Tests
mod TestsDescarga
use server_load_balancer_cli.Prelude.{
  zero, suc, get_elem?, drop, ◌==◌, ==_iff, Bool-cases, ℕ, ◌+◌, ◌≡◌, refl, sym, ap, ◌∙◌, subst,
  Option, none, some, some_inj, List, [], ◌∷◌, ◌++◌, flatten, length, length-append, append-nil,
  append_assoc, Option-cases, inl, inr, arith, ◌>>=◌,
}
use server_load_balancer_cli.Prelude.Text.{Bytes, find, Lacks, All-split}
use server_load_balancer_cli.Socket.{texto_de}
use server_load_balancer_cli.Prelude.Find.{find-append_some, find-le-length}
use server_load_balancer_cli.Utilidades.{crlf}
use server_load_balancer_cli.FileSystem.Llamadas.{Sistema}
use server_load_balancer_cli.InterpreteHttp.{InterpreteHttp}
use server_load_balancer_cli.Balanceador.Reenvio.{
  reenviar_peticion, reenviar_respuesta, reenviar_peticion_lem,
}
use server_load_balancer_cli.WebServidor.{recibir_peticion, responder}

-- No read gives nothing.
abbrev pub NoVacias : List Bytes → Type 0
NoVacias [] = Unit
NoVacias ([] ∷ ts) = ⊥
NoVacias ((c ∷ t) ∷ ts) = NoVacias ts

-- The network: what is written to a connection is read from it in pieces that are not empty and spell it.
-- The number tells the three streams of a session apart.
pub record Corriente : Type 0 where
  pub partir : ℕ → Bytes → List Bytes
  pub flatten-partir : (k : ℕ) (t : Bytes) → flatten (partir k t) ≡ t
  pub partir-NoVacias : (k : ℕ) (t : Bytes) → NoVacias (partir k t)

module _ (s : Sistema) (fecha_gmt : ℕ → Bytes) where
  open s use {Disco, Fd}

  -- What a client is sent by a server that has read the request whole.
  unfoldable pub directo : ℕ → Disco → InterpreteHttp Fd → Bytes → Bytes → Option Bytes
  unfolding responder
  directo f d h fecha peticion = do
    (cabecera, cuerpo) ← responder s fecha_gmt f d h fecha peticion
    some (cabecera ++ cuerpo)

module _ (s : Sistema) (fecha_gmt : ℕ → Bytes) (red : Corriente) where
  open s use {Disco, Fd}

  -- What a client reads that is connected to the balancer, whose buffer held `buffer`: the request passes
  -- the balancer, the server, whose buffers held `memorias`, reads and answers it, closes, and the answer
  -- passes the balancer.
  unfoldable pub por_balanceador :
      ℕ → Disco → InterpreteHttp Fd → Bytes → Bytes → List Bytes → Bytes → Option Bytes
  unfolding reenviar_peticion recibir_peticion responder reenviar_respuesta
  por_balanceador f d h fecha buffer memorias peticion = do
    pasadas ← reenviar_peticion buffer (red.partir 0 peticion)
    recibida ← recibir_peticion (red.partir 1 (flatten pasadas)) memorias []
    (cabecera, cuerpo) ← responder s fecha_gmt f d h fecha recibida
    some (flatten (reenviar_respuesta (red.partir 2 (cabecera ++ cuerpo) ++ [] ∷ [])))

flatten-reenviar_respuesta :
    (ts : List Bytes) → NoVacias ts → flatten (reenviar_respuesta (ts ++ [] ∷ [])) ≡ flatten ts
unfolding reenviar_respuesta
flatten-reenviar_respuesta [] h = refl
flatten-reenviar_respuesta ([] ∷ ts) h = absurd h
flatten-reenviar_respuesta ((c ∷ t) ∷ ts) h =
    ap (λ x. (c ∷ t) ++ x) (flatten-reenviar_respuesta ts h)

-- The blank line of the text is at its end, and there only.
pub record IsCerrada (peticion : Bytes) : Type 0 where
  pub sitio : ℕ
  pub hallada : find peticion (crlf ++ crlf) ≡ some sitio
  pub al_final : sitio + 4 ≡ length peticion

vacio_de : (t : Bytes) → length t ≡ 0 → t ≡ []
vacio_de [] h = refl
vacio_de (c ∷ t) h = absurd (omega arith)

nada_en_vacio : find [] (crlf ++ crlf) ≡ none
unfolding find
nada_en_vacio = refl

-- Behind each piece, the buffer that it comes into holds a NUL.
abbrev pub ConFin : List Bytes → List Bytes → Type 0
ConFin [] memorias = Unit
ConFin (t ∷ ts) [] = ⊥
ConFin (t ∷ ts) (m ∷ memorias) = (get_elem? m (length t) ≡ some 0) × ConFin ts memorias

texto_de-cola : (m : Bytes) (n : ℕ) → get_elem? m n ≡ some 0 → texto_de (drop n m) ≡ some []
unfolding texto_de
texto_de-cola [] n h = cc
texto_de-cola (c ∷ m) zero h = rw (texto_de, some_inj h) refl
texto_de-cola (c ∷ m) (suc n) h = texto_de-cola m n h

-- A text with a NUL behind it is read as it is.
texto_de-todo :
    (t cola : Bytes) → Lacks 0 t → texto_de cola ≡ some [] → texto_de (t ++ cola) ≡ some t
unfolding texto_de
texto_de-todo [] cola l h = h
texto_de-todo (c ∷ t) cola (a, l) h = elim (Bool-cases (c == 0)) [
  | inl e ↦ absurd (a ((==_iff c 0).0 e))
  | inr e ↦ rw (texto_de, e, texto_de-todo t cola l h, ◌>>=◌) refl
]

-- Pieces of such a text, read one by one into buffers with a NUL behind them, give it whole.
recibir_peticion-IsCerrada :
    (ts memorias : List Bytes) (ya peticion : Bytes)
    → ya ++ flatten ts ≡ peticion
    → Lacks 0 (flatten ts)
    → ConFin ts memorias
    → IsCerrada peticion
    → find ya (crlf ++ crlf) ≡ none
    → recibir_peticion ts memorias ya ≡ some peticion
unfolding recibir_peticion
recibir_peticion-IsCerrada [] memorias ya peticion e l m c n =
    absurd (let k = sym (append-nil ya) ∙ e in let x = rw k at n in cc (x, c.hallada))
recibir_peticion-IsCerrada (t ∷ ts) [] ya peticion e l m c n = absurd m
recibir_peticion-IsCerrada (t ∷ ts) (b ∷ memorias) ya peticion e l m c n =
    let junto : (ya ++ t) ++ flatten ts ≡ peticion = append_assoc ya t (flatten ts) ∙ e in
    let (lt, ls) = All-split _ t (flatten ts) l in
    let leido = texto_de-todo t (drop (length t) b) lt (texto_de-cola b (length t) m.0) in
    elim (Option-cases (find (ya ++ t) (crlf ++ crlf))) [
      | inl k ↦
          rw (recibir_peticion, leido, ◌>>=◌, k)
            (recibir_peticion-IsCerrada ts memorias (ya ++ t) peticion junto ls m.1 c k)
      | inr (q, k) ↦
          let mismo = find-append_some (ya ++ t) (flatten ts) (crlf ++ crlf) q k in
          let es_el_fin : q ≡ c.sitio =
            some_inj (sym (subst (λ x. find x (crlf ++ crlf) ≡ some q) junto mismo) ∙ c.hallada) in
          let nada = vacio_de (flatten ts) (
            omega (
              arith,
              es_el_fin,
              c.al_final,
              ap length junto,
              length-append (ya ++ t) (flatten ts),
              find-le-length (ya ++ t) (crlf ++ crlf) q k,
            )) in
          rw (recibir_peticion, leido, ◌>>=◌, k)
            (ap some (sym (append-nil (ya ++ t)) ∙ ap (λ x. (ya ++ t) ++ x) (sym nada) ∙ junto))
    ]

module _ (s : Sistema) (fecha_gmt : ℕ → Bytes) (red : Corriente) where
  pub por_balanceador-directo :
      (f : ℕ) (d : s.Disco) (h : InterpreteHttp s.Fd) (fecha buffer peticion datos : Bytes)
      (antes memorias : List Bytes) (p : ℕ)
      → IsCerrada peticion
      → Lacks 0 peticion
      → red.partir 0 peticion ≡ antes ++ datos ∷ []
      → reenviar_peticion buffer antes ≡ none
      → Lacks 0 datos
      → find datos (crlf ++ crlf) ≡ some p
      → ConFin (red.partir 1 peticion) memorias
      → por_balanceador s fecha_gmt red f d h fecha buffer memorias peticion
        ≡ directo s fecha_gmt f d h fecha peticion
  unfolding por_balanceador directo
  por_balanceador-directo f d h fecha buffer peticion datos antes memorias p c limpia piezas n
        sin_nul hallada fines =
      let pasan : reenviar_peticion buffer (red.partir 0 peticion) ≡ some (antes ++ datos ∷ []) =
        ap (reenviar_peticion buffer) piezas
        ∙ reenviar_peticion_lem buffer antes datos [] p n sin_nul hallada in
      let todo : flatten (antes ++ datos ∷ []) ≡ peticion =
        ap flatten (sym piezas) ∙ red.flatten-partir 0 peticion in
      let entera = red.flatten-partir 1 peticion in
      let llega : recibir_peticion (red.partir 1 (flatten (antes ++ datos ∷ []))) memorias []
          ≡ some peticion =
        ap (λ t. recibir_peticion (red.partir 1 t) memorias []) todo
        ∙ recibir_peticion-IsCerrada (red.partir 1 peticion) memorias [] peticion entera
            (subst (Lacks 0) (sym entera) limpia) fines c nada_en_vacio in
      elim (Option-cases (responder s fecha_gmt f d h fecha peticion)) [
        | inl e ↦ rw (por_balanceador, directo, pasan, ◌>>=◌, llega, ◌>>=◌, e, ◌>>=◌) refl
        | inr ((cabecera, cuerpo), e) ↦
            rw (por_balanceador, directo, pasan, ◌>>=◌, llega, ◌>>=◌, e, ◌>>=◌)
              (ap some (
                flatten-reenviar_respuesta (red.partir 2 (cabecera ++ cuerpo))
                  (red.partir-NoVacias 2 (cabecera ++ cuerpo))
                ∙ red.flatten-partir 2 (cabecera ++ cuerpo)))
      ]
