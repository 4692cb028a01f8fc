-- ===== src/Balanceador/SinServidores.antt =====
-- What src/Balanceador.cpp answers while it has no server, and the start of `hilo_Cliente`.
use server_load_balancer_cli.Prelude.{
  ℕ, zero, suc, ◌+◌, ◌-◌, ◌<◌, ◌≡◌, refl, Option, none, some, List, [], ◌∷◌, ◌++◌, length, take,
  drop, take_all, ◌==◌, if◌then◌else◌, arith,
}
use server_load_balancer_cli.Prelude.Text.{Bytes, codes, find, c_str, Lacks}
use server_load_balancer_cli.Balanceador.Anuncio.{c_str-lem}
use server_load_balancer_cli.Prelude.Decimal.{to_string_ℕ}
use server_load_balancer_cli.Utilidades.{crlf, leer_archivo}
use server_load_balancer_cli.Balanceador.{Balanceador, log}
use server_load_balancer_cli.Balanceador.Seleccion.{abrir_sesion}

unfoldable pub recuperar_estado : ℕ → Bytes
recuperar_estado n =
    if n == 500
    then codes "INTERNAL SERVER ERROR"
    else if n == 501
    then codes "NOT IMPLEMENTED"
    else if n == 502
    then codes "BAD GATEWAY"
    else if n == 503
    then codes "SERVICE UNAVAILABLE"
    else if n == 504
    then codes "GATEWAY TIMEOUT"
    else if n == 505
    then codes "HTTP VERSION NOT SUPPORTED"
    else []

-- `recuperarHeader`, at the date `fecha`.
unfoldable pub recuperar_header : ℕ → Bytes → Bytes
unfolding recuperar_estado
recuperar_header codigo fecha =
    codes "HTTP/1.1 "
    ++ (to_string_ℕ codigo
        ++ (codes " "
            ++ (recuperar_estado codigo
                ++ (codes " "
                    ++ (crlf
                        ++ (codes "Server: PiroServer"
                            ++ (crlf ++ (codes "Date: " ++ (fecha ++ (crlf ++ crlf))))))))))

-- `replacePlaceHolder`, for a pattern that is a plain text: each place is replaced. The fuel is a
-- bound on the length of the text.
unfoldable pub replace_place_holder : ℕ → Bytes → Bytes → Bytes → Bytes
replace_place_holder zero marca texto nuevo = texto
replace_place_holder (suc f) marca texto nuevo = elim (find texto marca) [
  | none ↦ texto
  | some p ↦
      take p texto ++ (nuevo ++ replace_place_holder f marca (drop (p + length marca) texto) nuevo)
]

abbrev pub marca_de_error : Bytes
marca_de_error = codes "!$ERROR_MESSAGE"

abbrev pub mensaje_de_error : ℕ → Bytes
mensaje_de_error codigo =
    codes "\tError Processing Request: "
    ++ (recuperar_estado codigo ++ (codes " " ++ (to_string_ℕ codigo ++ codes "\n")))

-- `recuperarBodyPaginaError`: the text that `snprintf` leaves in the buffer, for the file of the page
-- (`none`: it does not open).
unfoldable pub recuperar_body_pagina_error : Option Bytes → ℕ → ℕ → Bytes
unfolding replace_place_holder
recuperar_body_pagina_error archivo buffersize codigo =
    let doc = leer_archivo archivo in
    take (buffersize - 1)
      (c_str (replace_place_holder (suc (length doc)) marca_de_error doc (mensaje_de_error codigo)))

-- The message of the log, in UTF-8.
abbrev lista_vacia : Bytes
lista_vacia =
    codes " * La lista de servidores est"
    ++ (195 ∷ 161 ∷ (codes " vac" ++ (195 ∷ 173 ∷ codes "a. \n")))

-- How `hilo_Cliente` begins: with no server, what is written to the client; else the choice.
pub data Comienzo : Type 0 where
  rechazado : Balanceador → List Bytes → Comienzo
  elegido : Option (Balanceador × ℕ) → Comienzo

module _ (inet_ntoa : ℕ → ℕ) where
  unfoldable pub comenzar : ℕ → Balanceador → ℕ → ℕ → Bytes → Option Bytes → Comienzo
  unfolding log recuperar_header recuperar_body_pagina_error
  comenzar fuel b direccion r fecha archivo = elim b.servidores [
    | [] ↦
        rechazado (log b lista_vacia)
          (recuperar_header 503 fecha ∷ recuperar_body_pagina_error archivo 4096 503 ∷ [])
    | s ∷ ss ↦ elegido (abrir_sesion inet_ntoa fuel b direccion r)
  ]

-- A text without the mark is left as it is.
replace_none :
    (f : ℕ) (marca texto nuevo : Bytes)
    → find texto marca ≡ none
    → replace_place_holder f marca texto nuevo ≡ texto
unfolding replace_place_holder
replace_none zero marca texto nuevo h = refl
replace_none (suc f) marca texto nuevo h = rw (replace_place_holder, h) refl

-- The text of a page with the message in the place of the mark at `p`.
abbrev pub con_error : Bytes → ℕ → ℕ → Bytes
con_error doc p codigo = take p doc ++ (mensaje_de_error codigo ++ drop (p + 15) doc)

-- A page with one mark and no NUL is sent with the message in the place of the mark, if it fits the
-- buffer with a NUL.
pub recuperar_body_pagina_error_lem :
    (archivo : Option Bytes) (buffersize codigo p : ℕ)
    → find (leer_archivo archivo) marca_de_error ≡ some p
    → find (drop (p + 15) (leer_archivo archivo)) marca_de_error ≡ none
    → Lacks 0 (con_error (leer_archivo archivo) p codigo)
    → length (con_error (leer_archivo archivo) p codigo) < buffersize
    → recuperar_body_pagina_error archivo buffersize codigo
      ≡ con_error (leer_archivo archivo) p codigo
unfolding recuperar_body_pagina_error replace_place_holder
recuperar_body_pagina_error_lem archivo buffersize codigo p una no_mas texto corto =
    let doc = leer_archivo archivo in
    let cuerpo = con_error doc p codigo in
    let puesto : replace_place_holder (suc (length doc)) marca_de_error doc
          (mensaje_de_error codigo)
        ≡ cuerpo =
      rw
        (
          replace_place_holder,
          una,
          replace_none (length doc) marca_de_error (drop (p + 15) doc) (mensaje_de_error codigo)
              no_mas,
        )
        refl in
    rw (recuperar_body_pagina_error, puesto, c_str-lem cuerpo texto)
      (take_all (buffersize - 1) cuerpo (omega arith))
