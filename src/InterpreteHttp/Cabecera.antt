-- ===== src/InterpreteHttp/Cabecera.antt =====
-- The header that `recuperarHeader` of src/InterpreteHTTP.cpp writes for a file, as lines.
use server_load_balancer_cli.Prelude.{
  ℕ, suc, ◌+◌, ◌≡◌, ◌≢◌, refl, ap, sym, ◌∙◌, true, false, some, List, [], ◌∷◌, ◌++◌, length,
  length-append, append_assoc, arith, Bool, ◌&&◌, Bool-cases, some_inj, subst, inl, inr,
}
use server_load_balancer_cli.Prelude.Text.{
  Bytes, codes, find, starts_with, lacks, All, All-append, Lacks, Lacks-of, text_eq,
}
use server_load_balancer_cli.Prelude.Decimal.{to_string_ℕ, to_string_ℕ-IsDigit, is_digit}
use server_load_balancer_cli.Utilidades.{crlf}
use server_load_balancer_cli.InterpreteHttp.{
  InterpreteHttp, recuperar_header, recuperar_estado, mimetypes, buscar_mime,
}

-- Lines, with a line end between each and the next.
abbrev pub unidas : Bytes → List Bytes → Bytes
unidas l [] = l
unidas l (m ∷ ms) = l ++ (crlf ++ unidas m ms)

-- A text with neither a NUL nor a carriage return.
abbrev pub Limpio : Bytes → Type 0
Limpio t = Lacks 0 t × Lacks 13 t

abbrev pub Limpias : List Bytes → Type 0
Limpias [] = Unit
Limpias ([] ∷ ls) = ⊥
Limpias ((c ∷ l) ∷ ls) = Limpio (c ∷ l) × Limpias ls

pub Limpio-append : (t u : Bytes) → Limpio t → Limpio u → Limpio (t ++ u)
Limpio-append t u a b = (All-append _ t u a.0 b.0, All-append _ t u a.1 b.1)

crlf-Lacks : Lacks 0 crlf
crlf-Lacks = Lacks-of 0 crlf refl

pub unidas-Lacks : (l : Bytes) (ls : List Bytes) → Limpio l → Limpias ls → Lacks 0 (unidas l ls)
unidas-Lacks l [] a h = a.0
unidas-Lacks l ([] ∷ ms) a h = absurd h
unidas-Lacks l ((c ∷ m) ∷ ms) a (b, h) =
    All-append _ l _ a.0 (All-append _ crlf _ crlf-Lacks (unidas-Lacks (c ∷ m) ms b h))

-- Behind a line, the blank line is found where it is found in the rest.
find-tras :
    (l y : Bytes) (q : ℕ)
    → Lacks 13 l
    → find y (crlf ++ crlf) ≡ some q
    → find (l ++ y) (crlf ++ crlf) ≡ some (length l + q)
unfolding find starts_with
find-tras [] y q h f = f ∙ ap some (omega arith)
find-tras (c ∷ l) y q (a, h) f = ground (arith, find-tras l y q h f)

find-linea :
    (c : ℕ) (y : Bytes) (q : ℕ)
    → c ≢ 13
    → find (c ∷ y) (crlf ++ crlf) ≡ some q
    → find (crlf ++ (c ∷ y)) (crlf ++ crlf) ≡ some (suc (suc q))
unfolding find starts_with
find-linea c y q a f = ground arith

unidas-cons : (c : ℕ) (m : Bytes) (ms : List Bytes) → unidas (c ∷ m) ms ≡ c ∷ unidas m ms
unidas-cons c m [] = refl
unidas-cons c m (n ∷ ms) = refl

find-vacia : find (crlf ++ crlf) (crlf ++ crlf) ≡ some 0
unfolding find starts_with
find-vacia = refl

-- The blank line behind clean lines is the first.
pub find-unidas :
    (l : Bytes) (ls : List Bytes)
    → Limpio l
    → Limpias ls
    → find (unidas l ls ++ (crlf ++ crlf)) (crlf ++ crlf) ≡ some (length (unidas l ls))
find-unidas l [] a h = find-tras l (crlf ++ crlf) 0 a.1 find-vacia ∙ ap some (omega arith)
find-unidas l ([] ∷ ms) a h = absurd h
find-unidas l ((c ∷ m) ∷ ms) a (b, h) =
    let vacia = crlf ++ crlf in
    let mas = unidas (c ∷ m) ms in
    let n = length mas in
    let hallada : find (c ∷ (unidas m ms ++ vacia)) vacia ≡ some n =
      ap (λ t. find (t ++ vacia) vacia) (sym (unidas-cons c m ms)) ∙ find-unidas (c ∷ m) ms b h in
    let tras : find (crlf ++ (mas ++ vacia)) vacia ≡ some (suc (suc n)) =
      ap (λ t. find (crlf ++ (t ++ vacia)) vacia) (unidas-cons c m ms)
      ∙ find-linea c (unidas m ms ++ vacia) n b.1.0 hallada in
    ap (λ t. find t vacia) (append_assoc l (crlf ++ mas) vacia)
    ∙ find-tras l (crlf ++ (mas ++ vacia)) (suc (suc n)) a.1 tras
    ∙ ap some (omega (arith, length-append l (crlf ++ mas)))

-- A number has digits only.
to_string_ℕ-Limpio : (n : ℕ) → Limpio (to_string_ℕ n)
unfolding is_digit
to_string_ℕ-Limpio n = (
  sin 0 refl (to_string_ℕ n) (to_string_ℕ-IsDigit n),
  sin 13 refl (to_string_ℕ n) (to_string_ℕ-IsDigit n),
)
  where
    sin : (b : ℕ) → is_digit b ≡ false → (t : Bytes) → All (λ c. is_digit c ≡ true) t → Lacks b t
    sin b f [] h = tt
    sin b f (c ∷ t) (a, h) = (
      (λ e. absurd (let g : is_digit b ≡ true = ap is_digit (sym e) ∙ a in cc (f, g))),
      sin b f t h,
    )

-- The lines of the header for a file.
abbrev pub linea_de_estado : Bytes
linea_de_estado = codes "HTTP/1.1 200 OK "

abbrev pub lineas : Bytes → Bytes → ℕ → Bytes → Bytes → List Bytes
lineas fecha rangos n mime edicion =
    codes "Server: PiroServer"
    ∷ (codes "Date: " ++ fecha)
    ∷ (codes "Accept-Ranges: " ++ rangos)
    ∷ (codes "Content-Length: " ++ to_string_ℕ n)
    ∷ (codes "Content-Type: " ++ mime)
    ∷ (codes "Last-Modified: " ++ edicion)
    ∷ []

pub lineas-Limpias :
    (fecha rangos : Bytes) (n : ℕ) (mime edicion : Bytes)
    → Limpio fecha
    → Limpio rangos
    → Limpio mime
    → Limpio edicion
    → Limpias (lineas fecha rangos n mime edicion)
lineas-Limpias fecha rangos n mime edicion a b c e = (
  fija (codes "Server: PiroServer") refl refl,
  (
    tras (codes "Date: ") fecha refl refl a,
    (
      tras (codes "Accept-Ranges: ") rangos refl refl b,
      (
        tras (codes "Content-Length: ") (to_string_ℕ n) refl refl (to_string_ℕ-Limpio n),
        (
          tras (codes "Content-Type: ") mime refl refl c,
          (tras (codes "Last-Modified: ") edicion refl refl e, tt),
        ),
      ),
    ),
  ),
)
  where
    fija : (t : Bytes) → lacks 0 t ≡ true → lacks 13 t ≡ true → Limpio t
    fija t a b = (Lacks-of 0 t a, Lacks-of 13 t b)

    tras : (t u : Bytes) → lacks 0 t ≡ true → lacks 13 t ≡ true → Limpio u → Limpio (t ++ u)
    tras t u a b h = Limpio-append t u (fija t a b) h

doscientos : to_string_ℕ 200 ≡ codes "200"
unfolding to_string_ℕ
doscientos = refl

pub recuperar_header-lineas :
    {Fd : Type 0} (h : InterpreteHttp Fd) (fecha : Bytes) (n : ℕ)
    → h.respuesta_protocolo ≡ codes "HTTP/1.1"
    → h.respuesta_estado_codigo ≡ 200
    → h.respuesta_estado_mensaje ≡ recuperar_estado 200
    → h.respuesta_size ≡ to_string_ℕ n
    → recuperar_header h fecha
      ≡ unidas linea_de_estado
          (lineas fecha h.respuesta_rangos n h.respuesta_mime h.respuesta_ultima_edicion)
        ++ (crlf ++ crlf)
unfolding recuperar_header recuperar_estado
recuperar_header-lineas h fecha n p c m z = rw (p, c, m, z, doscientos) (simp append_assoc)

-- The types of the table are clean.
limpios : List (Bytes × Bytes) → Bool
limpios [] = true
limpios ((e, m) ∷ ms) = (lacks 0 m && lacks 13 m) && limpios ms

buscar_mime-limpios :
    (ms : List (Bytes × Bytes)) (extension : Bytes) {m : Bytes}
    → limpios ms ≡ true
    → buscar_mime ms extension ≡ some m
    → Limpio m
unfolding buscar_mime limpios
buscar_mime-limpios [] extension h f = cc
buscar_mime-limpios ((e, t) ∷ ms) extension {m} h f = elim (Bool-cases (text_eq e extension)) [
  | inl x ↦
      let igual : t ≡ m = some_inj (rw x at f) in
      subst Limpio igual (Lacks-of 0 t (ground arith), Lacks-of 13 t (ground arith))
  | inr x ↦ buscar_mime-limpios ms extension (ground arith) (rw x at f)
]

tabla_limpia : limpios mimetypes ≡ true
unfolding limpios mimetypes
tabla_limpia = refl

pub mime-Limpio :
    (extension : Bytes) {m : Bytes} → buscar_mime mimetypes extension ≡ some m → Limpio m
mime-Limpio extension f = buscar_mime-limpios mimetypes extension tabla_limpia f
