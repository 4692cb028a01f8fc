-- ===== src/Balanceador/Desfase.antt =====
-- A server that leaves while a session of `hilo_Cliente` (src/Balanceador.cpp) keeps the place of its own.
use server_load_balancer_cli.Prelude.{
  ℕ, zero, suc, ◌≤◌, ◌<◌, ◌≡◌, ◌≢◌, refl, ◌∙◌, ap, ◌⊎◌, inl, inr, none, some, List, [], ◌∷◌, length,
  get_elem?, get_elem?-set_self, get_elem?-set_ne, set, erase_at, arith, Option-cases,
  get_elem?-lt_length, ◌>>=◌,
}
use server_load_balancer_cli.Prelude.Int.{pos, ◌-ℤ◌}
use server_load_balancer_cli.Prelude.Text.{Bytes}
use server_load_balancer_cli.Balanceador.{Servidor, Balanceador, buscar_servidor, eliminar_servidor}
use server_load_balancer_cli.Balanceador.Seleccion.{cambiar_carga, restar_carga}
use server_load_balancer_cli.Balanceador.Registro.{anunciado}
use server_load_balancer_cli.Balanceador.Anuncio.{eliminar-conocido}

get_elem?-erase_at {ℓ} :
    {A : Type ℓ} (xs : List A) (j i : ℕ)
    → j ≤ i
    → get_elem? (erase_at xs j) i ≡ get_elem? xs (suc i)
get_elem?-erase_at [] j i h = refl
get_elem?-erase_at (x ∷ xs) zero i h = refl
get_elem?-erase_at (x ∷ xs) (suc j) zero h = absurd (omega arith)
get_elem?-erase_at (x ∷ xs) (suc j) (suc i) h = get_elem?-erase_at xs j i (omega arith)

get_elem?-none {ℓ} : {A : Type ℓ} (xs : List A) (i : ℕ) → get_elem? xs i ≡ none → length xs ≤ i
get_elem?-none [] i h = omega arith
get_elem?-none (x ∷ xs) zero h = absurd (cc)
get_elem?-none (x ∷ xs) (suc i) h = omega (arith, get_elem?-none xs i h)

-- The end of a session on the place `i`, after the server at the place `j` left: the place is outside the
-- vector, or the load is taken from the server that stood behind the session's own.
abbrev pub Desfasada : Balanceador → Balanceador → ℕ → ℕ → Type 0
Desfasada b b' i j =
    ((suc i ≡ length b.servidores) × (restar_carga b' i ≡ none))
    ⊎ ((otro : Servidor) × (b'' : Balanceador) × (get_elem? b.servidores (suc i) ≡ some otro)
        × (restar_carga b' i ≡ some b'')
        × (get_elem? b''.servidores i
            ≡ some (record otro { carga_actual = otro.carga_actual -ℤ pos 1 }))
        × ((k : ℕ) → suc k ≡ i → j ≤ k → get_elem? b''.servidores k ≡ get_elem? b.servidores i))

-- A session runs on the server at the place `i`, and a server at that place or before it leaves. Then the
-- end of the session reads and writes outside the vector, if the session's server was the last one, or
-- else lowers the load of the server behind it, and leaves the load of the session's own server.
pub restar_carga-eliminar_servidor :
    (b : Balanceador) (mensaje : Bytes) (i j : ℕ)
    → buscar_servidor b.servidores (anunciado mensaje) ≡ some j
    → j ≤ i
    → i < length b.servidores
    → Desfasada b (eliminar_servidor b mensaje) i j
unfolding restar_carga
restar_carga-eliminar_servidor b mensaje i j e h dentro =
    let b' = eliminar_servidor b mensaje in
    let quedan = eliminar-conocido b mensaje (anunciado mensaje) j refl e in
    let en_i : get_elem? b'.servidores i ≡ get_elem? b.servidores (suc i) =
      ap (λ ss. get_elem? ss i) quedan ∙ get_elem?-erase_at b.servidores j i h in
    elim (Option-cases (get_elem? b.servidores (suc i))) [
      | inl n ↦ inl (
        omega (arith, get_elem?-none b.servidores (suc i) n),
        rw (restar_carga, cambiar_carga, en_i ∙ n, ◌>>=◌) refl,
      )
      | inr (otro, n) ↦
          let menos : Servidor = record otro { carga_actual = otro.carga_actual -ℤ pos 1 } in
          inr (
            otro,
            record b' { servidores = set b'.servidores i menos },
            n,
            rw (restar_carga, cambiar_carga, en_i ∙ n, ◌>>=◌) refl,
            get_elem?-set_self b'.servidores i menos
                (get_elem?-lt_length b'.servidores i (en_i ∙ n)),
            λ k. λ sigue. λ despues.
                get_elem?-set_ne b'.servidores menos (distinto k sigue)
                ∙ ap (λ ss. get_elem? ss k) quedan
                ∙ get_elem?-erase_at b.servidores j k despues
                ∙ ap (get_elem? b.servidores) sigue,
          )
    ]
  where
    distinto : (k : ℕ) → suc k ≡ i → i ≢ k
    distinto k h = λ z. omega arith
