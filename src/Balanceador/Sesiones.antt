-- ===== src/Balanceador/Sesiones.antt =====
-- The sessions of `hilo_Cliente` (src/Balanceador.cpp), which run side by side: what the balancer
-- counts as the load of a server. Removal of a server, which moves the places, is not among the steps.
use native.Mathlib.Nat.{add-zero, add-suc, suc-add, zero-add}
use server_load_balancer_cli.Prelude.{
  ℕ, zero, suc, ◌+◌, ◌≡◌, refl, sym, ap, ◌∙◌, subst, inl, inr, some, some_inj, List, [], ◌∷◌,
  get_elem?, erase_at, arith, ◌==◌, ==_iff, ==_refl, if◌then◌else◌,
}
use server_load_balancer_cli.Prelude.Int.{pos, ◌+ℤ◌, ◌-ℤ◌}
use server_load_balancer_cli.Balanceador.{Servidor, Balanceador}
use server_load_balancer_cli.Balanceador.Seleccion.{restar_carga, abrir_sesion}
use server_load_balancer_cli.Balanceador.Cargas.{
  carga_tras, restar_carga-cambia, abrir_sesion-cambia,
}

-- The balancer, the servers of the sessions that run, and those of the sessions that ended because
-- the server could not be reached.
pub record EstadoSesiones : Type 0 where
  pub balanceador : Balanceador
  pub activas : List ℕ
  pub fallidas : List ℕ

module _ (inet_ntoa : ℕ → ℕ) where
  -- One step of one thread: a session is opened, `conectar` fails, or the answer has been passed on.
  pub data Paso : EstadoSesiones → EstadoSesiones → Type 0 where
    abre :
        (e : EstadoSesiones) (fuel direccion r i : ℕ) (b' : Balanceador)
        → abrir_sesion inet_ntoa fuel e.balanceador direccion r ≡ some (b', i)
        → Paso e (record e { balanceador = b'; activas = i ∷ e.activas })
    falla :
        (e : EstadoSesiones) (k i : ℕ)
        → get_elem? e.activas k ≡ some i
        → Paso e (record e { activas = erase_at e.activas k; fallidas = i ∷ e.fallidas })
    termina :
        (e : EstadoSesiones) (k i : ℕ) (b' : Balanceador)
        → get_elem? e.activas k ≡ some i
        → restar_carga e.balanceador i ≡ some b'
        → Paso e (record e { balanceador = b'; activas = erase_at e.activas k })

  pub data Pasos : EstadoSesiones → EstadoSesiones → Type 0 where
    fin : (e : EstadoSesiones) → Pasos e e
    y_luego : (e f g : EstadoSesiones) → Paso e f → Pasos f g → Pasos e g

-- How often the place stands in the list.
abbrev pub cuenta : ℕ → List ℕ → ℕ
cuenta j [] = 0
cuenta j (i ∷ is) = if i == j then suc (cuenta j is) else cuenta j is

-- The load of each server, from place `i` on, is the number of the sessions that name its place.
abbrev pub Cargas : ℕ → List Servidor → List ℕ → List ℕ → Type 0
Cargas i [] acts fs = Unit
Cargas i (s ∷ ss) acts fs =
    (s.carga_actual ≡ pos (cuenta i acts + cuenta i fs)) × Cargas (suc i) ss acts fs

abbrev pub Cuadra : EstadoSesiones → Type 0
Cuadra e = Cargas 0 e.balanceador.servidores e.activas e.fallidas

-- The same, place by place.
abbrev CuadraEn : EstadoSesiones → Type 0
CuadraEn e =
    (j : ℕ) (s : Servidor)
    → get_elem? e.balanceador.servidores j ≡ some s
    → s.carga_actual ≡ pos (cuenta j e.activas + cuenta j e.fallidas)

Cargas-at :
    (i : ℕ) (ss : List Servidor) (acts fs : List ℕ) (j : ℕ) (s : Servidor)
    → Cargas i ss acts fs
    → get_elem? ss j ≡ some s
    → s.carga_actual ≡ pos (cuenta (i + j) acts + cuenta (i + j) fs)
Cargas-at i [] acts fs j s c h = cc
Cargas-at i (t ∷ ss) acts fs zero s c h =
    rw (add-zero) (subst (λ x. x.carga_actual ≡ pos (cuenta i acts + cuenta i fs)) (some_inj h) c.0)
Cargas-at i (t ∷ ss) acts fs (suc j) s c h =
    rw (add-suc, ← suc-add) (Cargas-at (suc i) ss acts fs j s c.1 h)

Cargas-of :
    (i : ℕ) (ss : List Servidor) (acts fs : List ℕ)
    → ((j : ℕ) (s : Servidor)
        → get_elem? ss j ≡ some s
        → s.carga_actual ≡ pos (cuenta (i + j) acts + cuenta (i + j) fs))
    → Cargas i ss acts fs
Cargas-of i [] acts fs h = tt
Cargas-of i (t ∷ ss) acts fs h = (
  rw add-zero at (h 0 t refl),
  Cargas-of (suc i) ss acts fs (λ j. λ s. λ e. rw (suc-add, ← add-suc) (h (suc j) s e)),
)

Cuadra-of : (e : EstadoSesiones) → CuadraEn e → Cuadra e
Cuadra-of e c =
    Cargas-of 0 e.balanceador.servidores e.activas e.fallidas (λ j. λ s. λ h. rw zero-add (c j s h))

Cuadra-at : (e : EstadoSesiones) → Cuadra e → CuadraEn e
Cuadra-at e c j s h =
    rw zero-add at (Cargas-at 0 e.balanceador.servidores e.activas e.fallidas j s c h)

cuenta-erase_at :
    (is : List ℕ) (k i j : ℕ) → get_elem? is k ≡ some i → cuenta j (i ∷ erase_at is k) ≡ cuenta j is
cuenta-erase_at [] k i j h = cc
cuenta-erase_at (x ∷ is) zero i j h = rw (some_inj h) refl
cuenta-erase_at (x ∷ is) (suc k) i j h = ground (arith, cuenta-erase_at is k i j h)

una_mas : (n m : ℕ) → pos (n + m) +ℤ pos 1 ≡ pos (suc n + m)
unfolding ◌+ℤ◌
una_mas n m = ground arith

una_menos : (n m : ℕ) → pos (suc n + m) -ℤ pos 1 ≡ pos (n + m)
unfolding ◌-ℤ◌
una_menos n m = ground arith

Paso-Cuadra :
    (inet_ntoa : ℕ → ℕ) (e f : EstadoSesiones) → Paso inet_ntoa e f → CuadraEn e → CuadraEn f
Paso-Cuadra inet_ntoa _ _ (abre e fuel direccion r i b' h) c j s esta =
    elim (carga_tras e.balanceador.servidores b'.servidores i (λ x. x +ℤ pos 1) j s
      (abrir_sesion-cambia inet_ntoa fuel e.balanceador b' direccion r i h) esta) [
        | inl (mismo, t, en_j, carga) ↦
            rw (mismo, ==_refl j)
              (carga ∙ rw (c j t en_j) (una_mas (cuenta j e.activas) (cuenta j e.fallidas)))
        | inr (otro, en_j) ↦ rw otro (c j s en_j)
      ]
Paso-Cuadra inet_ntoa _ _ (falla e k i h) c j s esta =
    c j s esta ∙ ap pos (ground (arith, cuenta-erase_at e.activas k i j h))
Paso-Cuadra inet_ntoa _ _ (termina e k i b' h g) c j s esta =
    let antes = cuenta-erase_at e.activas k i j h in
    elim (carga_tras e.balanceador.servidores b'.servidores i (λ x. x -ℤ pos 1) j s
      (restar_carga-cambia e.balanceador b' i g) esta) [
        | inl (mismo, t, en_j, carga) ↦
            let uno : suc (cuenta j (erase_at e.activas k)) ≡ cuenta j e.activas =
              ground (arith, antes, ==_iff i j) in
            carga
            ∙ (rw (c j t en_j, sym uno)
                (una_menos (cuenta j (erase_at e.activas k)) (cuenta j e.fallidas)))
        | inr (otro, en_j) ↦ c j s en_j ∙ ap pos (ground (arith, antes))
      ]

-- Whatever sessions are opened, fail and end, in whatever order, the load of each server stays the
-- number of its sessions that run and of those that could not reach it, if it was before.
pub Pasos-Cuadra :
    (inet_ntoa : ℕ → ℕ) (e f : EstadoSesiones) → Pasos inet_ntoa e f → Cuadra e → Cuadra f
Pasos-Cuadra inet_ntoa _ _ (fin e) c = c
Pasos-Cuadra inet_ntoa _ _ (y_luego e f g p ps) c =
    Pasos-Cuadra inet_ntoa f g ps (Cuadra-of f (Paso-Cuadra inet_ntoa e f p (Cuadra-at e c)))
