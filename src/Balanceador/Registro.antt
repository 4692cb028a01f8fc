-- ===== src/Balanceador/Registro.antt =====
-- The registry of servers (src/Balanceador.cpp), and the announcements that change it.
use server_load_balancer_cli.Prelude.{
  ℕ, suc, ◌+◌, ◌≤◌, ◌<◌, ◌≡◌, ◌≢◌, refl, ◌⊎◌, inl, inr, ◌∙◌, ap, sym, Bool, true, false, Option,
  none, some, some_inj, ◌++◌, length, length-append, get_elem?, erase_at, length-erase_at, drop,
  take, take_all, take-append, arith, Option-cases, Bool-cases, ==_refl, ==_iff, ◌==◌, le→ltb, ◌%◌,
  leb,
}
use server_load_balancer_cli.Prelude.Int.{ℤ, pos, ◌+ℤ◌, ◌-ℤ◌, ◌≤ℤ◌}
use server_load_balancer_cli.Prelude.Text.{Bytes, c_str}
use server_load_balancer_cli.Utilidades.{get_numero_random}
use server_load_balancer_cli.Balanceador.{
  Balanceador, buscar_servidor, partir_anuncio, copiar_ip, agregar_servidor, eliminar_servidor,
  registrar, recibir_anuncio, es_byte, log, mostrar_estadisticas, avisar_servidores, sin_fijar,
}
use server_load_balancer_cli.Balanceador.Busqueda.{
  Distintos, Distintos-append, Distintos-erase_at, buscar-lt-length, buscar_borrado, buscar-ultimo,
}

-- The registry: no server twice, and the number shown is that of the servers.
pub record IsRegistro (b : Balanceador) : Type 0 where
  pub distintos : Distintos b.servidores
  pub contados : b.servidores_actuales ≡ pos (length b.servidores)

-- The text a server is registered under, in a datagram.
abbrev pub anunciado : Bytes → Bytes
anunciado mensaje = c_str (drop 4 mensaje)

menos_uno : (n m : ℕ) → suc n ≡ m → pos m -ℤ pos 1 ≡ pos n
unfolding ◌-ℤ◌
menos_uno n m h = ground arith

-- Taking a server away keeps the registry, and the text is no longer found, whether it was or not.
pub eliminar_servidor_lem :
    (b : Balanceador) (mensaje : Bytes)
    → IsRegistro b
    → IsRegistro (eliminar_servidor b mensaje)
      × (buscar_servidor (eliminar_servidor b mensaje).servidores (anunciado mensaje) ≡ none)
unfolding eliminar_servidor log mostrar_estadisticas
eliminar_servidor_lem b mensaje v =
    elim (Option-cases (buscar_servidor b.servidores (anunciado mensaje))) [
      | inl e ↦ rw (eliminar_servidor, e) (v, e)
      | inr (i, e) ↦
          let dentro = buscar-lt-length b.servidores (anunciado mensaje) i e in
          rw (eliminar_servidor, e)
            (
              record {
                distintos = Distintos-erase_at b.servidores i v.distintos;
                contados = rw v.contados (
                    menos_uno (length (erase_at b.servidores i)) (length b.servidores)
                      (length-erase_at b.servidores i dentro));
              },
              buscar_borrado b.servidores (anunciado mensaje) i v.distintos e,
            )
    ]

mas_uno : (n : ℕ) → pos n +ℤ pos 1 ≡ pos (n + 1)
unfolding ◌+ℤ◌
mas_uno n = ground arith

pub carga_inicial :
    (r : ℕ)
    → (m : ℤ) × (get_numero_random r (pos 5) (pos 10) ≡ some m) × (pos 5 ≤ℤ m) × (m ≤ℤ pos 10)
unfolding get_numero_random ◌+ℤ◌ ◌-ℤ◌
carga_inicial r = (pos (5 + r % 6), ground arith, omega arith, omega arith)

-- An announced server whose address fits the array is registered: the registry is kept, the text is
-- found, and every server that was there stands where it stood.
pub agregar_servidor_lem :
    (b : Balanceador) (mensaje : Bytes) (r : ℕ) (basura : Bytes)
    → IsRegistro b
    → length (partir_anuncio (anunciado mensaje)).0 ≤ 32
    → (b' : Balanceador) × (i : ℕ) × (agregar_servidor b mensaje r basura ≡ some b')
      × IsRegistro b'
      × (buscar_servidor b'.servidores (anunciado mensaje) ≡ some i)
      × (take (length b.servidores) b'.servidores ≡ b.servidores)
unfolding agregar_servidor registrar log mostrar_estadisticas avisar_servidores copiar_ip
agregar_servidor_lem b mensaje r basura v cabe =
    elim (Option-cases (buscar_servidor b.servidores (anunciado mensaje))) [
      | inr (i, e) ↦ (
        b,
        i,
        rw (agregar_servidor, e) refl,
        v,
        e,
        take_all (length b.servidores) b.servidores (omega arith),
      )
      | inl e ↦
          let (m, em, _, _) = carga_inicial r in
          let partes = partir_anuncio (anunciado mensaje) in
          let copiada : copiar_ip partes.0 basura
              ≡ some (partes.0 ++ drop (length partes.0) basura) =
            rw (copiar_ip, le→ltb 32 (length partes.0) cabe) refl in
          let b' =
            registrar b (anunciado mensaje) partes m (partes.0 ++ drop (length partes.0) basura) in
          (
            b',
            length b.servidores,
            rw (agregar_servidor, e, em, copiada) refl,
            record {
              distintos = Distintos-append b.servidores _ v.distintos e;
              contados =
                  rw v.contados
                    (mas_uno (length b.servidores) ∙ ap pos (sym (length-append b.servidores _)));
            },
            buscar-ultimo b.servidores _ e,
            take-append b.servidores _,
          )
    ]

choque : {o : Bool} → o ≡ false → o ≡ true → ⊥
choque h g = cc

otra : ◌≢◌ {A = Option ℕ} (some b'D') (some b'C')
otra h = absurd (let e : ◌≡◌ {A = ℕ} b'D' b'C' = some_inj h in omega arith)

es_byte-true : (datos : Bytes) (i c : ℕ) → get_elem? datos i ≡ some c → es_byte datos i c ≡ true
unfolding es_byte
es_byte-true datos i c h = rw (h, es_byte) (==_refl c)

es_byte-false : (datos : Bytes) (i c : ℕ) → get_elem? datos i ≢ some c → es_byte datos i c ≡ false
unfolding es_byte
es_byte-false datos i c h = elim (Option-cases (get_elem? datos i)) [
  | inl e ↦ rw (e, es_byte) refl
  | inr (x, e) ↦ elim (Bool-cases (x == c)) [
    | inl t ↦ absurd (h (e ∙ ap some ((==_iff x c).0 t)))
    | inr f ↦ rw (e, es_byte) f
  ]
]

es_byte_sound : (datos : Bytes) (i c : ℕ) → es_byte datos i c ≡ true → get_elem? datos i ≡ some c
unfolding es_byte
es_byte_sound datos i c h = elim (Option-cases (get_elem? datos i)) [
  | inl e ↦ absurd (choque (rw (es_byte, e) refl) h)
  | inr (x, e) ↦ e ∙ ap some ((==_iff x c).0 (rw (es_byte, e) at h))
]

-- An announcement that comes does not go.
pub sin_baja : (mensaje : Bytes) → es_byte mensaje 2 b'C' ≡ true → es_byte mensaje 2 b'D' ≡ false
sin_baja mensaje c =
    es_byte-false mensaje 2 b'D' (λ g. otra (sym g ∙ es_byte_sound mensaje 2 b'C' c))

-- What an announcement does: `S/C` leaves its text found, `S/D` not found, and all else changes nothing.
abbrev pub Atendido : Bytes → Balanceador → Balanceador → Type 0
Atendido mensaje b b' =
    ((get_elem? mensaje 0 ≡ some b'S')
      × (get_elem? mensaje 2 ≡ some b'C')
      × (i : ℕ) × (buscar_servidor b'.servidores (anunciado mensaje) ≡ some i))
    ⊎ ((get_elem? mensaje 0 ≡ some b'S')
        × (get_elem? mensaje 2 ≡ some b'D')
        × (buscar_servidor b'.servidores (anunciado mensaje) ≡ none))
    ⊎ ((b' ≡ b)
        × ((get_elem? mensaje 0 ≢ some b'S')
            ⊎ ((get_elem? mensaje 2 ≢ some b'C') × (get_elem? mensaje 2 ≢ some b'D'))))

-- Every datagram that fits the buffer, of which no byte is read that was not set, and whose address fits
-- the array is handled: the registry is kept, with no text twice and the right count, and the text is found or not as announced.
pub recibir_anuncio_lem :
    (b : Balanceador) (mensaje : Bytes) (r : ℕ) (basura : Bytes)
    → IsRegistro b
    → length mensaje < 64
    → sin_fijar mensaje ≡ false
    → length (partir_anuncio (anunciado mensaje)).0 ≤ 32
    → (b' : Balanceador) × (recibir_anuncio b (some mensaje) r basura ≡ some b')
      × IsRegistro b'
      × Atendido mensaje b b'
unfolding recibir_anuncio
recibir_anuncio_lem b mensaje r basura v corto fijo cabe =
    let corta : leb 64 (length mensaje) ≡ false = ground arith in
    elim (Bool-cases (es_byte mensaje 0 b'S')) [
      | inr e ↦ (
        b,
        rw (recibir_anuncio, corta, e) refl,
        v,
        inr (inr (refl, inl (λ h. choque e (es_byte-true mensaje 0 b'S' h)))),
      )
      | inl e ↦ elim (Bool-cases (es_byte mensaje 2 b'C')) [
        | inl c ↦
            let d = sin_baja mensaje c in
            let (b', i, agregado, v', esta, _) = agregar_servidor_lem b mensaje r basura v cabe in
            (
              b',
              rw (recibir_anuncio, corta, e, fijo, c, agregado, d) refl,
              v',
              inl (es_byte_sound mensaje 0 b'S' e, es_byte_sound mensaje 2 b'C' c, i, esta),
            )
        | inr c ↦ elim (Bool-cases (es_byte mensaje 2 b'D')) [
          | inl d ↦
              let (v', falta) = eliminar_servidor_lem b mensaje v in
              (
                eliminar_servidor b mensaje,
                rw (recibir_anuncio, corta, e, fijo, c, d) refl,
                v',
                inr (inl (es_byte_sound mensaje 0 b'S' e, es_byte_sound mensaje 2 b'D' d, falta)),
              )
          | inr d ↦ (
            b,
            rw (recibir_anuncio, corta, e, fijo, c, d) refl,
            v,
            inr (
                inr (
                  refl,
                  inr (
                    λ h. choque c (es_byte-true mensaje 2 b'C' h),
                    λ h. choque d (es_byte-true mensaje 2 b'D' h),
                  ),
                )),
          )
        ]
      ]
    ]
