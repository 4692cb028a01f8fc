-- ===== src/NachOs/Vivos.antt =====
-- The steps of the kernel on address spaces, and the states that they reach
-- (nachOS/code/userprog/addrspace.cc).
use server_load_balancer_cli.Prelude.{
  ℕ, zero, suc, ◌+◌, ◌<◌, ◌≡◌, refl, ◌∙◌, sym, subst, some, some_inj, List, [], ◌∷◌, get_elem?,
  erase_at, ltb, arith,
}
use server_load_balancer_cli.Prelude.Int.{ℤ, pos}
use server_load_balancer_cli.NachOs.Base.{BitMap, Mapas}
use server_load_balancer_cli.NachOs.Resultado.{sigue}
use server_load_balancer_cli.NachOs.AddrSpace.{
  AddrSpace, OpenFile, Paginas, pages_of_counts, num_phys_pages, pages_real, liberar,
}
use server_load_balancer_cli.NachOs.Carga.{Fisica, cabecera, cargar, duplicar}
use server_load_balancer_cli.NachOs.Cuentas.{refs, Cuadra, Cuadra-ext}
use server_load_balancer_cli.NachOs.Referencias.{reservar_lem, compartir_lem, liberar_lem}
use server_load_balancer_cli.NachOs.Espacios.{
  refs_todas, refs_todas_at, refs-append, cargar_cases, cargar_programa_cases, duplicar_cases,
}

abbrev pub veces : ℕ → List ℤ
veces zero = []
veces (suc n) = pos 0 ∷ veces n

get_elem?-veces : (n p : ℕ) → p < n → get_elem? (veces n) p ≡ some (pos 0)
get_elem?-veces zero p h = absurd (omega arith)
get_elem?-veces (suc n) zero h = refl
get_elem?-veces (suc n) (suc p) h = get_elem?-veces n p (omega arith)

module _ (m : BitMap) where
  -- The pages and the memory, and the address spaces that are alive.
  pub record Tablas : Type 0 where
    pub fisica : Fisica m
    pub vivos : List AddrSpace

  -- The start of the kernel: no bit and no count is set.
  abbrev pub arranque : List ℕ → Tablas
  arranque memoria = record {
    fisica = record {
      paginas = record {
        memory_bit_map = m.nuevo num_phys_pages;
        threads_on_phy_page = veces pages_of_counts;
      };
      main_memory = memoria;
    };
    vivos = [];
  }

  -- A program is loaded, a space is copied, or one is destroyed.
  pub data Paso (w : ℕ → ℕ) : Tablas → Tablas → Type 0 where
    nace :
        (t : Tablas) (f : OpenFile) (a : AddrSpace) (x : Fisica m)
        → cargar m {S = Unit {0}} w f t.fisica ≡ sigue (a, x)
        → Paso w t (record { fisica = x; vivos = a ∷ t.vivos })
    copia :
        (t : Tablas) (i : ℕ) (o a : AddrSpace) (x : Fisica m)
        → get_elem? t.vivos i ≡ some o
        → duplicar m o t.fisica ≡ some (a, x)
        → Paso w t (record { fisica = x; vivos = a ∷ t.vivos })
    muere :
        (t : Tablas) (i : ℕ) (o : AddrSpace) (ps : Paginas m)
        → get_elem? t.vivos i ≡ some o
        → liberar m o.page_table t.fisica.paginas ≡ some ps
        → Paso w t (record {
          fisica = record { paginas = ps; main_memory = t.fisica.main_memory };
          vivos = erase_at t.vivos i;
        })

  pub data Alcanza (w : ℕ → ℕ) (s : Tablas) : Tablas → Type 0 where
    aqui : Alcanza w s s
    luego_paso : {t u : Tablas} → Alcanza w s t → Paso w t u → Alcanza w s u

module _ (m : BitMap) (x : Mapas m) where
  abbrev Cuadran : Tablas m → Type 0
  Cuadran t = Cuadra m x t.fisica.paginas (refs_todas t.vivos)

  arranque-Cuadran : (memoria : List ℕ) → Cuadran (arranque m memoria)
  arranque-Cuadran memoria = record {
    num_bits = x.num_bits-nuevo num_phys_pages;
    cuentas = refl;
    cuenta = λ p. λ h. get_elem?-veces pages_of_counts p h;
    lejos = λ p. λ h. refl;
    bit = λ p. x.bit-nuevo num_phys_pages p;
  }

  -- The last thread on a page: what the table holds and what the others hold.
  Cuadra-aparte :
      (ps : Paginas m) (vivos : List AddrSpace) (i : ℕ) (o : AddrSpace)
      → get_elem? vivos i ≡ some o
      → Cuadra m x ps (refs_todas vivos)
      → Cuadra m x ps (λ p. refs o.page_table p + refs_todas (erase_at vivos i) p)
  Cuadra-aparte ps vivos i o h =
      Cuadra-ext m x ps (refs_todas vivos)
        (λ p. refs o.page_table p + refs_todas (erase_at vivos i) p)
        (λ p. refs_todas_at vivos i p h)

  Paso-Cuadran : (w : ℕ → ℕ) {t u : Tablas m} → Paso m w t u → Cuadran t → Cuadran u
  Paso-Cuadran w (nace t f a y h) k =
      (reservar_lem m x (pages_real (cabecera w f.header)) 0 t.fisica.paginas (refs_todas t.vivos) k
        (cargar_programa_cases m f (cabecera w f.header) t.fisica
          (cargar_cases m w f t.fisica h))).1
  Paso-Cuadran w (copia t i o a y g h) k =
      let (n, j, l, c, ps, d, comp, res, eq) = duplicar_cases m o t.fisica h in
      let (eq_c, k₂) =
        compartir_lem m x j o.page_table t.fisica.paginas (refs_todas t.vivos) k
          (λ p. λ f. (let z = refs_todas_at t.vivos i p g in omega arith)) comp in
      let (nuevas, k₃) = reservar_lem m x n l ps (λ p. refs c p + refs_todas t.vivos p) k₂ res in
      Cuadra-ext m x y.paginas (λ p. refs d p + (refs c p + refs_todas t.vivos p))
        (λ p. refs a.page_table p + refs_todas t.vivos p)
        (λ p. rw (eq, refs-append c d p) (omega arith)) k₃
  Paso-Cuadran w (muere t i o ps g h) k =
      let (qs, l, k₂) =
        liberar_lem m x o.page_table t.fisica.paginas (refs_todas (erase_at t.vivos i))
          (Cuadra-aparte t.fisica.paginas t.vivos i o g k) in
      subst (λ z. Cuadra m x z (refs_todas (erase_at t.vivos i))) (some_inj (sym l ∙ h)) k₂

  Alcanza-Cuadran :
      (w : ℕ → ℕ) (memoria : List ℕ) {t : Tablas m} → Alcanza m w (arranque m memoria) t → Cuadran t
  Alcanza-Cuadran w memoria aqui = arranque-Cuadran memoria
  Alcanza-Cuadran w memoria (luego_paso r p) = Paso-Cuadran w p (Alcanza-Cuadran w memoria r)

  -- In every state that the kernel reaches, the count of a page that has one is the number of entries of
  -- live spaces that name it, and its bit is set exactly when there is one.
  pub Alcanza-cuenta :
      (w : ℕ → ℕ) (memoria : List ℕ) {t : Tablas m} (p : ℕ)
      → Alcanza m w (arranque m memoria) t
      → p < pages_of_counts
      → (get_elem? t.fisica.paginas.threads_on_phy_page p ≡ some (pos (refs_todas t.vivos p)))
        × (x.bit t.fisica.paginas.memory_bit_map p ≡ ltb 0 (refs_todas t.vivos p))
  Alcanza-cuenta w memoria p r h = let k = Alcanza-Cuadran w memoria r in (k.cuenta p h, k.bit p)

  -- A program that is loaded in a state that the kernel reaches has each of its pages once, and no live
  -- space has any of them.
  pub cargar-aislada :
      (w : ℕ → ℕ) (memoria : List ℕ) {t : Tablas m} (f : OpenFile) (a : AddrSpace) (y : Fisica m)
      (p : ℕ)
      → Alcanza m w (arranque m memoria) t
      → cargar m {S = Unit {0}} w f t.fisica ≡ sigue (a, y)
      → 0 < refs a.page_table p
      → (refs a.page_table p ≡ 1) × (refs_todas t.vivos p ≡ 0)
  cargar-aislada w memoria {t} f a y p r h =
      (reservar_lem m x (pages_real (cabecera w f.header)) 0 t.fisica.paginas (refs_todas t.vivos)
          (Alcanza-Cuadran w memoria r)
          (cargar_programa_cases m f (cabecera w f.header) t.fisica
            (cargar_cases m w f t.fisica h))).0
        p

  -- Every live space of a state that the kernel reaches can be destroyed: no index is outside an array, and
  -- then the bit of a page is set exactly when one of the other spaces has it.
  pub liberar_vivo :
      (w : ℕ → ℕ) (memoria : List ℕ) {t : Tablas m} (i : ℕ) (o : AddrSpace) (p : ℕ)
      → Alcanza m w (arranque m memoria) t
      → get_elem? t.vivos i ≡ some o
      → (ps : Paginas m) × (liberar m o.page_table t.fisica.paginas ≡ some ps)
        × (x.bit ps.memory_bit_map p ≡ ltb 0 (refs_todas (erase_at t.vivos i) p))
  liberar_vivo w memoria {t} i o p r h =
      let (ps, l, k) =
        liberar_lem m x o.page_table t.fisica.paginas (refs_todas (erase_at t.vivos i))
          (Cuadra-aparte t.fisica.paginas t.vivos i o h (Alcanza-Cuadran w memoria r)) in
      (ps, l, k.bit p)
