-- ===== src/NachOs/Cuentas.antt =====
-- How many entries of the page tables name a page, against `threadsOnPhyPage` and the bit map
-- (nachOS/code/userprog/addrspace.cc).
use server_load_balancer_cli.Prelude.{
  ℕ, ◌+◌, ◌≤◌, ◌<◌, ◌≡◌, ◌≢◌, ap, ◌∙◌, sym, true, some, some_inj, List, [], ◌∷◌, length, set,
  get_elem?, length-set, get_elem?-set_self, get_elem?-set_ne, get_elem?-lt_length, ltb, ◌==◌,
  ==_iff, if◌then◌else◌, arith, Bool-cases, Option-cases, inl, inr,
}
use server_load_balancer_cli.Prelude.Int.{ℤ, pos}
use server_load_balancer_cli.NachOs.Base.{BitMap, Mapas}
use server_load_balancer_cli.NachOs.AddrSpace.{
  TranslationEntry, Paginas, pages_of_counts, num_phys_pages, cambiar,
}

-- How many entries of a table name the page.
abbrev pub uno : ℕ → ℕ → ℕ
uno q p = if q == p then 1 else 0

abbrev pub refs : List TranslationEntry → ℕ → ℕ
refs [] p = 0
refs (e ∷ t) p = uno e.physical_page p + refs t p

-- A change of one count, which stands within the array.
pub cambiar_cases :
    (f : ℤ → ℤ) (cs : List ℤ) (p : ℕ) {ds : List ℤ}
    → cambiar f cs p ≡ some ds
    → (c : ℤ) × (p < length cs) × (get_elem? cs p ≡ some c) × (ds ≡ set cs p (f c))
unfolding cambiar
cambiar_cases f cs p {ds} h = elim (Option-cases (get_elem? cs p)) [
  | inl e ↦ absurd (let q = rw (e, cambiar) at h in cc)
  | inr (c, e) ↦
      (c, get_elem?-lt_length cs p e, e, sym (some_inj (let q = rw (e, cambiar) at h in q)))
]

get_elem?_cambiado :
    (cs : List ℤ) (p q : ℕ) (c d : ℤ)
    → p < length cs
    → (p ≡ q → c ≡ d)
    → (p ≢ q → get_elem? cs q ≡ some d)
    → get_elem? (set cs p c) q ≡ some d
get_elem?_cambiado cs p q c d h igual otro = elim (Bool-cases (p == q)) [
  | inl e ↦
      let pq = (==_iff p q).0 e in rw (sym pq, get_elem?-set_self cs p c h) (ap some (igual pq))
  | inr e ↦
      let pq : p ≢ q = λ k. (let z : (p == q) ≡ true = (==_iff p q).1 k in cc) in
      get_elem?-set_ne cs c pq ∙ otro pq
]

pub uno_otra : (q p n : ℕ) → q ≢ p → n ≡ uno q p + n
uno_otra q p n ne = elim (Bool-cases (q == p)) [
  | inl e ↦ absurd (ne ((==_iff q p).0 e))
  | inr e ↦ rw e (omega arith)
]

pub uno_usada : (q p : ℕ) (r : ℕ → ℕ) → 0 < r q → ltb 0 (r p) ≡ ltb 0 (uno q p + r p)
uno_usada q p r h = elim (Bool-cases (q == p)) [
  | inl e ↦ let rp : r p ≡ r q = ap r (sym ((==_iff q p).0 e)) in rw (e, rp) (ground arith)
  | inr e ↦ rw e (ground arith)
]

module _ (m : BitMap) (x : Mapas m) where
  -- The count of each page is `r`, and its bit is set exactly when the count is not 0.
  pub record Cuadra (ps : Paginas m) (r : ℕ → ℕ) : Type 0 where
    pub num_bits : x.num_bits ps.memory_bit_map ≡ num_phys_pages
    pub cuentas : length ps.threads_on_phy_page ≡ pages_of_counts
    pub cuenta :
        (p : ℕ) → p < pages_of_counts → get_elem? ps.threads_on_phy_page p ≡ some (pos (r p))
    pub lejos : (p : ℕ) → pages_of_counts ≤ p → r p ≡ 0
    pub bit : (p : ℕ) → x.bit ps.memory_bit_map p ≡ ltb 0 (r p)

  pub Cuadra-ext :
      (ps : Paginas m) (r q : ℕ → ℕ) → ((p : ℕ) → r p ≡ q p) → Cuadra ps r → Cuadra ps q
  Cuadra-ext ps r q h c = record {
    num_bits = c.num_bits;
    cuentas = c.cuentas;
    cuenta = λ p. λ menor. c.cuenta p menor ∙ ap (λ n. some (pos n)) (h p);
    lejos = λ p. λ mayor. sym (h p) ∙ c.lejos p mayor;
    bit = λ p. c.bit p ∙ ap (λ n. ltb 0 n) (h p);
  }

  -- One count changes, and the bits with it.
  pub Cuadra-cambio :
      (ps : Paginas m) (r s : ℕ → ℕ) (q : ℕ) (b : m.Bits) (c : ℤ)
      → Cuadra ps r
      → q < pages_of_counts
      → c ≡ pos (s q)
      → ((p : ℕ) → q ≢ p → r p ≡ s p)
      → x.num_bits b ≡ x.num_bits ps.memory_bit_map
      → ((p : ℕ) → x.bit b p ≡ ltb 0 (s p))
      → Cuadra
          (record { memory_bit_map = b; threads_on_phy_page = set ps.threads_on_phy_page q c })
          s
  Cuadra-cambio ps r s q b c k menor igual otros n bits = record {
    num_bits = n ∙ k.num_bits;
    cuentas = length-set ps.threads_on_phy_page q c ∙ k.cuentas;
    cuenta = λ p. λ h.
        get_elem?_cambiado ps.threads_on_phy_page q p c (pos (s p)) (rw k.cuentas menor)
          (λ e. igual ∙ ap (λ n. pos (s n)) e)
          (λ ne. k.cuenta p h ∙ ap (λ n. some (pos n)) (otros p ne));
    lejos = λ p. λ h. sym (otros p (λ e. omega arith)) ∙ k.lejos p h;
    bit = bits;
  }
