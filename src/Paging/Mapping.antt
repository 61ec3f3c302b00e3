-- ===== src/Paging/Mapping.antt =====
-- The identity mapping, against the translation that paging.c and paging.h describe.
use olympos.Prelude.{
  ℕ, zero, suc, ◌+◌, ◌-◌, ◌*◌, ◌/◌, ◌%◌, ◌^◌, ◌≤◌, ◌<◌, bit_and, bit_or, if◌then◌else◌, ◌==◌, ltb,
  Option, none, some, ◌≡◌, ◌≢◌, ◌⊎◌, inl, inr, refl, sym, ap, ap₂, ◌∙◌, subst, arith, not32, Memory,
  store,
}
use native.Mathlib.Decide.{dec_lt}
use olympos.Bits.Fields.{bit_and_mask, bit_and_high, bit_or_fields, bit_or-zero}
use olympos.Bits.Step.{bit_or_step}
use olympos.Paging.{
  page_size, kmem_max, Paging, pde_present, pde_writable, pte_present, pte_writable, map_page,
  zero_words, map_pages, setup_identity_mapping,
}

-- The walk of the MMU: bits 31-22 choose the directory entry, bits 21-12 the table entry; an entry
-- whose lowest bit is 0 is not present; bits 31-12 of an entry are an address.
pub translate : Memory → ℕ → ℕ → Option ℕ
translate m dir virt =
    let pde = m (dir + 4 * (virt / 2 ^ 22)) in
    let pte = m (pde - pde % 4096 + 4 * (virt / 2 ^ 12 % 1024)) in
    if pde % 2 == 0
    then none
    else if pte % 2 == 0
    then none
    else some (pte - pte % 4096 + virt % 4096)

-- A walk that finds both entries present.
translate_at :
    (m : Memory) (dir v x y z : ℕ)
    → m (dir + 4 * (v / 2 ^ 22)) ≡ x
    → x - x % 4096 + 4 * (v / 2 ^ 12 % 1024) ≡ y
    → m y ≡ z
    → x % 2 ≡ 1
    → z % 2 ≡ 1
    → translate m dir v ≡ some (z - z % 4096 + v % 4096)
unfolding translate
translate_at m dir v x y z e f g px pz = rw (e, f, g) (ground arith)

zero_words-outside :
    (n a : ℕ) (m : Memory) (q : ℕ) → (q < a) ⊎ (a + 4 * n ≤ q) → zero_words n a m q ≡ m q
unfolding zero_words
zero_words-outside zero a m q h = refl
zero_words-outside (suc n) a m q h =
    zero_words-outside n (a + 4) (store m a 0) q (split h) ∙ ground arith
  where
    split : (q < a) ⊎ (a + 4 * suc n ≤ q) → (q < a + 4) ⊎ (a + 4 + 4 * n ≤ q)
    split (inl l) = inl (omega arith)
    split (inr l) = inr (omega arith)

zero_words-inside : (n a i : ℕ) (m : Memory) → i < n → zero_words n a m (a + 4 * i) ≡ 0
unfolding zero_words
zero_words-inside zero a i m h = absurd (omega arith)
zero_words-inside (suc n) a zero m h =
    zero_words-outside n (a + 4) (store m a 0) (a + 4 * 0) (inl (omega arith)) ∙ ground arith
zero_words-inside (suc n) a (suc i) m h =
    let e : a + 4 * suc i ≡ a + 4 + 4 * i = omega arith in
    ap (zero_words n (a + 4) (store m a 0)) e
    ∙ zero_words-inside n (a + 4) i (store m a 0) (omega arith)

-- Where the two static arrays stand: on page boundaries, below 4 GiB, without overlap.
pub record IsLayout (dir tables : ℕ) : Type 0 where
  pub dir_aligned : dir % 4096 ≡ 0
  pub aligned : tables % 4096 ≡ 0
  pub nonnull : 0 < tables
  pub below : tables + 8192 ≤ 2 ^ 32
  pub apart : (dir + 4096 ≤ tables) ⊎ (tables + 8192 ≤ dir)

-- The first `k` pages are mapped to themselves, present and writable, and no other page is mapped.
record IsMapped (dir tables k : ℕ) (m : Memory) : Type 0 where
  first : m dir ≡ tables + 3
  second : m (dir + 4) ≡ tables + 4096 + 3
  others : (i : ℕ) → 2 ≤ i → i < 1024 → m (dir + 4 * i) ≡ 0
  done : (p : ℕ) → p < k → m (tables + 4 * p) ≡ p * 4096 + 3
  left : (p : ℕ) → k ≤ p → p < 2048 → m (tables + 4 * p) ≡ 0

-- A call of `map_page` whose directory entry holds the address of a table.
map_page_at :
    (dir v phys flags table addr value : ℕ) (s : Paging)
    → bit_and (s.memory (dir + 4 * (v / 2 ^ 22))) (not32 0xfff) ≡ table
    → table ≢ 0
    → table + 4 * bit_and (v / 2 ^ 12) 0x3ff ≡ addr
    → bit_or (bit_and phys (not32 0xfff)) flags ≡ value
    → map_page dir v phys flags s ≡ record s { memory = store s.memory addr value }
unfolding map_page
map_page_at dir v phys flags table addr value s t nz a e = rw (t, a, e) (ground arith)

-- `a | 1 | 2` at a page boundary.
flags_entry : (a : ℕ) → a % 4096 ≡ 0 → bit_or (bit_or a pde_present) pde_writable ≡ a + 3
flags_entry a h =
    ap (λ (x : ℕ). bit_or x 2) one
    ∙ omega
        (arith, bit_or_step (a + 1) 2, bit_or_step ((a + 1) / 2) 1, bit_or-zero ((a + 1) / 2 / 2))
  where
    split : bit_or (a / 4096 * 4096) 1 ≡ a / 4096 * 4096 + 1
    split = bit_or_fields 12 (a / 4096) 1 (omega arith)

    same : a / 4096 * 4096 ≡ a
    same = omega arith

    one : bit_or a 1 ≡ a + 1
    one = rw same at split

-- The address bits of an aligned address with flags.
address_bits :
    (a f : ℕ) → a % 4096 ≡ 0 → f < 4096 → a + f < 2 ^ 32 → bit_and (a + f) (not32 0xfff) ≡ a
address_bits a f h l b = bit_and_high 12 32 (a + f) (omega arith) b ∙ omega arith

module _ (dir tables : ℕ) (w : IsLayout dir tables) where
  pde_at :
      (k p : ℕ) (m : Memory)
      → IsMapped dir tables k m
      → p < 2048
      → m (dir + 4 * (p / 1024)) ≡ tables + 4096 * (p / 1024) + 3
  pde_at k p m s h = elim (dec_lt p 1024) [
    | yes l ↦ let e : dir + 4 * (p / 1024) ≡ dir = omega arith in ap m e ∙ s.first ∙ omega arith
    | no l ↦ let e : dir + 4 * (p / 1024) ≡ dir + 4 = omega arith in ap m e ∙ s.second ∙ omega arith
  ]

  -- One round of the loop writes one entry.
  map_page_lem :
      (k : ℕ) (s : Paging)
      → IsMapped dir tables k s.memory
      → k < 2048
      → map_page dir (k * page_size) (k * page_size) (bit_or pte_present pte_writable) s
        ≡ record s { memory = store s.memory (tables + 4 * k) (k * 4096 + 3) }
  map_page_lem k s m h =
      map_page_at dir (k * page_size) (k * page_size) 3 (tables + 4096 * (k / 1024))
        (tables + 4 * k) (k * 4096 + 3) s table (omega (arith, w.nonnull)) entry value
    where
      slot : dir + 4 * (k * page_size / 2 ^ 22) ≡ dir + 4 * (k / 1024)
      slot = omega arith

      pde : s.memory (dir + 4 * (k * page_size / 2 ^ 22)) ≡ tables + 4096 * (k / 1024) + 3
      pde = ap s.memory slot ∙ pde_at k k s.memory m h

      table :
          bit_and (s.memory (dir + 4 * (k * page_size / 2 ^ 22))) (not32 0xfff)
          ≡ tables + 4096 * (k / 1024)
      table =
          ap (λ (x : ℕ). bit_and x (not32 0xfff)) pde
          ∙ address_bits (tables + 4096 * (k / 1024)) 3 (omega (arith, w.aligned)) (omega arith)
              (omega (arith, w.below))

      entry :
          tables + 4096 * (k / 1024) + 4 * bit_and (k * page_size / 2 ^ 12) 0x3ff ≡ tables + 4 * k
      entry = omega (arith, bit_and_mask 10 (k * page_size / 2 ^ 12))

      value : bit_or (bit_and (k * page_size) (not32 0xfff)) 3 ≡ k * 4096 + 3
      value =
          ap (λ (x : ℕ). bit_or x 3)
            (bit_and_high 12 32 (k * page_size) (omega arith) (omega arith) ∙ omega arith)
          ∙ bit_or_fields 12 k 3 (omega arith)

  store-IsMapped :
      (k : ℕ) (m : Memory)
      → IsMapped dir tables k m
      → k < 2048
      → IsMapped dir tables (k + 1) (store m (tables + 4 * k) (k * 4096 + 3))
  store-IsMapped k m s h = record {
    first = ground (arith, w.apart, s.first);
    second = ground (arith, w.apart, s.second);
    others = λ i p q. ground (arith, w.apart, s.others i p q);
    done = λ p q. ground (arith, s.done p);
    left = λ p q r. ground (arith, s.left p);
  }

  -- The whole loop, from page `k` on.
  map_pages_lem :
      (n k : ℕ) (s : Paging)
      → IsMapped dir tables k s.memory
      → k + n ≡ 2048
      → (m : Memory) × (map_pages dir n (k * page_size) s ≡ record s { memory = m })
        × IsMapped dir tables 2048 m
  unfolding map_pages
  map_pages_lem zero k s m e =
      (s.memory, refl, subst (λ j. IsMapped dir tables j s.memory) (omega arith) m)
  map_pages_lem (suc n) k s m e =
      let m1 : Memory = store s.memory (tables + 4 * k) (k * 4096 + 3) in
      let next : k * page_size + page_size ≡ (k + 1) * page_size = omega arith in
      let r =
        map_pages_lem n (k + 1) (record s { memory = m1 })
          (store-IsMapped k s.memory m (omega arith)) (omega arith) in
      (r.0, ap₂ (map_pages dir n) next (map_page_lem k s m (omega arith)) ∙ r.1, r.2)

  -- The state before the loop: zeroed arrays with the two directory entries.
  ready : Memory → Memory
  ready m0 =
      let m = zero_words (2 * 1024) tables (zero_words 1024 dir m0) in
      let m = store m dir (bit_or (bit_or tables pde_present) pde_writable) in
      store m (dir + 4) (bit_or (bit_or (tables + 4096) pde_present) pde_writable)

  ready-IsMapped : (m0 : Memory) → IsMapped dir tables 0 (ready m0)
  unfolding ready
  ready-IsMapped m0 = record {
    first = ground (arith, flags_entry tables w.aligned);
    second = ground (arith, flags_entry (tables + 4096) (omega (arith, w.aligned)));
    others = λ i p q. ground (
      arith,
      w.apart,
      zero_words-outside 2048 tables (zero_words 1024 dir m0) (dir + 4 * i),
      zero_words-inside 1024 dir i m0,
    );
    done = λ p q. absurd (omega arith);
    left =
        λ p q r. ground (arith, w.apart, zero_words-inside 2048 tables p (zero_words 1024 dir m0));
  }

  -- `setup_identity_mapping` changes only memory, in which it maps all 2048 pages.
  setup_lem :
      (s : Paging)
      → (m : Memory) × (setup_identity_mapping dir tables s ≡ record s { memory = m })
        × IsMapped dir tables 2048 m
  unfolding setup_identity_mapping ready
  setup_lem s =
      map_pages_lem 2048 0 (record s { memory = ready s.memory }) (ready-IsMapped s.memory) refl

  translate_low :
      (m : Memory) (v : ℕ) → IsMapped dir tables 2048 m → v < kmem_max → translate m dir v ≡ some v
  translate_low m v s h =
      translate_at m dir v (tables + 4096 * (v / 4096 / 1024) + 3) (tables + 4 * (v / 4096))
        (v / 4096 * 4096 + 3) (ap m slot ∙ pde_at 2048 (v / 4096) m s (omega arith))
        (omega (arith, w.aligned)) (s.done (v / 4096) (omega arith)) (omega (arith, w.aligned))
        (omega arith)
      ∙ ap some (omega arith)
    where
      slot : dir + 4 * (v / 2 ^ 22) ≡ dir + 4 * (v / 4096 / 1024)
      slot = omega arith

  translate_high :
      (m : Memory) (v : ℕ)
      → IsMapped dir tables 2048 m
      → kmem_max ≤ v
      → v < 2 ^ 32
      → translate m dir v ≡ none
  unfolding translate
  translate_high m v s h l = ground (arith, s.others (v / 2 ^ 22))

-- With the directory and the tables at page boundaries and apart, after `setup_identity_mapping` the
-- first 8 MiB translate to themselves, no other address
-- translates, and nothing is printed or changed but memory.
pub setup_identity_mapping_lem :
    (dir tables : ℕ) (s : Paging) (v : ℕ)
    → IsLayout dir tables
    → v < 2 ^ 32
    → let after = setup_identity_mapping dir tables s in
      (translate after.memory dir v ≡ (if ltb v kmem_max then some v else none))
      × (after ≡ record s { memory = after.memory })
setup_identity_mapping_lem dir tables s v w h =
    let r = setup_lem dir tables w s in
    subst
      (λ (after : Paging).
        (translate after.memory dir v ≡ (if ltb v kmem_max then some v else none))
        × (after ≡ record s { memory = after.memory }))
      (sym r.1)
      (
        elim (dec_lt v kmem_max) [
          | yes l ↦ translate_low dir tables w r.0 v r.2 l ∙ ground arith
          | no g ↦ translate_high dir tables w r.0 v r.2 (omega arith) h ∙ ground arith
        ],
        refl,
      )
