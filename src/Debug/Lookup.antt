-- ===== src/Debug/Lookup.antt =====
-- The two lookups of an address among the symbols.
use olympos.Prelude.{
  ℕ, zero, suc, ◌+◌, ◌≤◌, ◌<◌, Bool, true, false, ◌&&◌, leb, ltb, ◌≢◌, sym, ap, ◌==◌, if◌then◌else◌,
  u32, Memory, ◌≡◌, ◌⊎◌, inl, inr, refl, ◌∙◌, subst, arith, Bool-cases,
}
use native.Mathlib.Decide.{ℕ_discrete, dec_lt}
use olympos.Debug.{
  Elf32Sym, symbol_at, elf32_st_type, elf_sym_type_func, Name, unknown, name_at, Debug,
  find_symbol_from, has_no_symbols, find_symbol_for_address, base_from, get_function_base_address,
}

abbrev pub is_function : Elf32Sym → Bool
is_function symbol = elf32_st_type symbol.st_info == elf_sym_type_func

abbrev spans : Elf32Sym → ℕ → Bool
spans symbol addr = leb symbol.st_value addr && leb addr (u32 (symbol.st_value + symbol.st_size))

-- What the code takes a function's symbol for: its bytes and the address behind them.
abbrev pub covers : Elf32Sym → ℕ → Bool
covers symbol addr = is_function symbol && spans symbol addr

-- A symbol is a function's, and the address is one of its bytes.
abbrev pub contains : Elf32Sym → ℕ → Bool
contains symbol addr =
    is_function symbol
    && (leb symbol.st_value addr && ltb addr (u32 (symbol.st_value + symbol.st_size)))

-- No function of the table ends just below the address.
abbrev pub EndsNoFunction : Memory → Debug → ℕ → Type 0
EndsNoFunction m d addr =
    (k : ℕ)
    → k < d.symbol_count
    → let symbol = symbol_at m d.symbol_table k in
      is_function symbol ≡ true → u32 (symbol.st_value + symbol.st_size) ≢ addr

covers-contains :
    (symbol : Elf32Sym) (addr : ℕ)
    → (is_function symbol ≡ true → u32 (symbol.st_value + symbol.st_size) ≢ addr)
    → covers symbol addr ≡ contains symbol addr
covers-contains symbol addr h = elim (Bool-cases (is_function symbol)) [
  | inl e ↦ let n = h e in rw e (ground (arith, n))
  | inr e ↦ rw e refl
]

both_hold {ℓ} :
    {A : Type ℓ} (a b : Bool) (x y : A)
    → a && b ≡ true
    → (if a then (if b then x else y) else y) ≡ x
both_hold true true x y h = refl
both_hold true false x y h = cc
both_hold false b x y h = cc

one_fails {ℓ} :
    {A : Type ℓ} (a b : Bool) (x y : A)
    → a && b ≡ false
    → (if a then (if b then x else y) else y) ≡ y
one_fails true true x y h = cc
one_fails true false x y h = refl
one_fails false b x y h = refl

-- Between the symbols `i` and `i + n`, symbol `index` is the first that covers the address.
record Found (m : Memory) (d : Debug) (addr i n : ℕ) (name : Name) (base : ℕ) : Type 0 where
  index : ℕ
  from_i : i ≤ index
  in_table : index < i + n
  found : covers (symbol_at m d.symbol_table index) addr ≡ true
  first : (k : ℕ) → i ≤ k → k < index → covers (symbol_at m d.symbol_table k) addr ≡ false
  named : name ≡ name_at (u32 (d.string_table + (symbol_at m d.symbol_table index).st_name))
  based : base ≡ (symbol_at m d.symbol_table index).st_value

abbrev NotFound : Memory → Debug → ℕ → ℕ → ℕ → Name → ℕ → Type 0
NotFound m d addr i n name base =
    ((k : ℕ) → i ≤ k → k < i + n → covers (symbol_at m d.symbol_table k) addr ≡ false)
    × (name ≡ unknown)
    × (base ≡ 0)

module _ (m : Memory) (d : Debug) (addr n i : ℕ) where
  find_hits :
      covers (symbol_at m d.symbol_table i) addr ≡ true
      → (find_symbol_from m d addr (suc n) i
          ≡ name_at (u32 (d.string_table + (symbol_at m d.symbol_table i).st_name)))
        × (base_from m d addr (suc n) i ≡ (symbol_at m d.symbol_table i).st_value)
  unfolding find_symbol_from base_from
  find_hits h =
      let s = symbol_at m d.symbol_table i in
      (
        both_hold (is_function s) (spans s addr) _ (find_symbol_from m d addr n (i + 1)) h,
        both_hold (is_function s) (spans s addr) _ (base_from m d addr n (i + 1)) h,
      )

  find_misses :
      covers (symbol_at m d.symbol_table i) addr ≡ false
      → (find_symbol_from m d addr (suc n) i ≡ find_symbol_from m d addr n (i + 1))
        × (base_from m d addr (suc n) i ≡ base_from m d addr n (i + 1))
  unfolding find_symbol_from base_from
  find_misses h =
      let s = symbol_at m d.symbol_table i in
      (
        one_fails (is_function s) (spans s addr) (name_at (u32 (d.string_table + s.st_name))) _ h,
        one_fails (is_function s) (spans s addr) s.st_value _ h,
      )

lookups_from :
    (m : Memory) (d : Debug) (addr n i : ℕ)
    → Found m d addr i n (find_symbol_from m d addr n i) (base_from m d addr n i)
      ⊎ NotFound m d addr i n (find_symbol_from m d addr n i) (base_from m d addr n i)
unfolding find_symbol_from base_from
lookups_from m d addr zero i = inr (λ k l h. absurd (omega arith), refl, refl)
lookups_from m d addr (suc n) i = elim (Bool-cases (covers (symbol_at m d.symbol_table i) addr)) [
  | inl h ↦ inl (record {
    index = i;
    from_i = omega arith;
    in_table = omega arith;
    found = h;
    first = λ k l g. absurd (omega arith);
    named = (find_hits m d addr n i h).0;
    based = (find_hits m d addr n i h).1;
  })
  | inr h ↦
      let e = find_misses m d addr n i h in
      let later : (k : ℕ)
          → i ≤ k
          → (i + 1 ≤ k → covers (symbol_at m d.symbol_table k) addr ≡ false)
          → covers (symbol_at m d.symbol_table k) addr ≡ false =
        λ k l g. elim (ℕ_discrete i k) [
          | yes q ↦ subst (λ j. covers (symbol_at m d.symbol_table j) addr ≡ false) q h
          | no q ↦ g (omega arith)
        ] in
      elim (lookups_from m d addr n (i + 1)) [
        | inl f ↦ inl (record {
          index = f.index;
          from_i = omega (arith, f.from_i);
          in_table = omega (arith, f.in_table);
          found = f.found;
          first = λ k l g. later k l (λ p. f.first k p g);
          named = e.0 ∙ f.named;
          based = e.1 ∙ f.based;
        })
        | inr f ↦ inr (λ k l g. later k l (λ p. f.0 k p (omega arith)), e.0 ∙ f.1, e.1 ∙ f.2)
      ]
]

-- The function that stands behind an answer of the two lookups.
pub record FirstFunction (m : Memory) (d : Debug) (addr : ℕ) (name : Name) (base : ℕ) : Type 0 where
  pub index : ℕ
  pub in_table : index < d.symbol_count
  pub found : contains (symbol_at m d.symbol_table index) addr ≡ true
  pub first : (k : ℕ) → k < index → contains (symbol_at m d.symbol_table k) addr ≡ false
  pub named : name ≡ name_at (u32 (d.string_table + (symbol_at m d.symbol_table index).st_name))
  pub based : base ≡ (symbol_at m d.symbol_table index).st_value

abbrev pub NoFunction : Memory → Debug → ℕ → Name → ℕ → Type 0
NoFunction m d addr name base =
    ((k : ℕ) → k < d.symbol_count → contains (symbol_at m d.symbol_table k) addr ≡ false)
    × (name ≡ unknown)
    × (base ≡ 0)

-- With symbols, and for an address at which no function of the table just ended: the name and the base
-- that the two lookups give are those of one and the same symbol, the first function of the table that
-- contains the address; or no function contains it, and they are "unknown" and 0.
pub lookups_agree :
    (m : Memory) (d : Debug) (addr : ℕ)
    → has_no_symbols d ≡ false
    → EndsNoFunction m d addr
    → let name = find_symbol_for_address m d addr in
      let base = get_function_base_address m d addr in
      FirstFunction m d addr name base ⊎ NoFunction m d addr name base
unfolding find_symbol_for_address get_function_base_address
lookups_agree m d addr h ends = rw h (elim (lookups_from m d addr d.symbol_count 0) [
  | inl f ↦ inl (record {
    index = f.index;
    in_table = omega (arith, f.in_table);
    found = sym (same f.index (omega (arith, f.in_table))) ∙ f.found;
    first = λ k l. sym (same k (omega (arith, f.in_table, l))) ∙ f.first k (omega arith) l;
    named = f.named;
    based = f.based;
  })
  | inr f ↦ inr (λ k l. sym (same k l) ∙ f.0 k (omega arith) (omega arith), f.1, f.2)
])
  where
    same :
        (k : ℕ)
        → k < d.symbol_count
        → covers (symbol_at m d.symbol_table k) addr ≡ contains (symbol_at m d.symbol_table k) addr
    same k l = covers-contains (symbol_at m d.symbol_table k) addr (ends k l)

-- With symbols: the address behind the last byte of a function, which does not contain it, is given to
-- that function by both lookups, unless an earlier one of the table takes it; also where another function
-- behind it in the table starts at just that address.
pub lookups-behind_end :
    (m : Memory) (d : Debug) (addr index : ℕ)
    → has_no_symbols d ≡ false
    → index < d.symbol_count
    → let symbol = symbol_at m d.symbol_table index in
      is_function symbol ≡ true
      → u32 (symbol.st_value + symbol.st_size) ≡ addr
      → symbol.st_value ≤ addr
      → ((k : ℕ) → k < index → covers (symbol_at m d.symbol_table k) addr ≡ false)
      → (contains symbol addr ≡ false)
        × (find_symbol_for_address m d addr ≡ name_at (u32 (d.string_table + symbol.st_name)))
        × (get_function_base_address m d addr ≡ symbol.st_value)
unfolding find_symbol_for_address get_function_base_address
lookups-behind_end m d addr index h l function ends starts earlier =
    rw h (elim (lookups_from m d addr d.symbol_count 0) [
      | inr f ↦ absurd (cc (f.0 index (omega arith) (omega arith), taken))
      | inl f ↦
          let e : f.index ≡ index = elim (ℕ_discrete f.index index) [
            | yes q ↦ q
            | no q ↦ elim (dec_lt f.index index) [
              | yes p ↦ absurd (cc (earlier f.index p, f.found))
              | no p ↦ absurd (cc (f.first index (omega arith) (omega (arith, q, p)), taken))
            ]
          ] in
          (
            outside,
            f.named
                ∙ ap (λ k. name_at (u32 (d.string_table + (symbol_at m d.symbol_table k).st_name)))
                    e,
            f.based ∙ ap (λ k. (symbol_at m d.symbol_table k).st_value) e,
          )
    ])
  where
    taken : covers (symbol_at m d.symbol_table index) addr ≡ true
    taken = rw function (ground (arith, ends, starts))

    outside : contains (symbol_at m d.symbol_table index) addr ≡ false
    outside = rw function (ground (arith, ends, starts))
