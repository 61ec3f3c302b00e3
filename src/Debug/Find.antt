-- ===== src/Debug/Find.antt =====
-- The search for a section by its name.
use olympos.Prelude.{
  ℕ, zero, suc, ◌+◌, ◌*◌, ◌≤◌, ◌<◌, Bool, true, false, Option, some, List, length, ◌==◌,
  if◌then◌else◌, u32, Memory, ◌≡◌, ◌≢◌, ◌⊎◌, inl, inr, refl, sym, ap, ◌∙◌, subst, arith, ℤ,
  Bool-cases,
}
use native.Mathlib.Decide.{ℕ_discrete}
use olympos.Libc.Itoa.Value.{magnitude, magnitude-zero}
use olympos.Libc.Strings.{◌>>=◌}
use olympos.Libc.Strings.Text.{IsString}
use olympos.Libc.Strings.Scan.{
  first_difference, strcmp_lem, first_difference-zero, first_difference_self,
}
use olympos.Debug.{section_at, sizeof_shdr, find_section}

-- The section names are strings, which the fuel of a comparison is enough for.
pub record Named (fuel : ℕ) (m : Memory) (sht sh_names n : ℕ) (names : ℕ → List ℕ) : Type 0 where
  pub strings :
      (k : ℕ) → k < n → IsString m (u32 (sh_names + (section_at m sht k).sh_name)) (names k)
  pub short : (k : ℕ) → k < n → length (names k) < fuel

-- Among the sections from `i` on with `n` left, `index` is the first of the name.
pub record FirstNamed (names : ℕ → List ℕ) (target : List ℕ) (sht i n : ℕ) (result : Option ℕ)
    : Type 0 where
  pub index : ℕ
  pub from_i : i ≤ index
  pub in_table : index < i + n
  pub returns : result ≡ some (sht + index * sizeof_shdr)
  pub named : names index ≡ target
  pub first : (k : ℕ) → i ≤ k → k < index → names k ≢ target

abbrev pub NoneNamed : (ℕ → List ℕ) → List ℕ → ℕ → ℕ → Option ℕ → Type 0
NoneNamed names target i n result =
    (result ≡ some 0) × ((k : ℕ) → i ≤ k → k < i + n → names k ≢ target)

module _ (fuel : ℕ) (m : Memory) (sht sh_names name n i : ℕ) (xs target : List ℕ)
    (s : IsString m (u32 (sh_names + (section_at m sht i).sh_name)) xs) (short : length xs < fuel)
    (t : IsString m name target) where
  decided :
      (b : Bool)
      → magnitude (first_difference xs target) == 0 ≡ b
      → find_section fuel m sht sh_names name (suc n) i ≡ (
          if b
          then some (sht + i * sizeof_shdr)
          else find_section fuel m sht sh_names name n (i + 1))
  unfolding find_section
  decided b e =
      ap
        (λ (o : Option ℤ). o >>= (λ z.
          if magnitude z == 0
          then some (sht + i * sizeof_shdr)
          else find_section fuel m sht sh_names name n (i + 1)))
        (strcmp_lem fuel m (u32 (sh_names + (section_at m sht i).sh_name)) name xs target s t short)
      ∙ ap
          (λ (c : Bool).
            if c
            then some (sht + i * sizeof_shdr)
            else find_section fuel m sht sh_names name n (i + 1))
          e

  same_name : magnitude (first_difference xs target) == 0 ≡ true → xs ≡ target
  same_name e =
      first_difference-zero m (u32 (sh_names + (section_at m sht i).sh_name)) name xs target s t
        (magnitude-zero (first_difference xs target) (ground arith))

  other_name : magnitude (first_difference xs target) == 0 ≡ false → xs ≢ target
  other_name e f =
      let z : magnitude (first_difference xs target) ≡ 0 =
        ap (λ (ys : List ℕ). magnitude (first_difference xs ys)) (sym f)
        ∙ ap magnitude (first_difference_self xs) in
      ground arith

-- Where the section names and the name asked for are terminated strings and the fuel is above the length of each section's name, `find_section`
-- returns the header of the first section with the name, or NULL when no section has it.
pub find_section_lem :
    (fuel : ℕ) (m : Memory) (sht sh_names name n i : ℕ) (names : ℕ → List ℕ) (target : List ℕ)
    → ((k : ℕ)
        → i ≤ k
        → k < i + n
        → IsString m (u32 (sh_names + (section_at m sht k).sh_name)) (names k))
    → ((k : ℕ) → i ≤ k → k < i + n → length (names k) < fuel)
    → IsString m name target
    → FirstNamed names target sht i n (find_section fuel m sht sh_names name n i)
      ⊎ NoneNamed names target i n (find_section fuel m sht sh_names name n i)
unfolding find_section
find_section_lem fuel m sht sh_names name zero i names target s l t =
    inr (refl, λ k p q. absurd (omega arith))
find_section_lem fuel m sht sh_names name (suc n) i names target s l t =
    let si = s i (omega arith) (omega arith) in
    let li = l i (omega arith) (omega arith) in
    elim (Bool-cases (magnitude (first_difference (names i) target) == 0)) [
      | inl e ↦ inl (record {
        index = i;
        from_i = omega arith;
        in_table = omega arith;
        returns = decided fuel m sht sh_names name n i (names i) target si li t true e;
        named = same_name fuel m sht sh_names name n i (names i) target si li t e;
        first = λ k p q. absurd (omega arith);
      })
      | inr e ↦
          let d = decided fuel m sht sh_names name n i (names i) target si li t false e in
          let o = other_name fuel m sht sh_names name n i (names i) target si li t e in
          let later : (k : ℕ) → i ≤ k → (i + 1 ≤ k → names k ≢ target) → names k ≢ target = λ k p g.
            elim (ℕ_discrete i k) [
              | yes q ↦ subst (λ j. names j ≢ target) q o
              | no q ↦ g (omega arith)
            ] in
          elim (find_section_lem fuel m sht sh_names name n (i + 1) names target
            (λ k p q. s k (omega arith) (omega arith)) (λ k p q. l k (omega arith) (omega arith))
            t) [
              | inl f ↦ inl (record {
                index = f.index;
                from_i = omega (arith, f.from_i);
                in_table = omega (arith, f.in_table);
                returns = d ∙ f.returns;
                named = f.named;
                first = λ k p q. later k p (λ r. f.first k r q);
              })
              | inr f ↦ inr (d ∙ f.0, λ k p q. later k p (λ r. f.1 k r (omega arith)))
            ]
    ]

-- With such names a search comes to an end.
pub find_returns :
    (fuel : ℕ) (m : Memory) (sht sh_names name n : ℕ) (names : ℕ → List ℕ) (target : List ℕ)
    → Named fuel m sht sh_names n names
    → IsString m name target
    → (hdr : ℕ) × (find_section fuel m sht sh_names name n 0 ≡ some hdr)
find_returns fuel m sht sh_names name n names target v t =
    elim (find_section_lem fuel m sht sh_names name n 0 names target
      (λ k p q. v.strings k (omega arith)) (λ k p q. v.short k (omega arith)) t) [
        | inl f ↦ (_, f.returns)
        | inr f ↦ (0, f.0)
      ]
