-- ===== src/Bitmap.antt =====
-- Bitmaps as the kernel keeps them: an array of words of `w` bits, entry `i` being bit `i % w` of
-- word `i / w` (kernel/arch/i386/kheap.c uses bytes, kernel/arch/i386/paging.c 32-bit words).
use olympos.Prelude.{
  ℕ, zero, suc, max, min, ◌-◌, ◌*◌, ◌/◌, ◌%◌, ◌^◌, ◌≤◌, ◌<◌, bit_and, bit_or, ◌≡◌, ◌≢◌, sym, ap,
  ◌∙◌, Bool, true, false, not, List, length, get_or, set, ◌==◌, if◌then◌else◌, arith, min, max,
  get_or-set_self, get_or-set_ne, replicate, get_or-replicate,
}
use olympos.Bits.{bit, bit-lt, bit_and-pow, bit-bit_or, bit-bit_and, bit-pow_self, bit-pow_ne}
use olympos.Bits.{bit-complement, bit-zero}
use olympos.Bits.Order.{bit-mod}
use olympos.Bits.Fields.{pow-pos}
use native.Mathlib.Decide.{ℕ_discrete}
use native.Mathlib.Nat.{pow-suc}

abbrev pub test : ℕ → List ℕ → ℕ → Bool
test w ws i = not (bit_and (get_or ws (i / w) 0) (2 ^ (i % w)) == 0)

abbrev pub mark : ℕ → List ℕ → ℕ → List ℕ
mark w ws i = set ws (i / w) (bit_or (get_or ws (i / w) 0) (2 ^ (i % w)) % 2 ^ w)

abbrev pub clear : ℕ → List ℕ → ℕ → List ℕ
clear w ws i = set ws (i / w) (bit_and (get_or ws (i / w) 0) (2 ^ 32 - 1 - 2 ^ (i % w)) % 2 ^ w)

pub pow-lt-pow : (k n : ℕ) → k < n → 2 ^ k < 2 ^ n
pow-lt-pow k zero l = absurd (omega arith)
pow-lt-pow zero (suc n) l = omega (arith, pow-suc 2 n, pow-pos n)
pow-lt-pow (suc k) (suc n) l = omega (arith, pow-suc 2 n, pow-suc 2 k, pow-lt-pow k n (omega arith))

-- The test reads the digit.
test-bit : (k x : ℕ) → not (bit_and x (2 ^ k) == 0) ≡ (bit k x == 1)
test-bit k x = ground (arith, bit_and-pow k x, bit-lt k x, pow-pos k)

module _ (w : ℕ) (ws : List ℕ) (i j : ℕ) (pos : 0 < w) (h : i / w < length ws) where
  -- Two entries are one if they stand in the same word at the same digit.
  join : i / w ≡ j / w → i % w ≡ j % w → i ≡ j
  join e f = omega (arith, ap (λ (t : ℕ). w * t) e)

  same_word : (v : ℕ) → i / w ≡ j / w → get_or (set ws (i / w) v) (j / w) 0 ≡ v
  same_word v e = rw (← e) (get_or-set_self ws (i / w) v 0 h)

  old_word : i / w ≡ j / w → get_or ws (i / w) 0 ≡ get_or ws (j / w) 0
  old_word e = ap (λ (t : ℕ). get_or ws t 0) e

  -- Writing word `v` over that of entry `i`, where `v` has digit `d` for entry `i` and the old
  -- digits elsewhere.
  digit-set :
      (v d : ℕ)
      → bit (i % w) v ≡ d
      → ((k : ℕ) → k ≢ i % w → k < w → bit k v ≡ bit k (get_or ws (i / w) 0))
      → bit (j % w) (get_or (set ws (i / w) v) (j / w) 0)
        ≡ (if i == j then d else bit (j % w) (get_or ws (j / w) 0))
  digit-set v d own others = elim (ℕ_discrete (i / w) (j / w)) [
    | yes e ↦ elim (ℕ_discrete (i % w) (j % w)) [
      | yes f ↦
          ap (bit (j % w)) (same_word v e)
          ∙ ap (λ (t : ℕ). bit t v) (sym f)
          ∙ own
          ∙ ground (arith, join e f)
      | no f ↦
          ap (bit (j % w)) (same_word v e)
          ∙ others (j % w) (λ g. f (sym g)) (omega arith)
          ∙ ap (bit (j % w)) (old_word e)
          ∙ ground arith
    ]
    | no e ↦ ap (bit (j % w)) (get_or-set_ne ws (i / w) (j / w) v 0 e) ∙ ground arith
  ]

  slot : i % w < w
  slot = omega arith

  mark_digit :
      (k x : ℕ)
      → k < w
      → bit k (bit_or x (2 ^ (i % w)) % 2 ^ w) ≡ max (bit k x) (bit k (2 ^ (i % w)))
  mark_digit k x l = bit-mod k w _ l ∙ bit-bit_or k x (2 ^ (i % w))

  clear_digit :
      (k x : ℕ)
      → w ≤ 32
      → k < w
      → bit k (bit_and x (2 ^ 32 - 1 - 2 ^ (i % w)) % 2 ^ w)
        ≡ min (bit k x) (1 - bit k (2 ^ (i % w)))
  clear_digit k x small l =
      let below : 2 ^ (i % w) < 2 ^ 32 = pow-lt-pow (i % w) 32 (omega arith) in
      bit-mod k w _ l
      ∙ bit-bit_and k x (2 ^ 32 - 1 - 2 ^ (i % w))
      ∙ ap (λ (t : ℕ). min (bit k x) t) (bit-complement k 32 (2 ^ (i % w)) (omega arith) below)

  old : ℕ
  old = get_or ws (i / w) 0

  -- Marking an entry sets that entry, and leaves every other entry as it was.
  pub test-mark : test w (mark w ws i) j ≡ (if i == j then true else test w ws j)
  unfolding old
  test-mark = ground (
    arith,
    test-bit (j % w) (get_or (mark w ws i) (j / w) 0),
    test-bit (j % w) (get_or ws (j / w) 0),
    digit-set (bit_or old (2 ^ (i % w)) % 2 ^ w) 1
        (mark_digit (i % w) old slot ∙ omega (arith, bit-pow_self (i % w), bit-lt (i % w) old))
        (λ k ne l. mark_digit k old l ∙ omega (arith, bit-pow_ne k (i % w) ne)),
  )

  -- Clearing an entry resets that entry, and leaves every other entry as it was.
  pub test-clear : w ≤ 32 → test w (clear w ws i) j ≡ (if i == j then false else test w ws j)
  unfolding old
  test-clear small = ground (
    arith,
    test-bit (j % w) (get_or (clear w ws i) (j / w) 0),
    test-bit (j % w) (get_or ws (j / w) 0),
    digit-set (bit_and old (2 ^ 32 - 1 - 2 ^ (i % w)) % 2 ^ w) 0
        (clear_digit (i % w) old small slot ∙ omega (arith, bit-pow_self (i % w)))
        (λ k ne l.
          clear_digit k old small l ∙ omega (arith, bit-pow_ne k (i % w) ne, bit-lt k old)),
  )

-- An array of zeros has no entry.
pub test-replicate : (w n i : ℕ) → test w (replicate {A = ℕ} n 0) i ≡ false
test-replicate w n i =
    let e : get_or (replicate {A = ℕ} n 0) (i / w) 0 ≡ 0 = get_or-replicate {A = ℕ} n (i / w) 0 in
    ground (
      arith,
      test-bit (i % w) (get_or (replicate {A = ℕ} n 0) (i / w) 0),
      ap (bit (i % w)) e,
      bit-zero (i % w),
    )
