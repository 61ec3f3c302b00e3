-- ===== src/Libc/Itoa/Reverse.antt =====
-- The swapping loop of `itoa` reverses its string.
use mathlib.Core.List.{reverse, reverse-append}
use olympos.Prelude.{
  ℕ, zero, suc, ◌+◌, ◌-◌, ◌≤◌, ◌<◌, ◌&&◌, List, [], ◌∷◌, ◌++◌, length, get_or, set, ltb, leb, ◌==◌,
  if◌then◌else◌, ◌≡◌, refl, sym, ap, ap₂, ◌∙◌, arith, length-set, get_or-set_self, get_or-set_ne,
  length-append,
}
use native.Mathlib.Decide.{dec_lt, ℕ_discrete}
use olympos.Libc.Itoa.{swap_ends}

swap : ℕ → ℕ → List ℕ → List ℕ
swap lo hi str = set (set str hi (get_or str lo 0)) lo (get_or str hi 0)

length-swap : (lo hi : ℕ) (str : List ℕ) → length (swap lo hi str) ≡ length str
unfolding swap
length-swap lo hi str = length-set (set str hi (get_or str lo 0)) lo _ ∙ length-set str hi _

get_or-swap :
    (lo hi k : ℕ) (str : List ℕ)
    → lo < hi
    → hi < length str
    → get_or (swap lo hi str) k 0
      ≡ (if k == lo then get_or str hi 0 else if k == hi then get_or str lo 0 else get_or str k 0)
unfolding swap
get_or-swap lo hi k str l h = elim (ℕ_discrete lo k) [
  | yes e ↦
      ap (λ (j : ℕ). get_or (set (set str hi (get_or str lo 0)) lo (get_or str hi 0)) j 0) (sym e)
      ∙ get_or-set_self (set str hi (get_or str lo 0)) lo (get_or str hi 0) 0
          (omega (arith, length-set str hi (get_or str lo 0)))
      ∙ ground arith
  | no ne ↦ elim (ℕ_discrete hi k) [
    | yes e ↦
        get_or-set_ne (set str hi (get_or str lo 0)) lo k (get_or str hi 0) 0 ne
        ∙ ap (λ (j : ℕ). get_or (set str hi (get_or str lo 0)) j 0) (sym e)
        ∙ get_or-set_self str hi (get_or str lo 0) 0 h
        ∙ ground arith
    | no nf ↦
        get_or-set_ne (set str hi (get_or str lo 0)) lo k (get_or str hi 0) 0 ne
        ∙ get_or-set_ne str hi k (get_or str lo 0) 0 nf
        ∙ ground arith
  ]
]

-- What stands at `k` after the part from `lo` to `hi` is mirrored.
abbrev mirrored : ℕ → ℕ → List ℕ → ℕ → ℕ
mirrored lo hi str k = if leb lo k && leb k hi then get_or str (lo + hi - k) 0 else get_or str k 0

at_index : (str : List ℕ) (i j : ℕ) → i ≡ j → get_or str i 0 ≡ get_or str j 0
at_index str i j e = ap (λ (t : ℕ). get_or str t 0) e

mirrored_small : (lo hi k : ℕ) (str : List ℕ) → hi ≤ lo → get_or str k 0 ≡ mirrored lo hi str k
mirrored_small lo hi k str h = ground (arith, at_index str (lo + hi - k) k)

mirrored-swap :
    (lo hi k : ℕ) (str : List ℕ)
    → lo < hi
    → hi < length str
    → mirrored (lo + 1) (hi - 1) (swap lo hi str) k ≡ mirrored lo hi str k
mirrored-swap lo hi k str l h =
    let e : lo + 1 + (hi - 1) - k ≡ lo + hi - k = omega arith in
    ground (
      arith,
      at_index (swap lo hi str) (lo + 1 + (hi - 1) - k) (lo + hi - k) e,
      get_or-swap lo hi k str l h,
      get_or-swap lo hi (lo + hi - k) str l h,
      at_index str hi (lo + hi - k),
      at_index str lo (lo + hi - k),
    )

module _ (fuel lo hi : ℕ) (str : List ℕ) where
  swap_step :
      lo < hi → swap_ends (suc fuel) lo hi str ≡ swap_ends fuel (lo + 1) (hi - 1) (swap lo hi str)
  unfolding swap_ends swap
  swap_step l = ground arith

  swap_stop : hi ≤ lo → swap_ends (suc fuel) lo hi str ≡ str
  unfolding swap_ends
  swap_stop l = ground arith

-- The loop mirrors the part from `lo` to `hi`.
swap_ends_lem :
    (fuel lo hi : ℕ) (str : List ℕ)
    → hi ≤ lo + fuel
    → hi < length str
    → (length (swap_ends fuel lo hi str) ≡ length str)
      × ((k : ℕ) → get_or (swap_ends fuel lo hi str) k 0 ≡ mirrored lo hi str k)
swap_ends_lem zero lo hi str enough h =
    unfold swap_ends in (refl, λ k. mirrored_small lo hi k str (omega arith))
swap_ends_lem (suc fuel) lo hi str enough h = elim (dec_lt lo hi) [
  | yes l ↦
      let e = swap_step fuel lo hi str l in
      let r =
        swap_ends_lem fuel (lo + 1) (hi - 1) (swap lo hi str) (omega arith)
          (omega (arith, length-swap lo hi str)) in
      (
        ap length e ∙ r.0 ∙ length-swap lo hi str,
        λ k. ap (λ (t : List ℕ). get_or t k 0) e ∙ r.1 k ∙ mirrored-swap lo hi k str l h,
      )
  | no l ↦
      let e = swap_stop fuel lo hi str (omega arith) in
      (
        ap length e,
        λ k. ap (λ (t : List ℕ). get_or t k 0) e ∙ mirrored_small lo hi k str (omega arith),
      )
]

get_or_ext :
    (xs ys : List ℕ)
    → length xs ≡ length ys
    → ((k : ℕ) → k < length xs → get_or xs k 0 ≡ get_or ys k 0)
    → xs ≡ ys
get_or_ext [] [] e h = refl
get_or_ext [] (y ∷ ys) e h = absurd (omega arith)
get_or_ext (x ∷ xs) [] e h = absurd (omega arith)
get_or_ext (x ∷ xs) (y ∷ ys) e h =
    ap₂ ◌∷◌ (h 0 (omega arith)) (get_or_ext xs ys (omega arith) (λ k l. h (suc k) (omega arith)))

pub length-reverse : (xs : List ℕ) → length (reverse xs) ≡ length xs
length-reverse [] = refl
length-reverse (x ∷ xs) =
    ap length (reverse-append (x ∷ []) xs)
    ∙ length-append (reverse xs) (x ∷ [])
    ∙ omega (arith, length-reverse xs)

get_or-append :
    (xs ys : List ℕ) (k : ℕ)
    → get_or (xs ++ ys) k 0
      ≡ (if ltb k (length xs) then get_or xs k 0 else get_or ys (k - length xs) 0)
get_or-append [] ys k = ground (arith, at_index ys (k - 0) k)
get_or-append (x ∷ xs) ys zero = ground arith
get_or-append (x ∷ xs) ys (suc k) =
    get_or-append xs ys k ∙ ground (arith, at_index ys (k - length xs) (suc k - suc (length xs)))

get_or-reverse :
    (xs : List ℕ) (k : ℕ)
    → k < length xs
    → get_or (reverse xs) k 0 ≡ get_or xs (length xs - 1 - k) 0
get_or-reverse [] k h = absurd (omega arith)
get_or-reverse (x ∷ xs) k h =
    let e =
      ap (λ (t : List ℕ). get_or t k 0) (reverse-append (x ∷ []) xs)
      ∙ get_or-append (reverse xs) (x ∷ []) k in
    elim (dec_lt k (length xs)) [
      | yes l ↦
          let f : length xs - k ≡ suc (length xs - 1 - k) = omega arith in
          e
          ∙ ground (arith, length-reverse xs)
          ∙ get_or-reverse xs k l
          ∙ sym (at_index (x ∷ xs) (length xs - k) (suc (length xs - 1 - k)) f)
          ∙ at_index (x ∷ xs) (length xs - k) (length (x ∷ xs) - 1 - k) (omega arith)
      | no l ↦
          let f : k ≡ length xs = omega arith in
          e
          ∙ ground (
            arith,
            length-reverse xs,
            at_index (x ∷ []) (k - length (reverse xs)) 0 (omega (arith, length-reverse xs)),
          )
          ∙ sym (at_index (x ∷ xs) (length (x ∷ xs) - 1 - k) 0 (omega arith))
    ]

-- The string that `itoa` leaves is the reverse of what its first loop wrote.
pub swap_ends-reverse : (str : List ℕ) → swap_ends (length str) 0 (length str - 1) str ≡ reverse str
swap_ends-reverse [] = unfold swap_ends in refl
swap_ends-reverse (x ∷ xs) =
    let r =
      swap_ends_lem (length (x ∷ xs)) 0 (length (x ∷ xs) - 1) (x ∷ xs) (omega arith)
        (omega arith) in
    get_or_ext _ _ (r.0 ∙ sym (length-reverse (x ∷ xs))) (λ k l.
      r.1 k
      ∙ ground (
        arith,
        r.0,
        at_index (x ∷ xs) (0 + (length (x ∷ xs) - 1) - k) (length (x ∷ xs) - 1 - k) (omega arith),
        get_or-reverse (x ∷ xs) k (omega (arith, r.0)),
      ))

pub length-swap_ends :
    (str : List ℕ) → length (swap_ends (length str) 0 (length str - 1) str) ≡ length str
length-swap_ends str = ap length (swap_ends-reverse str) ∙ length-reverse str
