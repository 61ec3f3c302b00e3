-- ===== src/Libc/Memory/Copy.antt =====
-- Copying and filling, against what they leave at each address.
use olympos.Prelude.{
  ℕ, zero, suc, ◌+◌, ◌-◌, ◌%◌, ◌≤◌, Bool, ◌&&◌, ltb, leb, if◌then◌else◌, ◌≡◌, ◌⊎◌, inl, inr, ◌∙◌,
  arith, u8, Memory, store, ap,
}
use native.Mathlib.Decide.{dec_lt}
use olympos.Libc.Memory.{copy_up, copy_down, memcpy, memmove, fill, memset}

-- The address lies among the `n` bytes from `p` on.
abbrev pub inside : ℕ → ℕ → ℕ → Bool
inside p n a = leb p a && ltb a (p + n)

copy_up_lem :
    (dst src n i : ℕ) (m : Memory) (a : ℕ)
    → (dst ≤ src) ⊎ (src + i + n ≤ dst + i)
    → copy_up dst src n i m a ≡ (if inside (dst + i) n a then m (src + (a - dst)) else m a)
unfolding copy_up
copy_up_lem dst src zero i m a h = ground arith
copy_up_lem dst src (suc n) i m a h =
    copy_up_lem dst src n (i + 1) (store m (dst + i) (m (src + i))) a (shift h) ∙ ground (arith, at)
  where
    shift :
        (dst ≤ src) ⊎ (src + i + suc n ≤ dst + i)
        → (dst ≤ src) ⊎ (src + (i + 1) + n ≤ dst + (i + 1))
    shift (inl l) = inl l
    shift (inr l) = inr (omega arith)

    at : a ≡ dst + i → m (src + (a - dst)) ≡ m (src + i)
    at e = ap m (omega arith)

copy_down_lem :
    (dst src n : ℕ) (m : Memory) (a : ℕ)
    → src ≤ dst
    → copy_down dst src n m a ≡ (if inside dst n a then m (src + (a - dst)) else m a)
unfolding copy_down
copy_down_lem dst src zero m a h = ground arith
copy_down_lem dst src (suc n) m a h =
    copy_down_lem dst src n (store m (dst + n) (m (src + n))) a h ∙ ground (arith, at)
  where
    at : a ≡ dst + n → m (src + (a - dst)) ≡ m (src + n)
    at e = ap m (omega arith)

-- `memmove` leaves the old bytes of the source in the destination, however the two overlap, leaves
-- every other byte alone, and returns the destination.
pub memmove_lem :
    (dst src size : ℕ) (m : Memory) (a : ℕ)
    → ((memmove dst src size m).1 a ≡ (if inside dst size a then m (src + (a - dst)) else m a))
      × ((memmove dst src size m).0 ≡ dst)
unfolding memmove
memmove_lem dst src size m a = elim (dec_lt dst src) [
  | yes p ↦ ground (arith, copy_up_lem dst src size 0 m a (inl (omega arith)))
  | no p ↦ ground (arith, copy_down_lem dst src size m a (omega arith))
]

-- Where source and destination do not overlap `memcpy` does what `memmove` does.
pub memcpy-memmove :
    (dst src size : ℕ) (m : Memory) (a : ℕ)
    → (dst + size ≤ src) ⊎ (src + size ≤ dst)
    → (memcpy dst src size m).1 a ≡ (memmove dst src size m).1 a
unfolding memcpy
memcpy-memmove dst src size m a h =
    copy_up_lem dst src size 0 m a (apart h) ∙ ground (arith, (memmove_lem dst src size m a).0)
  where
    apart : (dst + size ≤ src) ⊎ (src + size ≤ dst) → (dst ≤ src) ⊎ (src + 0 + size ≤ dst + 0)
    apart (inl l) = inl (omega arith)
    apart (inr l) = inr (omega arith)

fill_lem :
    (buf value n i : ℕ) (m : Memory) (a : ℕ)
    → fill buf value n i m a ≡ (if inside (buf + i) n a then u8 value else m a)
unfolding fill
fill_lem buf value zero i m a = ground arith
fill_lem buf value (suc n) i m a =
    fill_lem buf value n (i + 1) (store m (buf + i) (u8 value)) a ∙ ground arith

-- `memset` writes the low byte of the value to the `size` bytes of the buffer, and to no other.
pub memset_lem :
    (buf value size : ℕ) (m : Memory) (a : ℕ)
    → (memset buf value size m).1 a ≡ (if inside buf size a then value % 256 else m a)
unfolding memset
memset_lem buf value size m a = ground (arith, fill_lem buf value size 0 m a)
