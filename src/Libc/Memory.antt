-- ===== src/Libc/Memory.antt =====
-- libc/string/memcpy.c, memmove.c, memset.c and memcmp.c, over a memory of bytes. A pointer is its
-- address; the functions return the memory that they leave, beside the destination pointer.
pub mod Copy
pub mod Compare
use olympos.Prelude.{
  ℕ, zero, suc, ◌+◌, ◌-◌, ◌%◌, ◌^◌, Bool, true, false, ltb, if◌then◌else◌, u8, Memory, store, ℤ,
  pos, negsuc,
}

-- `for (i = i0; i < size; i++) dst[i] = src[i]`, with `n` rounds left.
pub copy_up : ℕ → ℕ → ℕ → ℕ → Memory → Memory
copy_up dst src zero i m = m
copy_up dst src (suc n) i m = copy_up dst src n (i + 1) (store m (dst + i) (m (src + i)))

-- `for (i = n; i != 0; i--) dst[i - 1] = src[i - 1]`.
pub copy_down : ℕ → ℕ → ℕ → Memory → Memory
copy_down dst src zero m = m
copy_down dst src (suc i) m = copy_down dst src i (store m (dst + i) (m (src + i)))

pub memcpy : ℕ → ℕ → ℕ → Memory → ℕ × Memory
memcpy dst src size m = (dst, copy_up dst src size 0 m)

pub memmove : ℕ → ℕ → ℕ → Memory → ℕ × Memory
memmove dst src size m =
    if ltb dst src then (dst, copy_up dst src size 0 m) else (dst, copy_down dst src size m)

-- The value is an `int`, of which the low byte is written.
pub fill : ℕ → ℕ → ℕ → ℕ → Memory → Memory
fill buf value zero i m = m
fill buf value (suc n) i m = fill buf value n (i + 1) (store m (buf + i) (u8 value))

pub memset : ℕ → ℕ → ℕ → Memory → ℕ × Memory
memset buf value size m = (buf, fill buf value size 0 m)

pub compare_from : ℕ → ℕ → ℕ → ℕ → Memory → ℤ
compare_from a b zero i m = pos 0
compare_from a b (suc n) i m =
    let rest = compare_from a b n (i + 1) m in
    if ltb (m (a + i)) (m (b + i))
    then negsuc 0
    else if ltb (m (b + i)) (m (a + i))
    then pos 1
    else rest

pub memcmp : ℕ → ℕ → ℕ → Memory → ℤ
memcmp a b size m = compare_from a b size 0 m
