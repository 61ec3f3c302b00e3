-- ===== src/Libc/Strings.antt =====
-- libc/string/strlen.c, strcmp.c, strchr.c, strspn.c, strcspn.c and strtok.c, over a memory of
-- bytes. A pointer is its address, 0 being NULL. Each `while` loop takes fuel; `none` means that
-- the fuel ran out before the loop met the end of its string.
pub mod Text
pub mod Scan
pub mod Tokens
use olympos.Prelude.{
  ℕ, zero, suc, ◌+◌, ◌-◌, ◌%◌, ◌^◌, Bool, true, false, not, ◌&&◌, ◌||◌, Option, none, some, ltb,
  ◌==◌, if◌then◌else◌, u8, Memory, store, ℤ, pos, negsuc,
}

infixl 5 ◌>>=◌
abbrev pub ◌>>=◌ {ℓ κ} : {A : Type ℓ} {B : Type κ} → Option A → (A → Option B) → Option B
none >>= f = none
some a >>= f = f a

pub strlen_from : ℕ → Memory → ℕ → ℕ → Option ℕ
strlen_from zero m str len = none
strlen_from (suc fuel) m str len =
    let rest = strlen_from fuel m str (len + 1) in if m (str + len) == 0 then some len else rest

pub strlen : ℕ → Memory → ℕ → Option ℕ
strlen fuel m str = strlen_from fuel m str 0

-- `x - y` of two bytes, as an `int`.
abbrev pub byte_difference : ℕ → ℕ → ℤ
byte_difference x y = if ltb x y then negsuc (y - x - 1) else pos (x - y)

unfoldable pub strcmp : ℕ → Memory → ℕ → ℕ → Option ℤ
strcmp zero m s1 s2 = none
strcmp (suc fuel) m s1 s2 =
    let rest = strcmp fuel m (s1 + 1) (s2 + 1) in
    if not (m s1 == 0) && (m s1 == m s2) then rest else some (byte_difference (m s1) (m s2))

-- The character is an `int`, given by its 32 bits.
pub strchr : ℕ → Memory → ℕ → ℕ → Option ℕ
strchr zero m str c = none
strchr (suc fuel) m str c =
    let rest = strchr fuel m (str + 1) c in
    if m str == 0
    then some (if c == 0 then str else 0)
    else if m str == u8 c
    then some str
    else rest

-- The loop of `strspn`, from `s` on, and its result `s - str`. Each call of `strchr` has the fuel
-- `f`.
pub span_from : ℕ → ℕ → Memory → ℕ → ℕ → ℕ → Option ℕ
span_from f zero m str s accept = none
span_from f (suc fuel) m str s accept =
    let rest = span_from f fuel m str (s + 1) accept in
    if m s == 0
    then some (s - str)
    else (strchr f m accept (m s) >>= λ found. if found == 0 then some (s - str) else rest)

pub strspn : ℕ → Memory → ℕ → ℕ → Option ℕ
strspn fuel m str accept = span_from fuel fuel m str str accept

pub cspan_from : ℕ → ℕ → Memory → ℕ → ℕ → ℕ → Option ℕ
cspan_from f zero m str s reject = none
cspan_from f (suc fuel) m str s reject =
    let rest = cspan_from f fuel m str (s + 1) reject in
    if m s == 0
    then some (s - str)
    else (strchr f m reject (m s) >>= λ found. if found == 0 then rest else some (s - str))

pub strcspn : ℕ → Memory → ℕ → ℕ → Option ℕ
strcspn fuel m str reject = cspan_from fuel fuel m str str reject

-- The static variable of `strtok`, and the memory that it writes.
pub record Strtok : Type 0 where
  pub last : ℕ
  pub memory : Memory

-- `strtok` from the end of the token on.
pub end_token : ℕ → ℕ → Strtok → ℕ × Strtok
end_token token str st =
    if st.memory str == 0
    then (token, record st { last = 0 })
    else (token, record { last = str + 1; memory = store st.memory str 0 })

-- `strtok` from the start of the token on.
pub take_token : ℕ → ℕ → ℕ → Strtok → Option (ℕ × Strtok)
take_token fuel str delim st =
    if st.memory str == 0
    then some (0, record st { last = 0 })
    else (strcspn fuel st.memory str delim >>= λ n. some (end_token str (str + n) st))

pub strtok : ℕ → ℕ → ℕ → Strtok → Option (ℕ × Strtok)
strtok fuel str delim st =
    let start = if str == 0 then st.last else str in
    if start == 0
    then some (0, st)
    else (strspn fuel st.memory start delim >>= λ n. take_token fuel (start + n) delim st)
