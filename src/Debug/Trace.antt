-- ===== src/Debug/Trace.antt =====
-- The backtrace along the chain of frames.
use olympos.Prelude.{
  ℕ, zero, suc, ◌+◌, ◌≤◌, true, false, List, [], ◌∷◌, ◌++◌, length, leb, ◌==◌, if◌then◌else◌, u32,
  Memory, ◌≡◌, ◌≢◌, ◌⊎◌, inl, inr, refl, sym, ap, subst, arith, Bool-cases,
}
use olympos.Debug.{
  word_at, Line, stack_backtrace, cyclic, no_frames, too_deep, Debug, max_frames, frame_line,
  backtrace_from, print_backtrace,
}

-- From the frame at one pointer to another over frames with these return addresses.
pub data Walk (m : Memory) : ℕ → List ℕ → ℕ → Type 0 where
  stop : (ptr : ℕ) → Walk m ptr [] ptr
  step :
      (ptr after : ℕ) (addrs : List ℕ)
      → ptr ≢ 0
      → Walk m (word_at m ptr) addrs after
      → Walk m ptr (word_at m (u32 (ptr + 4)) ∷ addrs) after

-- No return address is that of the frame before.
abbrev pub Changes : ℕ → List ℕ → Type 0
Changes prev [] = zero ≡ zero
Changes prev (a ∷ addrs) = (a ≢ prev) × Changes a addrs

abbrev pub last_of : ℕ → List ℕ → ℕ
last_of prev [] = prev
last_of prev (a ∷ addrs) = last_of a addrs

-- The lines of the frames, numbered from `count` on, before the lines at the end.
abbrev pub frame_lines : Memory → Debug → ℕ → List ℕ → List Line → List Line
frame_lines m d count [] tail = tail
frame_lines m d count (a ∷ addrs) tail =
    frame_line m d count a ∷ frame_lines m d (count + 1) addrs tail

-- The frames behind what the loop gives, and why it stopped: at the end of the chain, at the limit,
-- or at a return address that repeats.
pub record Traced (m : Memory) (d : Debug) (n ptr prev count : ℕ) (result : ℕ × List Line)
    : Type 0 where
  pub addrs : List ℕ
  pub after : ℕ
  pub tail : List Line
  pub walk : Walk m ptr addrs after
  pub changes : Changes prev addrs
  pub limit : length addrs ≤ n
  pub counted : result.0 ≡ count + length addrs
  pub lines : result.1 ≡ frame_lines m d count addrs tail
  pub ends :
      ((after ≡ 0) × (tail ≡ []))
      ⊎ ((length addrs ≡ n) × (tail ≡ []))
      ⊎ ((after ≢ 0) × (word_at m (u32 (after + 4)) ≡ last_of prev addrs) × (tail ≡ cyclic ∷ []))

module _ (m : Memory) (d : Debug) (n ptr prev count : ℕ) where
  ends_chain : ptr ≡ 0 → backtrace_from m d (suc n) ptr prev count ≡ (count, [])
  unfolding backtrace_from
  ends_chain e = let z : (ptr == 0) ≡ true = ground arith in rw z refl

  module _ (nz : ptr ≢ 0) where
    ends_cycle :
        word_at m (u32 (ptr + 4)) == prev ≡ true
        → backtrace_from m d (suc n) ptr prev count ≡ (count, cyclic ∷ [])
    unfolding backtrace_from
    ends_cycle e = let z : (ptr == 0) ≡ false = ground arith in rw (z, e) refl

    goes_on :
        word_at m (u32 (ptr + 4)) == prev ≡ false
        → let rest = backtrace_from m d n (word_at m ptr) (word_at m (u32 (ptr + 4))) (count + 1) in
          backtrace_from m d (suc n) ptr prev count
          ≡ (rest.0, frame_line m d count (word_at m (u32 (ptr + 4))) ∷ rest.1)
    unfolding backtrace_from
    goes_on e = let z : (ptr == 0) ≡ false = ground arith in rw (z, e) refl

backtrace_from-Traced :
    (m : Memory) (d : Debug) (n ptr prev count : ℕ)
    → Traced m d n ptr prev count (backtrace_from m d n ptr prev count)
unfolding backtrace_from
backtrace_from-Traced m d zero ptr prev count = record {
  addrs = [];
  after = ptr;
  tail = [];
  walk = stop ptr;
  changes = refl;
  limit = omega arith;
  counted = omega arith;
  lines = refl;
  ends = inr (inl (refl, refl));
}
backtrace_from-Traced m d (suc n) ptr prev count = elim (Bool-cases (ptr == 0)) [
  | inl z ↦
      subst (Traced m d (suc n) ptr prev count)
        (sym (ends_chain m d n ptr prev count (ground arith)))
        (record {
          addrs = [];
          after = ptr;
          tail = [];
          walk = stop ptr;
          changes = refl;
          limit = omega arith;
          counted = omega arith;
          lines = refl;
          ends = inl (ground arith, refl);
        })
  | inr z ↦
      let nz : ptr ≢ 0 = ground arith in
      let a = word_at m (u32 (ptr + 4)) in
      elim (Bool-cases (a == prev)) [
        | inl e ↦
            subst (Traced m d (suc n) ptr prev count) (sym (ends_cycle m d n ptr prev count nz e))
              (record {
                addrs = [];
                after = ptr;
                tail = cyclic ∷ [];
                walk = stop ptr;
                changes = refl;
                limit = omega arith;
                counted = omega arith;
                lines = refl;
                ends = inr (inr (nz, ground arith, refl));
              })
        | inr e ↦
            let rest = backtrace_from-Traced m d n (word_at m ptr) a (count + 1) in
            subst (Traced m d (suc n) ptr prev count) (sym (goes_on m d n ptr prev count nz e))
              (record {
                addrs = a ∷ rest.addrs;
                after = rest.after;
                tail = rest.tail;
                walk = step ptr rest.after rest.addrs nz rest.walk;
                changes = (ground arith, rest.changes);
                limit = omega (arith, rest.limit);
                counted = omega (arith, rest.counted);
                lines = ap (λ ls. frame_line m d count a ∷ ls) rest.lines;
                ends = elim rest.ends [
                  | inl q ↦ inl q
                  | inr (inl q) ↦ inr (inl (omega (arith, q.0), q.1))
                  | inr (inr q) ↦ inr (inr q)
                ];
              })
      ]
]

abbrev pub last_line : ℕ → List Line
last_line zero = no_frames ∷ []
last_line (suc n) = if leb max_frames (suc n) then too_deep ∷ [] else []

-- In any memory, whatever its frames point to, `print_backtrace` ends: it prints one line for each frame of a walk along the
-- chain from `ebp`, at most 32 and none with the return address of the frame before, and stops at the
-- end of the chain, at 32 frames or at a return address that repeats.
pub print_backtrace-Traced :
    (m : Memory) (ebp : ℕ) (d : Debug)
    → let trace = backtrace_from m d max_frames ebp 0 0 in
      Traced m d max_frames ebp 0 0 trace
      × (print_backtrace m ebp d ≡ stack_backtrace ∷ trace.1 ++ last_line trace.0)
unfolding print_backtrace
print_backtrace-Traced m ebp d =
    let t = backtrace_from-Traced m d max_frames ebp 0 0 in
    (
      t,
      ap (λ ls. stack_backtrace ∷ (backtrace_from m d max_frames ebp 0 0).1 ++ ls)
          (last_lem (backtrace_from m d max_frames ebp 0 0).0),
    )
  where
    last_lem :
        (n : ℕ)
        → (if n == 0 then no_frames ∷ [] else if leb max_frames n then too_deep ∷ [] else [])
          ≡ last_line n
    last_lem zero = refl
    last_lem (suc n) = let z : (suc n == 0) ≡ false = ground arith in rw z refl
