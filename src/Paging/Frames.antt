-- ===== src/Paging/Frames.antt =====
-- The frame allocator: first fit over the bitmap, and its inverse.
use olympos.Prelude.{
  ℕ, zero, suc, ◌+◌, ◌-◌, ◌*◌, ◌/◌, ◌≤◌, ◌<◌, true, false, if◌then◌else◌, ◌==◌, ltb, leb, ◌&&◌,
  ◌||◌, Option, none, some, List, length, replicate, ◌≡◌, ◌⊎◌, inl, inr, sym, ap, ◌∙◌, subst, arith,
  u32, length-set, length-replicate, Bool-cases, Option-cases,
}
use native.Mathlib.Decide.{ℕ_discrete}
use olympos.Bitmap.{test-mark, test-clear, test-replicate}
use olympos.Paging.{
  frame_size, num_frames, Paging, frame_test, frame_set, frame_clear, set_frames, frame_bitmap_init,
  first_free, frame_alloc, frame_free,
}

abbrev pub bitmap_words : ℕ
bitmap_words = num_frames / 32

frame_test-frame_set :
    (bm : List ℕ) (i k : ℕ)
    → length bm ≡ bitmap_words
    → i < num_frames
    → frame_test (frame_set bm i) k ≡ (if i == k then true else frame_test bm k)
unfolding frame_test frame_set
frame_test-frame_set bm i k size h = test-mark 32 bm i k (omega arith) (omega arith)

frame_test-frame_clear :
    (bm : List ℕ) (i k : ℕ)
    → length bm ≡ bitmap_words
    → i < num_frames
    → frame_test (frame_clear bm i) k ≡ (if i == k then false else frame_test bm k)
unfolding frame_test frame_clear
frame_test-frame_clear bm i k size h =
    test-clear 32 bm i k (omega arith) (omega arith) (omega arith)

length-frame_set : (bm : List ℕ) (i : ℕ) → length (frame_set bm i) ≡ length bm
unfolding frame_set
length-frame_set bm i = length-set bm (i / 32) _

-- The scan of `n` frames from `i` on returns the first free one, or none because all are used.
abbrev FirstFree : ℕ → ℕ → List ℕ → Option ℕ → Type 0
FirstFree n i bm none = (k : ℕ) → i ≤ k → k < i + n → frame_test bm k ≡ true
FirstFree n i bm (some j) =
    (i ≤ j)
    × (j < i + n)
    × (frame_test bm j ≡ false)
    × ((k : ℕ) → i ≤ k → k < j → frame_test bm k ≡ true)

skip_frame :
    (n i : ℕ) (bm : List ℕ) (o : Option ℕ)
    → frame_test bm i ≡ true
    → FirstFree n (i + 1) bm o
    → FirstFree (suc n) i bm o
skip_frame n i bm none used rest = λ k p q. elim (ℕ_discrete i k) [
  | yes e ↦ ap (frame_test bm) (sym e) ∙ used
  | no ne ↦ rest k (omega arith) (omega arith)
]
skip_frame n i bm (some j) used rest = (
  omega (arith, rest.0),
  omega (arith, rest.1),
  rest.2,
  λ k p q. elim (ℕ_discrete i k) [
    | yes e ↦ ap (frame_test bm) (sym e) ∙ used
    | no ne ↦ rest.3 k (omega arith) q
  ],
)

module _ (n i : ℕ) (bm : List ℕ) where
  first_free_used : frame_test bm i ≡ true → first_free (suc n) i bm ≡ first_free n (i + 1) bm
  unfolding first_free
  first_free_used e = ground arith

  first_free_free : frame_test bm i ≡ false → first_free (suc n) i bm ≡ some i
  unfolding first_free
  first_free_free e = ground arith

first_free-FirstFree : (n i : ℕ) (bm : List ℕ) → FirstFree n i bm (first_free n i bm)
first_free-FirstFree zero i bm = unfold first_free in λ k p q. absurd (omega arith)
first_free-FirstFree (suc n) i bm = elim (Bool-cases (frame_test bm i)) [
  | inl used ↦
      subst (FirstFree (suc n) i bm) (sym (first_free_used n i bm used))
        (skip_frame n i bm _ used (first_free-FirstFree n (i + 1) bm))
  | inr free ↦
      subst (FirstFree (suc n) i bm) (sym (first_free_free n i bm free))
        (omega arith, omega arith, free, λ k p q. absurd (omega arith))
]

module _ (s : Paging) where
  alloc_fails : first_free num_frames 0 s.frame_bitmap ≡ none → frame_alloc s ≡ (0, s)
  unfolding frame_alloc
  alloc_fails e = ground arith

  alloc_takes :
      (j : ℕ)
      → first_free num_frames 0 s.frame_bitmap ≡ some j
      → frame_alloc s ≡ (j * frame_size, record s { frame_bitmap = frame_set s.frame_bitmap j })
  unfolding frame_alloc
  alloc_takes j e = ground arith

-- `result` hands out the first free frame of `s`, and marks it and no other.
pub record TakesFrame (s : Paging) (result : ℕ × Paging) : Type 0 where
  pub frame : ℕ
  pub after : List ℕ
  pub returns : result ≡ (frame * frame_size, record s { frame_bitmap = after })
  pub in_memory : frame < num_frames
  pub free : frame_test s.frame_bitmap frame ≡ false
  pub first : (k : ℕ) → k < frame → frame_test s.frame_bitmap k ≡ true
  pub size : length after ≡ bitmap_words
  pub marks :
      (k : ℕ) → frame_test after k ≡ (if frame == k then true else frame_test s.frame_bitmap k)

-- All frames are used; the result is 0 and the same state.
abbrev pub OutOfFrames : Paging → ℕ × Paging → Type 0
OutOfFrames s result =
    ((k : ℕ) → k < num_frames → frame_test s.frame_bitmap k ≡ true) × (result ≡ (0, s))

-- On a bitmap of the right size `frame_alloc` returns the address of the first free frame and marks
-- just that one, or returns 0 because no frame is free.
pub frame_alloc_lem :
    (s : Paging)
    → length s.frame_bitmap ≡ bitmap_words
    → TakesFrame s (frame_alloc s) ⊎ OutOfFrames s (frame_alloc s)
frame_alloc_lem s size =
    let found = first_free-FirstFree num_frames 0 s.frame_bitmap in
    elim (Option-cases (first_free num_frames 0 s.frame_bitmap)) [
      | inl e ↦
          let all : FirstFree num_frames 0 s.frame_bitmap none = rw e at found in
          inr (λ k l. all k (omega arith) (omega arith), alloc_fails s e)
      | inr (j, e) ↦
          let at : FirstFree num_frames 0 s.frame_bitmap (some j) = rw e at found in
          inl (record {
            frame = j;
            after = frame_set s.frame_bitmap j;
            returns = alloc_takes s j e;
            in_memory = omega (arith, at.1);
            free = at.2;
            first = λ k l. at.3 k (omega arith) l;
            size = length-frame_set s.frame_bitmap j ∙ size;
            marks = λ k. frame_test-frame_set s.frame_bitmap j k size (omega (arith, at.1));
          })
    ]

free_taken :
    (s : Paging) (j : ℕ) (after : List ℕ) (k : ℕ)
    → j < num_frames
    → length after ≡ bitmap_words
    → frame_test s.frame_bitmap j ≡ false
    → frame_test after k ≡ (if j == k then true else frame_test s.frame_bitmap k)
    → frame_test (frame_free (j * frame_size) (record s { frame_bitmap = after })).frame_bitmap k
      ≡ frame_test s.frame_bitmap k
unfolding frame_free
free_taken s j after k h size free marks =
    ground (arith, quotient, frame_test-frame_clear after j k size h, at_k)
  where
    quotient : j * frame_size / frame_size ≡ j
    quotient = omega arith

    at_k : j ≡ k → frame_test s.frame_bitmap k ≡ false
    at_k e = ap (frame_test s.frame_bitmap) (sym e) ∙ free

-- With a free frame left in a bitmap of the right size, freeing the frame that `frame_alloc` gave
-- makes every frame what it was before.
pub frame_free-frame_alloc :
    (s : Paging)
    → length s.frame_bitmap ≡ bitmap_words
    → (f : ℕ) → f < num_frames
    → frame_test s.frame_bitmap f ≡ false
    → (k : ℕ)
    → let (addr, after) = frame_alloc s in
      frame_test (frame_free addr after).frame_bitmap k ≡ frame_test s.frame_bitmap k
frame_free-frame_alloc s size f f_in f_free k = elim (frame_alloc_lem s size) [
  | inr out ↦ absurd (cc (f_free, out.0 f f_in))
  | inl t ↦
      subst
        (λ (r : ℕ × Paging).
          frame_test (frame_free r.0 r.1).frame_bitmap k ≡ frame_test s.frame_bitmap k)
        (sym t.returns) (free_taken s t.frame t.after k t.in_memory t.size t.free (t.marks k))
]

-- What the initialisation marks: the `n` frames from `i` on.
set_frames_lem :
    (n i : ℕ) (bm : List ℕ)
    → length bm ≡ bitmap_words
    → i + n ≤ num_frames
    → (length (set_frames n i bm) ≡ bitmap_words)
      × ((k : ℕ) → frame_test (set_frames n i bm) k ≡ (leb i k && ltb k (i + n) || frame_test bm k))
unfolding set_frames
set_frames_lem zero i bm size h = (size, λ k. ground arith)
set_frames_lem (suc n) i bm size h =
    let r =
      set_frames_lem n (i + 1) (frame_set bm i) (length-frame_set bm i ∙ size) (omega arith) in
    (r.0, λ k. ground (arith, r.1 k, frame_test-frame_set bm i k size))

no_frames : (n k : ℕ) → frame_test (replicate {A = ℕ} n 0) k ≡ false
unfolding frame_test
no_frames n k = test-replicate 32 n k

-- After `frame_bitmap_init` the bitmap has its size and just the frames below the kernel's end are
-- used, where the kernel ends within the memory of the frames.
pub frame_bitmap_init_lem :
    (elf_sections_end : ℕ) (s : Paging)
    → elf_sections_end ≤ num_frames * frame_size
    → (length (frame_bitmap_init elf_sections_end s).frame_bitmap ≡ bitmap_words)
      × ((k : ℕ)
          → frame_test (frame_bitmap_init elf_sections_end s).frame_bitmap k
            ≡ ltb (k * frame_size) elf_sections_end)
unfolding frame_bitmap_init
frame_bitmap_init_lem elf_sections_end s h =
    let n : ℕ = u32 (elf_sections_end + frame_size - 1) / frame_size in
    let r =
      set_frames_lem n 0 (replicate {A = ℕ} bitmap_words 0)
        (length-replicate {A = ℕ} bitmap_words 0) (omega arith) in
    (r.0, λ k. ground (arith, r.1 k, no_frames bitmap_words k))
