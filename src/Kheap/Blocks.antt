-- ===== src/Kheap/Blocks.antt =====
-- What marking and freeing do to the blocks of the heap bitmap, one block and a run of blocks.
use olympos.Prelude.{
  ℕ, zero, suc, ◌+◌, ◌/◌, ◌≤◌, ◌<◌, Bool, true, false, ◌&&◌, Option, some, List, length, ltb, leb,
  if◌then◌else◌, ◌≡◌, refl, ◌∙◌, arith, length-set,
}
use olympos.Bitmap
use olympos.Bitmap.{test-mark, test-clear}
use olympos.Kheap.{
  heap_blocks_max, bitmap_size, is_block_used, write_bitmap, mark_block_used, mark_block_free,
  mark_blocks,
}

-- `k` is one of the `n` blocks from `start` on.
abbrev pub in_run : ℕ → ℕ → ℕ → Bool
in_run start n k = leb start k && ltb k (start + n)

-- `result` is a bitmap in which the run has the mark `b` and the other blocks are those of `before`.
pub record HasRun (b : Bool) (before : List ℕ) (start n : ℕ) (result : Option (List ℕ))
    : Type 0 where
  pub after : List ℕ
  pub returns : result ≡ some after
  pub size : length after ≡ bitmap_size
  pub blocks :
      (k : ℕ) → is_block_used after k ≡ (if in_run start n k then b else is_block_used before k)

abbrev Op : Type 0
Op = List ℕ → ℕ → Option (List ℕ)

-- An operation that gives one block in range the mark `b`.
abbrev pub Marks : Bool → Op → Type 0
Marks b op =
    (bm : List ℕ) (i : ℕ)
    → length bm ≡ bitmap_size
    → i < heap_blocks_max
    → HasRun b bm i 1 (op bm i)

pub mark_block_used-Marks : Marks true mark_block_used
unfolding mark_block_used write_bitmap is_block_used
mark_block_used-Marks bm i size h = record {
  after = Bitmap.mark 8 bm i;
  returns = ground arith;
  size = length-set bm (i / 8) _ ∙ size;
  blocks = λ k. ground (arith, test-mark 8 bm i k (omega arith) (omega arith));
}

pub mark_block_free-Marks : Marks false mark_block_free
unfolding mark_block_free write_bitmap is_block_used
mark_block_free-Marks bm i size h = record {
  after = Bitmap.clear 8 bm i;
  returns = ground arith;
  size = length-set bm (i / 8) _ ∙ size;
  blocks = λ k. ground (arith, test-clear 8 bm i k (omega arith) (omega arith) (omega arith));
}

-- The loop gives the mark to the whole run, never leaving the bitmap.
pub mark_blocks-HasRun :
    (b : Bool) (op : Op)
    → Marks b op
    → (n : ℕ) (bm : List ℕ) (start : ℕ) → length bm ≡ bitmap_size
    → start + n ≤ heap_blocks_max
    → HasRun b bm start n (mark_blocks op bm start n)
unfolding mark_blocks
mark_blocks-HasRun b op marks zero bm start size h = record {
  after = bm;
  returns = refl;
  size = size;
  blocks = λ k. ground arith;
}
mark_blocks-HasRun b op marks (suc n) bm start size h =
    let one = marks bm start size (omega arith) in
    let rest = mark_blocks-HasRun b op marks n one.after (start + 1) one.size (omega arith) in
    record {
      after = rest.after;
      returns = rw (one.returns, mark_blocks) rest.returns;
      size = rest.size;
      blocks = λ k. ground (arith, rest.blocks k, one.blocks k);
    }
