-- ===== src/Shell/Loop.antt =====
-- A whole turn of the shell, on a heap that holds nothing.
pub mod Turns
use olympos.Prelude.{
  ℕ, zero, suc, ◌+◌, ◌-◌, ◌*◌, ◌/◌, ◌≤◌, ◌<◌, ◌^◌, Bool, true, false, not, Option, none, some, List,
  [], ◌∷◌, ◌++◌, length, ◌==◌, if◌then◌else◌, Memory, ◌≡◌, ◌≢◌, ◌⊎◌, inl, inr, refl, sym, ap, ap₂,
  ◌∙◌, subst, arith,
}
use mathlib.Core.List.{reverse}
use native.Mathlib.Decide.{dec_lt}
use olympos.Kheap.{
  blocks_needed, heap_block_size, heap_blocks_max, Kheap, is_block_used, kmalloc, kfree,
}
use olympos.Kheap.Alloc.{user_address, largest, Allocated, blocks_needed_bounds, kmalloc_lem}
use olympos.Kheap.Allocs.{Allocs, covers, Stored, Stored-kept, Listed, release, release_head}
use olympos.Kheap.Free.{Freed, kfree_lem}
use olympos.Kheap.Inv.{Holds}
use olympos.Libc.Itoa.{codes}
use olympos.Libc.Stdio.Render.Typed.{fits_at, fits}
use olympos.Libc.Strings.{Strtok, ◌>>=◌}
use olympos.Libc.Strings.Text.{IsString}
use olympos.Shell.{Shell, Literals}
use olympos.Shell.Parse.{IsArray, IsString-kept, ParsedLine, parse_line_lem}
use olympos.Shell.Split.{words, AreShort, words-AreShort}

-- Words that are no counts do not matter to the order of the heap.
Holds-ext :
    (live : Allocs) (h : Kheap) (m : Memory)
    → ((k : ℕ)
        → m (h.heap_start + k * heap_block_size) ≡ h.memory (h.heap_start + k * heap_block_size))
    → Holds live h
    → Holds live (record h { memory = m })
Holds-ext live h m same v = record {
  size = v.size;
  nonnull = v.nonnull;
  room = v.room;
  used = v.used;
  counted = v.counted;
  disjoint = v.disjoint;
  stored = Stored-kept h.memory m h.heap_start live (λ s n l. same s) v.stored;
}

-- With a block that no allocation covers, a request of less than a block gets one.
one_block :
    (live : Allocs) (h : Kheap) (size k : ℕ)
    → Holds live h
    → 0 < size
    → size ≤ 4000
    → k < heap_blocks_max
    → covers live k ≡ false
    → Allocated live h size (kmalloc size h)
one_block live h size k v pos small room no_cover =
    elim (kmalloc_lem live h size v pos (omega arith)) [
      | inl a ↦ a
      | inr r ↦ absurd (
          r.0 k (record {
            fits = omega (arith, blocks_needed_bounds size pos (omega arith));
            free = λ j p q.
                let e : j ≡ k = omega (arith, p, q, blocks_needed_bounds size pos (omega arith)) in
                v.used j ∙ ap (covers live) e ∙ no_cover;
          }))
    ]

-- `SHELL_TOK_DELIM`.
abbrev pub delimiters : List ℕ
delimiters = 32 ∷ 9 ∷ 13 ∷ 10 ∷ 7 ∷ []

-- The shell at its prompt: the heap starts at `base`, is in order and holds nothing, and the literals stand below
-- it.
pub record AtPrompt (l : Literals) (base : ℕ) (s : Shell) : Type 0 where
  pub heap : Holds [] s.kheap
  pub starts : s.kheap.heap_start ≡ base
  pub clear : IsString s.tokens.memory l.clear (codes "clear")
  pub help : IsString s.tokens.memory l.help (codes "help")
  pub delim : IsString s.tokens.memory l.delim delimiters
  pub nonnull : 0 < l.delim
  pub clear_below : l.clear + 5 < base
  pub help_below : l.help + 4 < base
  pub delim_below : l.delim + 5 < base

pub prompt-fits : fits (codes "$ ") [] ≡ true
unfolding fits_at
prompt-fits = refl

one : (size : ℕ) → 0 < size → size ≤ 4000 → blocks_needed size ≡ 1
one size pos small = omega (arith, blocks_needed_bounds size pos (omega arith))

-- The first argument is NULL or a word of the line.
pub first_argument :
    (m w : Memory) (tokens n : ℕ) (ws : List (List ℕ))
    → IsArray m w tokens 0 ws
    → AreShort n ws
    → (name : List ℕ) × (length name ≤ n) × (w tokens ≢ 0 → IsString m (w tokens) name)
first_argument m w tokens n [] a h =
    let e : w tokens ≡ 0 = subst (λ p. w p ≡ 0) (omega arith) a in
    ([], omega arith, λ ne. absurd (ne e))
first_argument m w tokens n (x ∷ xs) a h =
    (x, h.0, λ ne. subst (λ p. IsString m (w p) x) (omega arith) a.1)

-- What a turn has taken from an empty heap: the buffer and the array, in different blocks.
pub record Taken (h : Kheap) : Type 0 where
  pub line : Allocated [] h 1024 (kmalloc 1024 h)
  pub array :
      Allocated ((line.start, blocks_needed 1024) ∷ []) line.after 256 (kmalloc 256 line.after)
  pub apart : line.start ≢ array.start

pub taken : (h : Kheap) → Holds [] h → Taken h
taken h v =
    let n1 = one 1024 (omega arith) (omega arith) in
    let n2 = one 256 (omega arith) (omega arith) in
    let a = one_block [] h 1024 0 v (omega arith) (omega arith) (omega arith) refl in
    let at : a.start ≤ 0 =
      a.first 0 (record { fits = omega (arith, n1); free = λ k p q. v.used k }) in
    let b =
      one_block ((a.start, blocks_needed 1024) ∷ []) a.after 256 1 a.holds (omega arith)
        (omega arith) (omega arith) (ground (arith, at, n1)) in
    record {
      line = a;
      array = b;
      apart = λ e. ground (arith, e, n1, n2, b.run.free b.start, a.holds.used b.start);
    }

-- The kfree of both, after the words of the array were written.
pub frees :
    (h : Kheap) (t : Taken h) (m : Memory)
    → ((a : ℕ)
        → (a < user_address t.line.after t.array.start)
          ⊎ (user_address t.line.after t.array.start + 4 * 512 < a)
        → m a ≡ t.array.after.memory a)
    → (after : Kheap) × ((kfree (user_address h t.line.start) (record t.array.after { memory = m })
          >>= kfree (user_address t.line.after t.array.start))
        ≡ some after)
      × Holds [] after
      × (after.heap_start ≡ h.heap_start)
frees h t m kept =
    let a = t.line in
    let b = t.array in
    let n1 = blocks_needed 1024 in
    let n2 = blocks_needed 256 in
    let full : Kheap = record b.after { memory = m } in
    let live : Allocs = (b.start, n2) ∷ (a.start, n1) ∷ [] in
    let base = b.same_base in
    let held : Holds live full =
      Holds-ext live b.after m
        (λ k. kept (b.after.heap_start + k * heap_block_size) (elim (dec_lt b.start k) [
          | yes p ↦ inr (omega (arith, base))
          | no p ↦ inl (omega (arith, base))
        ]))
        b.holds in
    let c = kfree_lem live full held a.start n1 (inr (inl (refl, refl))) in
    let left : release a.start live ≡ (b.start, n2) ∷ [] = ground (arith, t.apart) in
    let rest : Holds ((b.start, n2) ∷ []) c.after = subst (λ l. Holds l c.after) left c.holds in
    let d = kfree_lem ((b.start, n2) ∷ []) c.after rest b.start n2 (inl (refl, refl)) in
    (
      d.after,
      ap (λ (p : ℕ). kfree p full >>= kfree (user_address a.after b.start))
            (omega (arith, base, a.same_base))
          ∙ ap (λ (o : Option Kheap). o >>= kfree (user_address a.after b.start)) c.returns
          ∙ ap (λ (p : ℕ). kfree p c.after) (omega (arith, base, c.same_base))
          ∙ d.returns,
      subst (λ l. Holds l d.after) (release_head b.start b.start n2 [] refl) d.holds,
      d.same_base ∙ c.same_base ∙ base ∙ a.same_base,
    )
