-- ===== src/Kheap/Client.antt =====
-- What a client of the heap may rely on, over several calls.
use olympos.Prelude.{
  ℕ, ◌+◌, ◌-◌, ◌*◌, ◌≤◌, ◌<◌, Option, some, [], ◌∷◌, ◌≡◌, ◌≢◌, ◌⊎◌, inl, inr, refl, sym, ap, ap₂,
  ◌∙◌, subst, arith, Memory,
}
use native.Mathlib.Decide.{dec_lt}
use olympos.Kheap.{
  heap_block_size, Kheap, is_block_used, blocks_needed, kmalloc, kfree, kheap_stats,
}
use olympos.Kheap.Count.{count_used, count_used-le}
use olympos.Kheap.Allocs.{
  Allocs, Disjoint, Listed, covers, release_head, Listed-covers, Listed-start, Stored-kept,
}
use olympos.Kheap.Inv.{Holds}
use olympos.Kheap.Alloc.{largest, user_address, Allocated, blocks_needed_bounds, kmalloc_lem}
use olympos.Kheap.Free.{kfree_lem}

-- What a pointer to a fresh allocation is worth: `kfree` takes it, and every block's mark and the
-- count of used blocks are those of `h` again.
record Undone (h : Kheap) (result : Option Kheap) : Type 0 where
  after : Kheap
  returns : result ≡ some after
  blocks : (k : ℕ) → is_block_used after.heap_bitmap k ≡ is_block_used h.heap_bitmap k
  counted : after.blocks_used ≡ h.blocks_used

apart :
    (s n s' n' : ℕ) (live : Allocs)
    → Listed s n live
    → Listed s' n' live
    → Disjoint live
    → s < s'
    → s + n ≤ s'
apart s n s' n' [] l l' d lt = absurd l
apart s n s' n' ((t, m) ∷ live) (inl e) (inl e') d lt = omega (arith, e.0, e'.0)
apart s n s' n' ((t, m) ∷ live) (inl e) (inr l') d lt =
    ground (arith, e.0, e.1, d.2 s', Listed-start s' n' live l' d.3)
apart s n s' n' ((t, m) ∷ live) (inr l) (inl e') d lt =
    ground (arith, e'.0, e'.1, d.0, d.2 s', Listed-covers s n s' live l)
apart s n s' n' ((t, m) ∷ live) (inr l) (inr l') d lt = apart s n s' n' live l l' d.3 lt

-- A fresh allocation, and a live one: they start at different blocks.
fresh_start :
    (live : Allocs) (h : Kheap) (s n size : ℕ)
    → Holds live h
    → Listed s n live
    → (a : Allocated live h size (kmalloc size h)) → 0 < blocks_needed size
    → s ≢ a.start
fresh_start live h s n size v l a some_blocks e = ground (
  arith,
  v.used a.start,
  a.run.free a.start (omega arith) (omega (arith, some_blocks)),
  ap (λ (k : ℕ). covers live k) e,
  Listed-start s n live l v.disjoint,
)

-- On a heap in order, the bytes that `kmalloc` gives for a request that fits the heap, other than
-- NULL, overlap no block of a live allocation: they lie behind its last block, and the block count
-- too, or end before its first one.
pub kmalloc-apart :
    (live : Allocs) (h : Kheap) (s n size ptr : ℕ) (h1 : Kheap)
    → Holds live h
    → Listed s n live
    → 0 < size
    → size ≤ largest
    → kmalloc size h ≡ some (ptr, h1)
    → ptr ≢ 0
    → (h.heap_start + (s + n) * heap_block_size + 4 ≤ ptr)
      ⊎ (ptr + size ≤ h.heap_start + s * heap_block_size)
kmalloc-apart live h s n size ptr h1 v l pos small e nz =
    elim (kmalloc_lem live h size v pos small) [
      | inr r ↦ absurd (nz (cc (e, r.1)))
      | inl a ↦
          let p : ptr ≡ user_address h a.start = cc (e, a.returns) in
          let fits = blocks_needed_bounds size pos (omega (arith, small)) in
          let d = a.holds.disjoint in
          let all : Allocs = (a.start, blocks_needed size) ∷ live in
          let both : Listed s n all = inr l in
          let new : Listed a.start (blocks_needed size) all = inl (refl, refl) in
          elim (dec_lt s a.start) [
            | yes q ↦
                inl (omega (arith, p, apart s n a.start (blocks_needed size) all both new d q))
            | no q ↦
                let ne = fresh_start live h s n size v l a (omega (arith, fits)) in
                inr (
                  omega (
                    arith,
                    p,
                    fits,
                    apart a.start (blocks_needed size) s n all new both d (omega (arith, q, ne)),
                  ))
          ]
    ]

-- After the user's writes into a fresh allocation the heap is still in order.
written :
    (live : Allocs) (h : Kheap) (size : ℕ) (m : Memory)
    → 0 < size
    → size ≤ largest
    → (a : Allocated live h size (kmalloc size h))
    → ((k : ℕ)
        → (k < user_address h a.start) ⊎ (user_address h a.start + size ≤ k)
        → m k ≡ a.after.memory k)
    → Holds ((a.start, blocks_needed size) ∷ live) (record a.after { memory = m })
written live h size m pos small a kept =
    let v = a.holds in
    record {
      size = v.size;
      nonnull = v.nonnull;
      room = v.room;
      used = v.used;
      counted = v.counted;
      disjoint = v.disjoint;
      stored =
          Stored-kept a.after.memory m a.after.heap_start ((a.start, blocks_needed size) ∷ live)
            count v.stored;
    }
  where
    all : Allocs
    all = (a.start, blocks_needed size) ∷ live

    count :
        (s n : ℕ)
        → Listed s n all
        → m (a.after.heap_start + s * heap_block_size)
          ≡ a.after.memory (a.after.heap_start + s * heap_block_size)
    count s n l = kept (a.after.heap_start + s * heap_block_size) (elim (dec_lt a.start s) [
      | yes p ↦ inr (
          omega (
            arith,
            a.same_base,
            blocks_needed_bounds size pos (omega (arith, small)),
            apart a.start (blocks_needed size) s n all (inl (refl, refl)) l a.holds.disjoint p,
          ))
      | no p ↦ inl (omega (arith, a.same_base, p))
    ])

-- On a heap in order, whatever the user writes into the `size` bytes that `kmalloc` gave for a
-- request that fits the heap, other than NULL: `kfree` takes the pointer, the heap is in order with
-- just the allocations of before, and every block's mark is that of before.
pub kfree-kmalloc_used :
    (live : Allocs) (h : Kheap) (size ptr : ℕ) (h1 : Kheap) (m : Memory)
    → Holds live h
    → 0 < size
    → size ≤ largest
    → kmalloc size h ≡ some (ptr, h1)
    → ptr ≢ 0
    → ((k : ℕ) → (k < ptr) ⊎ (ptr + size ≤ k) → m k ≡ h1.memory k)
    → (h2 : Kheap) × (kfree ptr (record h1 { memory = m }) ≡ some h2)
      × Holds live h2
      × ((k : ℕ) → is_block_used h2.heap_bitmap k ≡ is_block_used h.heap_bitmap k)
kfree-kmalloc_used live h size ptr h1 m v pos small e nz kept =
    elim (kmalloc_lem live h size v pos small) [
      | inr r ↦ absurd (nz (cc (e, r.1)))
      | inl a ↦
          let p : ptr ≡ user_address h a.start = cc (e, a.returns) in
          let q : h1 ≡ a.after = cc (e, a.returns) in
          let all : Allocs = (a.start, blocks_needed size) ∷ live in
          let used : Kheap = record a.after { memory = m } in
          let w =
            written live h size m pos small a
              (λ k o. kept k (ground (arith, o, p)) ∙ ap (λ (g : Kheap). g.memory k) q) in
          let f = kfree_lem all used w a.start (blocks_needed size) (inl (refl, refl)) in
          let held : Holds live f.after =
            subst (λ l. Holds l f.after)
              (release_head a.start a.start (blocks_needed size) live refl) f.holds in
          (
            f.after,
            ap₂ (λ (a : ℕ) (g : Kheap). kfree a (record g { memory = m })) p q
                ∙ ap (λ (b : ℕ). kfree (b + a.start * heap_block_size + 4) used) (sym a.same_base)
                ∙ f.returns,
            held,
            λ k. held.used k ∙ sym (v.used k),
          )
    ]

-- The statistics of a heap in order: used and free blocks make up the heap, in blocks and in KB.
pub kheap_stats_lem :
    (live : Allocs) (h : Kheap)
    → Holds live h
    → let used = count_used h.heap_bitmap in
      kheap_stats h ≡ used ∷ 2048 ∷ (2048 - used) ∷ (used * 4) ∷ ((2048 - used) * 4) ∷ []
unfolding kheap_stats
kheap_stats_lem live h v = ground (arith, v.counted, count_used-le h.heap_bitmap)
