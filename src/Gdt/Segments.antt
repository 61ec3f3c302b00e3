-- ===== src/Gdt/Segments.antt =====
-- What the processor decodes from a descriptor, and the segments that `gdt_init` sets up.
use olympos.Prelude.{
  ℕ, zero, suc, ◌+◌, ◌*◌, ◌/◌, ◌%◌, ◌^◌, ◌<◌, if◌then◌else◌, ◌==◌, List, [], ◌∷◌, length, set,
  get_or, bit_and, bit_or, ◌≡◌, refl, sym, ap, ap₂, ◌∙◌, arith, u8, u16, length-set,
  get_or-set_self, get_or-set_ne,
}
use native.Mathlib.Decide.{ℕ_discrete}
use olympos.Bits.Fields.{bit_and_mask, bit_and_high, bit_or_fields_comm, bit_or-zero}
use olympos.Gdt.{GdtEntry, Gdt, gdt_set_entry, tss_init, gdt_init, num_segments, sizeof_tss}

-- The fields of a segment, as the processor puts them together.
pub record Segment : Type 0 where
  pub start : ℕ
  pub limit : ℕ
  pub access : ℕ
  pub flags : ℕ

abbrev pub decode : GdtEntry → Segment
decode e = record {
  start = e.base_hi * 2 ^ 24 + e.base_mi * 2 ^ 16 + e.base_lo;
  limit = e.limit_hi_flags % 2 ^ 4 * 2 ^ 16 + e.limit_lo;
  access = e.access;
  flags = e.limit_hi_flags / 2 ^ 4;
}

abbrev pub null_entry : GdtEntry
null_entry = record {
  limit_lo = 0;
  base_lo = 0;
  base_mi = 0;
  access = 0;
  limit_hi_flags = 0;
  base_hi = 0;
}

module _ (limit flags : ℕ) (fits : limit < 2 ^ 20) (byte : flags < 2 ^ 8) where
  high_byte :
      u8 (bit_or (u8 (bit_and (limit / 2 ^ 16) 0x0F)) (u8 (bit_and flags 0xF0)))
      ≡ limit / 2 ^ 16 + flags / 2 ^ 4 * 2 ^ 4
  high_byte =
      let low : u8 (bit_and (limit / 2 ^ 16) 0x0F) ≡ limit / 2 ^ 16 =
        omega (arith, bit_and_mask 4 (limit / 2 ^ 16)) in
      let high : u8 (bit_and flags 0xF0) ≡ flags / 2 ^ 4 * 2 ^ 4 =
        omega (arith, bit_and_high 4 8 flags (omega arith) byte) in
      let e : bit_or (u8 (bit_and (limit / 2 ^ 16) 0x0F)) (u8 (bit_and flags 0xF0))
          ≡ limit / 2 ^ 16 + flags / 2 ^ 4 * 2 ^ 4 =
        ap₂ bit_or low high ∙ bit_or_fields_comm 4 (flags / 2 ^ 4) (limit / 2 ^ 16) (omega arith) in
      omega (arith, e)

Segment_ext :
    (s t : Segment)
    → s.start ≡ t.start
    → s.limit ≡ t.limit
    → s.access ≡ t.access
    → s.flags ≡ t.flags
    → s ≡ t
Segment_ext s t a b c d = λ i. record { start = a i; limit = b i; access = c i; flags = d i }

unfoldable packed : ℕ → ℕ → ℕ → ℕ → GdtEntry
packed base limit access flags = record {
  limit_lo = u16 (bit_and limit 0xFFFF);
  base_lo = u16 (bit_and base 0xFFFF);
  base_mi = u8 (bit_and (base / 2 ^ 16) 0xFF);
  access = u8 access;
  limit_hi_flags = u8 (bit_or (u8 (bit_and (limit / 2 ^ 16) 0x0F)) (u8 (bit_and flags 0xF0)));
  base_hi = u8 (bit_and (base / 2 ^ 24) 0xFF);
}

decode-packed :
    (base limit access flags : ℕ)
    → base < 2 ^ 32
    → limit < 2 ^ 20
    → access < 2 ^ 8
    → flags < 2 ^ 8
    → decode (packed base limit access flags)
      ≡ record { start = base; limit = limit; access = access; flags = flags / 2 ^ 4 }
unfolding packed
decode-packed base limit access flags b l a f =
    let e = high_byte limit flags l f in
    Segment_ext _ _
      (omega (
        arith,
        bit_and_mask 16 base,
        bit_and_mask 8 (base / 2 ^ 16),
        bit_and_mask 8 (base / 2 ^ 24),
      ))
      (omega (arith, e, bit_and_mask 16 limit)) (omega arith) (omega (arith, e))

-- `gdt_set_entry` packs the segment so that the processor decodes what was asked for: a base of 32
-- bits, a limit of 20, the access byte, and the high half of the flags. Every other descriptor stays.
pub decode-gdt_set_entry :
    (idx base limit access flags k : ℕ) (gdt : List GdtEntry)
    → idx < length gdt
    → base < 2 ^ 32
    → limit < 2 ^ 20
    → access < 2 ^ 8
    → flags < 2 ^ 8
    → decode (get_or (gdt_set_entry idx base limit access flags gdt) k null_entry) ≡ (
        if idx == k
        then record { start = base; limit = limit; access = access; flags = flags / 2 ^ 4 }
        else decode (get_or gdt k null_entry))
unfolding gdt_set_entry packed
decode-gdt_set_entry idx base limit access flags k gdt h b l a f = elim (ℕ_discrete idx k) [
  | yes e ↦
      ap decode (
        ap (λ (t : ℕ). get_or (set gdt idx (packed base limit access flags)) t null_entry) (sym e)
        ∙ get_or-set_self gdt idx (packed base limit access flags) null_entry h)
      ∙ decode-packed base limit access flags b l a f
      ∙ ground (arith, e)
  | no ne ↦
      ap decode (get_or-set_ne gdt idx k (packed base limit access flags) null_entry ne)
      ∙ ground (arith, ne)
]

-- The segments that the kernel asks for: the null segment, code and data of all 4 GiB for the kernel
-- and for user mode, in pages of 4 KiB and 32 bits, and the task state segment.
abbrev pub flat : ℕ → Segment
flat access = record { start = 0; limit = 0xFFFFF; access = access; flags = 0xC }

abbrev pub segments : ℕ → List Segment
segments tss_address =
    record { start = 0; limit = 0; access = 0; flags = 0 }
    ∷ flat 0x9A
    ∷ flat 0x92
    ∷ flat 0xFA
    ∷ flat 0xF2
    ∷ record { start = tss_address; limit = 104; access = 0x89; flags = 0 }
    ∷ []

length-gdt_set_entry :
    (idx base limit access flags : ℕ) (gdt : List GdtEntry)
    → length (gdt_set_entry idx base limit access flags gdt) ≡ length gdt
unfolding gdt_set_entry
length-gdt_set_entry idx base limit access flags gdt = length-set gdt idx _

-- Of six segments that were set one behind the other, number `k`.
pick :
    (s0 s1 s2 s3 s4 s5 d4 d3 d2 d1 d0 d e : Segment) (k : ℕ)
    → k < 6
    → d4 ≡ (if 4 == k then s4 else d3)
    → d3 ≡ (if 3 == k then s3 else d2)
    → d2 ≡ (if 2 == k then s2 else d1)
    → d1 ≡ (if 1 == k then s1 else d0)
    → d0 ≡ (if 0 == k then s0 else d)
    → (if 5 == k then s5 else d4) ≡ get_or (s0 ∷ s1 ∷ s2 ∷ s3 ∷ s4 ∷ s5 ∷ []) k e
pick s0 s1 s2 s3 s4 s5 d4 d3 d2 d1 d0 d e zero l a b c f g = a ∙ b ∙ c ∙ f ∙ g
pick s0 s1 s2 s3 s4 s5 d4 d3 d2 d1 d0 d e (suc zero) l a b c f g = a ∙ b ∙ c ∙ f
pick s0 s1 s2 s3 s4 s5 d4 d3 d2 d1 d0 d e (suc (suc zero)) l a b c f g = a ∙ b ∙ c
pick s0 s1 s2 s3 s4 s5 d4 d3 d2 d1 d0 d e (suc (suc (suc zero))) l a b c f g = a ∙ b
pick s0 s1 s2 s3 s4 s5 d4 d3 d2 d1 d0 d e (suc (suc (suc (suc zero)))) l a b c f g = a
pick s0 s1 s2 s3 s4 s5 d4 d3 d2 d1 d0 d e (suc (suc (suc (suc (suc zero))))) l a b c f g = refl
pick s0 s1 s2 s3 s4 s5 d4 d3 d2 d1 d0 d e (suc (suc (suc (suc (suc (suc k)))))) l a b c f g =
    absurd (omega arith)

-- What `gdt_init` makes of a table of 6 descriptors: each of the segments above, and the state
-- segment's stack is the kernel's.
pub gdt_init_lem :
    (gdt_address tss_address stack_top k : ℕ) (st : Gdt)
    → length st.gdt ≡ num_segments
    → tss_address < 2 ^ 32
    → stack_top < 2 ^ 32
    → k < num_segments
    → (decode (get_or (gdt_init gdt_address tss_address stack_top st).gdt k null_entry)
        ≡ get_or (segments tss_address) k (flat 0))
      × ((gdt_init gdt_address tss_address stack_top st).tss.esp0 ≡ stack_top)
      × ((gdt_init gdt_address tss_address stack_top st).tss.ss0 ≡ 2 * 2 ^ 3)
unfolding gdt_init tss_init
gdt_init_lem gdt_address tss_address stack_top k st size fits top l =
    (entry, omega arith, omega (arith, bit_or-zero 16))
  where
    g0 : List GdtEntry
    g0 = gdt_set_entry 0 0 0 0 0 st.gdt

    g1 : List GdtEntry
    g1 = gdt_set_entry 1 0 0xFFFFF 0x9A 0xC0 g0

    g2 : List GdtEntry
    g2 = gdt_set_entry 2 0 0xFFFFF 0x92 0xC0 g1

    g3 : List GdtEntry
    g3 = gdt_set_entry 3 0 0xFFFFF 0xFA 0xC0 g2

    g4 : List GdtEntry
    g4 = gdt_set_entry 4 0 0xFFFFF 0xF2 0xC0 g3

    n0 : length g0 ≡ 6
    n0 = length-gdt_set_entry 0 0 0 0 0 st.gdt ∙ size

    n1 : length g1 ≡ 6
    n1 = length-gdt_set_entry 1 0 0xFFFFF 0x9A 0xC0 g0 ∙ n0

    n2 : length g2 ≡ 6
    n2 = length-gdt_set_entry 2 0 0xFFFFF 0x92 0xC0 g1 ∙ n1

    n3 : length g3 ≡ 6
    n3 = length-gdt_set_entry 3 0 0xFFFFF 0xFA 0xC0 g2 ∙ n2

    n4 : length g4 ≡ 6
    n4 = length-gdt_set_entry 4 0 0xFFFFF 0xF2 0xC0 g3 ∙ n3

    entry :
        decode (get_or (gdt_set_entry 5 tss_address sizeof_tss 0x89 0 g4) k null_entry)
        ≡ get_or (segments tss_address) k (flat 0)
    entry =
        decode-gdt_set_entry 5 tss_address sizeof_tss 0x89 0 k g4 (omega (arith, n4)) fits
          (omega arith) (omega arith) (omega arith)
        ∙ pick (record { start = 0; limit = 0; access = 0; flags = 0 }) (flat 0x9A) (flat 0x92)
            (flat 0xFA) (flat 0xF2)
            (record { start = tss_address; limit = 104; access = 0x89; flags = 0 }) _ _ _ _ _ _
            (flat 0) k l
            (decode-gdt_set_entry 4 0 0xFFFFF 0xF2 0xC0 k g3 (omega (arith, n3)) (omega arith)
              (omega arith) (omega arith) (omega arith))
            (decode-gdt_set_entry 3 0 0xFFFFF 0xFA 0xC0 k g2 (omega (arith, n2)) (omega arith)
              (omega arith) (omega arith) (omega arith))
            (decode-gdt_set_entry 2 0 0xFFFFF 0x92 0xC0 k g1 (omega (arith, n1)) (omega arith)
              (omega arith) (omega arith) (omega arith))
            (decode-gdt_set_entry 1 0 0xFFFFF 0x9A 0xC0 k g0 (omega (arith, n0)) (omega arith)
              (omega arith) (omega arith) (omega arith))
            (decode-gdt_set_entry 0 0 0 0 0 k st.gdt (omega (arith, size)) (omega arith)
              (omega arith) (omega arith) (omega arith))
