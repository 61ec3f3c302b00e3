-- ===== src/Tests/Output.antt =====
-- Formatted output at concrete formats.
use olympos.Prelude.{
  ℕ, ◌+◌, Bool, true, some, List, [], ◌∷◌, ◌++◌, length, ◌≡◌, refl, arith, pos, Memory,
}
use olympos.Libc.Itoa.{codes}
use olympos.Libc.Stdio.{word, text, printf, puts}
use olympos.Libc.Stdio.Render.Typed.{fits_at, fits}
use olympos.Libc.Stdio.Output.{Counted, printf-Counted, puts_lem}
use olympos.Libc.Stdio.Buffer.{vsnprintf}
use olympos.Libc.Stdio.Buffer.Loop.{Untouched, vsnprintf-Untouched}

abbrev takes_all : List ℕ → ℕ → Bool
takes_all out c = true

printf-Counted_example :
    Counted 0 (printf takes_all (codes "%s: %d%%\n") (text (codes "used") ∷ word 42 ∷ []) [])
printf-Counted_example =
    printf-Counted takes_all (codes "%s: %d%%\n") (text (codes "used") ∷ word 42 ∷ []) []

puts_lem_example :
    puts takes_all (codes "ok") []
    ≡ some (pos (length (codes "ok") + 1), ([] ++ codes "ok") ++ b'\n' ∷ [])
puts_lem_example = puts_lem takes_all (λ out c. refl) (codes "ok") [] (omega arith)

abbrev blank : Memory
blank a = 7

fits_both : fits (codes "%s at %p") (text (codes "main") ∷ word 0x101000 ∷ []) ≡ true
unfolding fits_at
fits_both = refl

vsnprintf-Untouched_example :
    Untouched 500 8 blank
      (vsnprintf 500 8 (codes "%s at %p") (text (codes "main") ∷ word 0x101000 ∷ []) blank)
vsnprintf-Untouched_example =
    vsnprintf-Untouched 500 8 (codes "%s at %p") (text (codes "main") ∷ word 0x101000 ∷ []) blank
      (omega arith) (omega arith) (omega arith, refl) fits_both
