-- ===== src/Libc/Stdio/Render/Plain.antt =====
-- The ordinary characters between two directives.
use olympos.Prelude.{
  ℕ, ◌≤◌, true, false, List, [], ◌∷◌, length, ◌==◌, ◌≡◌, refl, sym, ap, ◌∙◌, subst, arith,
  Bool-cases, inl, inr,
}
use olympos.Libc.Stdio.{Argument, literal}
use olympos.Libc.Stdio.Render.{
  prepend, render_at, signed_text, prepend-nil, prepend-append, signed_text-plain,
}

literal_stops :
    (c : ℕ) (format : List ℕ) → (c == b'%') ≡ true → literal (c ∷ format) ≡ ([], c ∷ format)
unfolding literal
literal_stops c format e = rw e refl

literal_goes_on :
    (c : ℕ) (format : List ℕ)
    → (c == b'%') ≡ false
    → literal (c ∷ format) ≡ (c ∷ (literal format).0, (literal format).1)
unfolding literal
literal_goes_on c format e = rw e refl

abbrev Split : List ℕ → List Argument → List ℕ × List ℕ → Type 0
Split format args q =
    (signed_text format args ≡ prepend q.0 (signed_text q.1 args)) × (length q.1 ≤ length format)

-- A run of ordinary characters stands for itself.
pub signed_text-literal :
    (format : List ℕ) (args : List Argument)
    → (signed_text format args ≡ prepend (literal format).0 (signed_text (literal format).1 args))
      × (length (literal format).1 ≤ length format)
unfolding literal render_at
signed_text-literal [] args = (refl, omega arith)
signed_text-literal (c ∷ format) args = elim (Bool-cases (c == b'%')) [
  | inl e ↦
      subst (Split (c ∷ format) args) (sym (literal_stops c format e))
        (sym (prepend-nil (signed_text (c ∷ format) args)), omega arith)
  | inr e ↦
      let rest = signed_text-literal format args in
      subst (Split (c ∷ format) args) (sym (literal_goes_on c format e)) (
        signed_text-plain c format args e
            ∙ ap (prepend (c ∷ [])) rest.0
            ∙ sym
                (prepend-append (c ∷ []) (literal format).0 (signed_text (literal format).1 args)),
        omega (arith, rest.1),
      )
]
