-- ===== src/Shell/Split.antt =====
-- The arguments that a line stands for, and the calls of `strtok` that find them.
use olympos.Prelude.{
  ℕ, zero, suc, ◌+◌, ◌*◌, ◌≤◌, true, false, List, [], ◌∷◌, length, take, drop, if◌then◌else◌, ◌≡◌,
  ◌⊎◌, refl, sym, ap, ap₂, ◌∙◌, arith, Bool-cases, inl, inr,
}
use olympos.Libc.Strings.Text.{contains}
use olympos.Libc.Strings.Tokens.{body_of, token_size}

-- A word in front of the others, if it has a character.
abbrev add : List ℕ → List (List ℕ) → List (List ℕ)
add [] words = words
add (c ∷ word) words = (c ∷ word) ∷ words

-- The word at the very front of a text, and the words behind it.
abbrev pieces : List ℕ → List ℕ → List ℕ × List (List ℕ)
pieces chars [] = ([], [])
pieces chars (c ∷ text) =
    let rest = pieces chars text in
    if contains chars c then ([], add rest.0 rest.1) else (c ∷ rest.0, rest.1)

-- The words of a text, apart from each other by the given characters.
abbrev pub words : List ℕ → List ℕ → List (List ℕ)
words chars text = let p = pieces chars text in add p.0 p.1

-- No word is longer than its text.
abbrev pub AreShort : ℕ → List (List ℕ) → Type 0
AreShort n [] = zero ≡ zero
AreShort n (w ∷ ws) = (length w ≤ n) × AreShort n ws

longer_still : (n : ℕ) (ws : List (List ℕ)) → AreShort n ws → AreShort (suc n) ws
longer_still n [] h = refl
longer_still n (w ∷ ws) h = (omega (arith, h.0), longer_still n ws h.1)

add-AreShort :
    (n : ℕ) (w : List ℕ) (ws : List (List ℕ)) → length w ≤ n → AreShort n ws → AreShort n (add w ws)
add-AreShort n [] ws h k = k
add-AreShort n (c ∷ w) ws h k = (h, k)

module _ (chars : List ℕ) where
  words-skip :
      (c : ℕ) (text : List ℕ) → contains chars c ≡ true → words chars (c ∷ text) ≡ words chars text
  words-skip c text h = rw h refl

  body_goes :
      (c : ℕ) (text : List ℕ)
      → contains chars c ≡ true
      → body_of chars (c ∷ text) ≡ body_of chars text
  body_goes c text h = rw h refl

  pub body_stays :
      (c : ℕ) (text : List ℕ) → contains chars c ≡ false → body_of chars (c ∷ text) ≡ c ∷ text
  body_stays c text h = rw h refl

  -- Behind the delimiters stands no delimiter.
  pub body_starts :
      (text : List ℕ)
      → (body_of chars text ≡ [])
        ⊎ ((c : ℕ) × (more : List ℕ) × (body_of chars text ≡ c ∷ more) × (contains chars c ≡ false))
  body_starts [] = inl refl
  body_starts (c ∷ text) = elim (Bool-cases (contains chars c)) [
    | inr h ↦ inr (c, text, body_stays c text h, h)
    | inl h ↦ elim (body_starts text) [
      | inl e ↦ inl (body_goes c text h ∙ e)
      | inr (d, more, e, n) ↦ inr (d, more, body_goes c text h ∙ e, n)
    ]
  ]

  pub words-body_of : (text : List ℕ) → words chars text ≡ words chars (body_of chars text)
  words-body_of [] = refl
  words-body_of (c ∷ text) = elim (Bool-cases (contains chars c)) [
    | inl h ↦ words-skip c text h ∙ words-body_of text ∙ ap (words chars) (sym (body_goes c text h))
    | inr h ↦ ap (words chars) (sym (body_stays c text h))
  ]

  pieces_lem :
      (text : List ℕ)
      → ((pieces chars text).0 ≡ take (token_size chars text) text)
        × ((pieces chars text).1 ≡ words chars (drop (suc (token_size chars text)) text))
  pieces_lem [] = (refl, refl)
  pieces_lem (c ∷ text) = elim (Bool-cases (contains chars c)) [
    | inl h ↦ rw h (refl, refl)
    | inr h ↦ let r = pieces_lem text in rw h (ap (λ (t : List ℕ). c ∷ t) r.0, r.1)
  ]

  -- A text that starts with no delimiter starts with a word.
  pub words-first :
      (c : ℕ) (text : List ℕ)
      → contains chars c ≡ false
      → words chars (c ∷ text)
        ≡ take (token_size chars (c ∷ text)) (c ∷ text)
          ∷ words chars (drop (suc (token_size chars (c ∷ text))) (c ∷ text))
  words-first c text h =
      let r = pieces_lem text in
      rw h (ap₂ (λ (t : List ℕ) (ws : List (List ℕ)). (c ∷ t) ∷ ws) r.0 r.1)

  -- Each word takes two characters at least, but for the last one.
  Fewer : List ℕ × List (List ℕ) → ℕ → Type 0
  Fewer ([], ws) n = 2 * length ws ≤ n
  Fewer (c ∷ w, ws) n = 2 * length ws + 2 ≤ n + 1

  delimited : (p : List ℕ × List (List ℕ)) (n : ℕ) → Fewer p n → 2 * length (add p.0 p.1) ≤ suc n
  unfolding Fewer
  delimited ([], ws) n h = omega arith
  delimited (c ∷ w, ws) n h = omega arith

  longer : (c : ℕ) (p : List ℕ × List (List ℕ)) (n : ℕ) → Fewer p n → Fewer (c ∷ p.0, p.1) (suc n)
  unfolding Fewer
  longer c ([], ws) n h = omega arith
  longer c (d ∷ w, ws) n h = omega arith

  pieces-Fewer : (text : List ℕ) → Fewer (pieces chars text) (length text)
  unfolding Fewer
  pieces-Fewer [] = omega arith
  pieces-Fewer (c ∷ text) = elim (Bool-cases (contains chars c)) [
    | inl h ↦ rw h (delimited (pieces chars text) (length text) (pieces-Fewer text))
    | inr h ↦ rw h (longer c (pieces chars text) (length text) (pieces-Fewer text))
  ]

  pub length-words : (text : List ℕ) → 2 * length (words chars text) ≤ length text + 1
  length-words text = omega (arith, delimited (pieces chars text) (length text) (pieces-Fewer text))

  pieces-AreShort :
      (text : List ℕ)
      → (length (pieces chars text).0 ≤ length text) × AreShort (length text) (pieces chars text).1
  pieces-AreShort [] = (omega arith, refl)
  pieces-AreShort (c ∷ text) =
      let p = pieces chars text in
      let (h, k) = pieces-AreShort text in
      elim (Bool-cases (contains chars c)) [
        | inl e ↦ rw e (
          omega arith,
          longer_still (length text) (add p.0 p.1) (add-AreShort (length text) p.0 p.1 h k),
        )
        | inr e ↦ rw e (omega (arith, h), longer_still (length text) p.1 k)
      ]

  pub words-AreShort : (text : List ℕ) → AreShort (length text) (words chars text)
  words-AreShort text =
      let p = pieces chars text in
      let (h, k) = pieces-AreShort text in add-AreShort (length text) p.0 p.1 h k
