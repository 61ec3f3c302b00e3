-- ===== src/Libc/Strings/Tokens.antt =====
-- One call of `strtok` against the split of its string at the delimiters.
use olympos.Prelude.{
  ℕ, zero, suc, ◌+◌, ◌≤◌, ◌<◌, Bool, not, Option, some, List, [], ◌∷◌, length, length-drop, take,
  drop, ◌==◌, if◌then◌else◌, ◌≡◌, ◌≢◌, ◌⊎◌, inl, inr, refl, sym, ap, ◌∙◌, subst, arith, Memory,
  store,
}
use olympos.Libc.Strings.{strcspn, Strtok, end_token, take_token, strtok}
use olympos.Libc.Strings.Text.{IsString, contains, prefix_length}
use olympos.Libc.Strings.Scan.{strspn_lem}

prefix_length-le : (p : ℕ → Bool) (xs : List ℕ) → prefix_length p xs ≤ length xs
prefix_length-le p [] = omega arith
prefix_length-le p (x ∷ xs) = ground (arith, prefix_length-le p xs)

moved : (m : Memory) (p q : ℕ) (xs : List ℕ) → p ≡ q → IsString m p xs → IsString m q xs
moved m p q xs e s = subst (λ r. IsString m r xs) e s

IsString-drop :
    (n : ℕ) (m : Memory) (p : ℕ) (xs : List ℕ)
    → IsString m p xs
    → n ≤ length xs
    → IsString m (p + n) (drop n xs)
IsString-drop zero m p xs s h = moved m p (p + 0) xs (omega arith) s
IsString-drop (suc n) m p [] s h = absurd (omega arith)
IsString-drop (suc n) m p (x ∷ xs) s h =
    moved m (p + 1 + n) (p + suc n) (drop n xs) (omega arith)
      (IsString-drop n m (p + 1) xs s.3 (omega arith))

-- Writing a 0 after `n` bytes cuts the string there.
IsString-cut :
    (n : ℕ) (m : Memory) (p : ℕ) (xs : List ℕ)
    → IsString m p xs
    → n ≤ length xs
    → IsString (store m (p + n) 0) p (take n xs)
IsString-cut zero m p xs s h = ground arith
IsString-cut (suc n) m p [] s h = absurd (omega arith)
IsString-cut (suc n) m p (x ∷ xs) s h = (
  ground (arith, s.0),
  s.1,
  s.2,
  subst (λ a. IsString (store m a 0) (p + 1) (take n xs)) (omega arith)
      (IsString-cut n m (p + 1) xs s.3 (omega arith)),
)

IsString-store :
    (m : Memory) (a v p : ℕ) (xs : List ℕ) → a < p → IsString m p xs → IsString (store m a v) p xs
IsString-store m a v p [] h s = ground (arith, s)
IsString-store m a v p (x ∷ xs) h s =
    (ground (arith, s.0), s.1, s.2, IsString-store m a v (p + 1) xs (omega arith) s.3)

take_all : (n : ℕ) (xs : List ℕ) → drop n xs ≡ [] → take n xs ≡ xs
take_all zero xs e = sym e
take_all (suc n) [] e = refl
take_all (suc n) (x ∷ xs) e = ap (λ (t : List ℕ). x ∷ t) (take_all n xs e)

drop_past :
    (n : ℕ) (xs : List ℕ) (c : ℕ) (more : List ℕ) → drop n xs ≡ c ∷ more → drop (suc n) xs ≡ more
drop_past zero xs c more e = ap (drop 1) e
drop_past (suc n) [] c more e = cc
drop_past (suc n) (x ∷ xs) c more e = drop_past n xs c more e

-- The token at `q` is the first `k` bytes of `body`, cut off by a 0; the next call starts after
-- it, or finds NULL if nothing is left. No other byte has changed.
pub record IsToken (m : Memory) (q k : ℕ) (body : List ℕ) (result : Option (ℕ × Strtok))
    : Type 0 where
  pub after : Strtok
  pub returns : result ≡ some (q, after)
  pub token : IsString after.memory q (take k body)
  pub next :
      ((after.last ≡ 0) × (drop k body ≡ []))
      ⊎ ((after.last ≡ q + k + 1) × IsString after.memory (q + k + 1) (drop (suc k) body))
  pub others : (a : ℕ) → a ≢ q + k → after.memory a ≡ m a

end_token-IsToken :
    (q k : ℕ) (st : Strtok) (body : List ℕ)
    → IsString st.memory q body
    → k ≤ length body
    → IsToken st.memory q k body (some (end_token q (q + k) st))
end_token-IsToken q k st body s h = go (drop k body) refl (IsString-drop k st.memory q body s h)
  where
    go :
        (left : List ℕ)
        → drop k body ≡ left
        → IsString st.memory (q + k) left
        → IsToken st.memory q k body (some (end_token q (q + k) st))
    go [] e t = record {
      after = record st { last = 0 };
      returns = unfold end_token in ground (arith, t);
      token = subst (IsString st.memory q) (sym (take_all k body e)) s;
      next = inl (refl, e);
      others = λ a ne. refl;
    }
    go (c ∷ more) e t = record {
      after = record { last = q + k + 1; memory = store st.memory (q + k) 0 };
      returns = unfold end_token in ground (arith, t.0, t.1);
      token = IsString-cut k st.memory q body s h;
      next = inr (
        refl,
        subst (IsString (store st.memory (q + k) 0) (q + k + 1)) (sym (drop_past k body c more e))
            (IsString-store st.memory (q + k) 0 (q + k + 1) more (omega arith) t.3),
      );
      others = λ a ne. ground arith;
    }

module _ (fuel : ℕ) (st : Strtok) (delim : ℕ) (chars : List ℕ) (t : IsString st.memory delim chars)
    (nonnull : 0 < delim) (enough : length chars < fuel) where
  -- The length of the token at the front of a string.
  abbrev token_length : List ℕ → ℕ
  token_length body = prefix_length (λ c. not (contains chars c)) body

  take_token-IsToken :
      (q : ℕ) (body : List ℕ)
      → IsString st.memory q body
      → length body < fuel
      → body ≢ []
      → IsToken st.memory q (token_length body) body (take_token fuel q delim st)
  take_token-IsToken q [] s h ne = absurd (ne refl)
  take_token-IsToken q (c ∷ body) s h ne =
      subst (IsToken st.memory q (token_length (c ∷ body)) (c ∷ body)) (sym step) (
        end_token-IsToken q (token_length (c ∷ body)) st (c ∷ body) s
          (prefix_length-le (λ c. not (contains chars c)) (c ∷ body)))
    where
      span : strcspn fuel st.memory q delim ≡ some (token_length (c ∷ body))
      span = (strspn_lem fuel st.memory q delim (c ∷ body) chars s t nonnull h enough).1

      step : take_token fuel q delim st ≡ some (end_token q (q + token_length (c ∷ body)) st)
      step = unfold take_token in ground (arith, s.0, s.1, span)

  take_token_nil :
      (q : ℕ)
      → IsString st.memory q []
      → take_token fuel q delim st ≡ some (0, record st { last = 0 })
  take_token_nil q s = unfold take_token in ground (arith, s)

-- Where `strtok` starts: its argument, or the saved position for NULL.
abbrev pub start_of : ℕ → Strtok → ℕ
start_of str st = if str == 0 then st.last else str

-- What is left of `xs` behind its leading delimiters.
abbrev pub body_of : List ℕ → List ℕ → List ℕ
body_of chars xs = drop (prefix_length (contains chars) xs) xs

-- The token at the front of `body`: up to the first delimiter.
abbrev pub token_size : List ℕ → List ℕ → ℕ
token_size chars body = prefix_length (λ c. not (contains chars c)) body

module _ (fuel str delim : ℕ) (st : Strtok) (xs chars : List ℕ) (start : 0 < start_of str st)
    (s : IsString st.memory (start_of str st) xs) (t : IsString st.memory delim chars)
    (nonnull : 0 < delim) (enough : length xs < fuel) (enough_delim : length chars < fuel) where
  abbrev skipped : ℕ
  skipped = prefix_length (contains chars) xs

  strtok_step : strtok fuel str delim st ≡ take_token fuel (start_of str st + skipped) delim st
  strtok_step =
      unfold strtok in
      ground (
        arith,
        start,
        (strspn_lem fuel st.memory (start_of str st) delim xs chars s t nonnull enough
            enough_delim).0,
      )

  body_at : IsString st.memory (start_of str st + skipped) (body_of chars xs)
  body_at =
      IsString-drop skipped st.memory (start_of str st) xs s (prefix_length-le (contains chars) xs)

  -- On a string of nothing but delimiters, with fuel above both lengths, `strtok` returns NULL and
  -- forgets its position.
  pub strtok_end :
      body_of chars xs ≡ [] → strtok fuel str delim st ≡ some (0, record st { last = 0 })
  strtok_end e =
      strtok_step
      ∙ take_token_nil fuel st delim chars t nonnull enough_delim (start_of str st + skipped)
          (subst (IsString st.memory (start_of str st + skipped)) e body_at)

  -- On a string with another character, with fuel above both lengths, `strtok` returns the address behind the leading delimiters, where it leaves the token
  -- up to the next delimiter as a string of its own, and the next call goes on behind that.
  pub strtok-IsToken :
      body_of chars xs ≢ []
      → IsToken st.memory
          (start_of str st + skipped)
          (token_size chars (body_of chars xs))
          (body_of chars xs)
          (strtok fuel str delim st)
  strtok-IsToken ne =
      subst
        (IsToken st.memory (start_of str st + skipped) (token_size chars (body_of chars xs))
          (body_of chars xs))
        (sym strtok_step)
        (take_token-IsToken fuel st delim chars t nonnull enough_delim (start_of str st + skipped)
          (body_of chars xs) body_at (omega (arith, length-drop skipped xs, enough)) ne)

-- Behind the last token, `strtok` returns NULL.
pub strtok_done :
    (fuel delim : ℕ) (st : Strtok) → st.last ≡ 0 → strtok fuel 0 delim st ≡ some (0, st)
unfolding strtok
strtok_done fuel delim st e = ground (arith, e)
