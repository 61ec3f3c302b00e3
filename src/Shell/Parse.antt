-- ===== src/Shell/Parse.antt =====
-- The array of arguments that `parse_line` makes of a line.
use olympos.Prelude.{
  skips, ℕ, zero, suc, ◌+◌, ◌*◌, ◌≤◌, ◌<◌, false, Option, none, some, List, [], ◌∷◌, length, take,
  drop, length-take, length-drop, ◌==◌, Memory, store, ◌≡◌, ◌≢◌, ◌⊎◌, inl, inr, refl, sym, ap, ◌∙◌,
  subst, arith,
}
use olympos.Kheap.{Kheap, kmalloc}
use olympos.Libc.Strings.{Strtok, strtok, ◌>>=◌}
use olympos.Libc.Strings.Text.{IsString, contains, prefix_length}
use olympos.Libc.Strings.Tokens.{
  start_of, body_of, token_size, strtok_end, strtok-IsToken, strtok_done,
}
use olympos.Shell.{shell_tok_bufsize, sizeof_pointer, Shell, parse_from, with_tokens, parse_line}
use olympos.Shell.Split.{words, words-body_of, body_starts, words-first}

-- The pointers from a position of the array on are those of the words, with NULL behind them.
abbrev pub IsArray : Memory → Memory → ℕ → ℕ → List (List ℕ) → Type 0
IsArray m w tokens position [] = w (tokens + sizeof_pointer * position) ≡ 0
IsArray m w tokens position (x ∷ xs) =
    (w (tokens + sizeof_pointer * position) ≢ 0)
    × IsString m (w (tokens + sizeof_pointer * position)) x
    × IsArray m w tokens (position + 1) xs

pub IsString-kept :
    (m m' : Memory) (p bound : ℕ) (xs : List ℕ)
    → ((a : ℕ) → a < bound → m' a ≡ m a)
    → p + length xs < bound
    → IsString m p xs
    → IsString m' p xs
IsString-kept m m' p bound [] k h s = k p (omega arith) ∙ s
IsString-kept m m' p bound (x ∷ xs) k h s =
    (k p (omega arith) ∙ s.0, s.1, s.2, IsString-kept m m' (p + 1) bound xs k (omega arith) s.3)

-- What the loop makes of a text that starts at `start`: the array of its words from a position on. Nothing below
-- the text and nothing of the array below the position has changed, nor the words behind its end.
record Parsed (chars text : List ℕ) (start tokens position : ℕ) (m w : Memory)
    (result : Option (Memory × Strtok)) : Type 0 where
  after_words : Memory
  after : Strtok
  returns : result ≡ some (after_words, after)
  array : IsArray after.memory after_words tokens position (words chars text)
  kept : (a : ℕ) → a < start → after.memory a ≡ m a
  kept_words :
      (a : ℕ)
      → (a < tokens + sizeof_pointer * position)
        ⊎ (tokens + sizeof_pointer * (position + length (words chars text)) < a)
      → after_words a ≡ w a

module _ (f delim tokens : ℕ) (chars : List ℕ) where
  -- The next call of `strtok`, and the loop from there on.
  abbrev go : ℕ → ℕ → ℕ → Memory → Strtok → Option (Memory × Strtok)
  go n str position w st =
      strtok f str delim st >>= (λ r. parse_from n f delim tokens position r.0 w r.1)

  stops :
      (n position : ℕ) (w : Memory) (st : Strtok)
      → 0 < n
      → parse_from n f delim tokens position 0 w st
        ≡ some (store w (tokens + sizeof_pointer * position) 0, st)
  unfolding parse_from
  stops zero position w st h = absurd (omega arith)
  stops (suc n) position w st h = refl

  goes_on :
      (n position token : ℕ) (w : Memory) (st : Strtok)
      → token ≢ 0
      → parse_from (suc n) f delim tokens position token w st
        ≡ go n 0 (position + 1) (store w (tokens + sizeof_pointer * position) token) st
  unfolding parse_from
  goes_on n position token w st h =
      skips (token == 0) _
        (go n 0 (position + 1) (store w (tokens + sizeof_pointer * position) token) st)
        (ground arith)

  own : (w : Memory) (a v : ℕ) → store w a v a ≡ v
  own w a v = ground arith

  other : (w : Memory) (a v b : ℕ) → a ≢ b → store w a v b ≡ w b
  other w a v b h = ground arith

  -- With no word left, the loop ends.
  ended :
      (n str position start : ℕ) (w : Memory) (st st' : Strtok) (text : List ℕ)
      → 0 < n
      → words chars text ≡ []
      → strtok f str delim st ≡ some (0, st')
      → st'.memory ≡ st.memory
      → Parsed chars text start tokens position st.memory w (go n str position w st)
  ended n str position start w st st' text h none_left e same =
      let a = tokens + sizeof_pointer * position in
      record {
        after_words = store w a 0;
        after = st';
        returns =
            ap
              (λ (o : Option (ℕ × Strtok)).
                o >>= (λ r. parse_from n f delim tokens position r.0 w r.1))
              e
            ∙ stops n position w st' h;
        array =
            subst (IsArray st'.memory (store w a 0) tokens position) (sym none_left) (own w a 0);
        kept = λ b l. ap (λ (m : Memory). m b) same;
        kept_words = λ b l. other w a 0 b (ground (arith, l, ap length none_left));
      }

  -- A word more: the array behind it is that of the rest.
  one_more :
      (n str position start q k : ℕ) (w : Memory) (st st' : Strtok) (text rest word : List ℕ)
      → 0 < q
      → start ≤ q
      → words chars text ≡ word ∷ words chars rest
      → strtok f str delim st ≡ some (q, st')
      → IsString st'.memory q word
      → length word ≤ k
      → ((a : ℕ) → a ≢ q + k → st'.memory a ≡ st.memory a)
      → Parsed chars rest
          (q + k + 1)
          tokens
          (position + 1)
          st'.memory
          (store w (tokens + sizeof_pointer * position) q)
          (go n 0 (position + 1) (store w (tokens + sizeof_pointer * position) q) st')
      → Parsed chars text start tokens position st.memory w (go (suc n) str position w st)
  one_more n str position start q k w st st' text rest word pos above split e token fits others
        later =
      let slot = tokens + sizeof_pointer * position in
      let at : later.after_words slot ≡ q =
        later.kept_words slot (inl (omega arith)) ∙ own w slot q in
      let size : length (words chars text) ≡ suc (length (words chars rest)) = ap length split in
      record {
        after_words = later.after_words;
        after = later.after;
        returns =
            ap
              (λ (o : Option (ℕ × Strtok)).
                o >>= (λ r. parse_from (suc n) f delim tokens position r.0 w r.1))
              e
            ∙ goes_on n position q w st' (omega arith)
            ∙ later.returns;
        array = subst (IsArray later.after.memory later.after_words tokens position) (sym split) (
          (λ z. absurd (omega (arith, z, at))),
          subst (λ p. IsString later.after.memory p word) (sym at)
              (IsString-kept st'.memory later.after.memory q (q + k + 1) word later.kept
                (omega arith) token),
          later.array,
        );
        kept = λ a l. later.kept a (omega arith) ∙ others a (omega arith);
        kept_words = λ a l.
            later.kept_words a (ground (arith, l, size))
            ∙ other w slot q a (ground (arith, l, size));
      }

drop_more : (k : ℕ) (xs : List ℕ) → drop k xs ≡ [] → drop (suc k) xs ≡ []
drop_more zero [] e = refl
drop_more zero (x ∷ xs) e = cc
drop_more (suc k) [] e = refl
drop_more (suc k) (x ∷ xs) e = drop_more k xs e

module _ (f delim tokens : ℕ) (chars : List ℕ) (nonnull : 0 < delim)
    (enough_delim : length chars < f) where
  parse-Parsed :
      (n str position : ℕ) (w : Memory) (st : Strtok) (text : List ℕ)
      → length text < n
      → length text < f
      → delim + length chars < start_of str st
      → IsString st.memory (start_of str st) text
      → IsString st.memory delim chars
      → Parsed chars text
          (start_of str st)
          tokens
          position
          st.memory
          w
          (go f delim tokens chars n str position w st)
  parse-Parsed zero str position w st text h enough below s t = absurd (omega arith)
  parse-Parsed (suc n) str position w st text h enough below s t = elim (body_starts chars text) [
    | inl e ↦
        ended f delim tokens chars (suc n) str position (start_of str st) w st _ text (omega arith)
          (words-body_of chars text ∙ ap (words chars) e)
          (strtok_end f str delim st text chars (omega arith) s t nonnull enough enough_delim e)
          refl
    | inr (c, more, e, apart) ↦
        let token =
          strtok-IsToken f str delim st text chars (omega arith) s t nonnull enough enough_delim
            (λ z. absurd (cc (z, e))) in
        let k = token_size chars (body_of chars text) in
        let q = start_of str st + prefix_length (contains chars) text in
        let body = body_of chars text in
        let split : words chars text ≡ take k body ∷ words chars (drop (suc k) body) =
          words-body_of chars text
          ∙ subst
              (λ b.
                words chars b
                ≡ take (token_size chars b) b ∷ words chars (drop (suc (token_size chars b)) b))
              (sym e) (words-first chars c more apart) in
        let size = length-drop (prefix_length (contains chars) text) text in
        let some_left : length body ≡ suc (length more) = ap length e in
        let less = length-drop (suc k) body in
        let w' : Memory = store w (tokens + sizeof_pointer * position) q in
        one_more f delim tokens chars n str position (start_of str st) q k w st token.after text
          (drop (suc k) body) (take k body) (omega arith) (omega arith) split token.returns
          token.token (omega (arith, length-take k body)) token.others
          (elim token.next [
            | inl z ↦
                ended f delim tokens chars n 0 (position + 1) (q + k + 1) _ token.after token.after
                  (drop (suc k) body) (omega (arith, size, some_left))
                  (ap (words chars) (drop_more k body z.1)) (strtok_done f delim token.after z.0)
                  refl
            | inr z ↦
                subst
                  (λ a.
                    Parsed chars (drop (suc k) body) a tokens (position + 1) token.after.memory w'
                      (go f delim tokens chars n 0 (position + 1) w' token.after))
                  z.0
                  (parse-Parsed n 0 (position + 1) w' token.after (drop (suc k) body)
                    (omega (arith, size, some_left, less)) (omega (arith, size, some_left, less))
                    (omega (arith, z.0))
                    (subst (λ a. IsString token.after.memory a (drop (suc k) body)) (sym z.0) z.1)
                    (IsString-kept st.memory token.after.memory delim (start_of str st) chars
                      (λ a l. token.others a (omega arith)) below t))
          ])
  ]

started : (line : ℕ) (st : Strtok) → 0 < line → start_of line st ≡ line
started line st h = ground arith

bind_assoc :
    {A B C : Type 0} (o : Option A) (g : A → Option B) (h : B → Option C)
    → (o >>= (λ a. g a >>= h)) ≡ (o >>= g >>= h)
bind_assoc none g h = refl
bind_assoc (some a) g h = refl

abbrev filled : ℕ → Shell → Kheap → Memory × Strtok → Option (ℕ × Shell)
filled tokens s kheap after =
    some (tokens, record s { kheap = record kheap { memory = after.0 }; tokens = after.1 })

got_tokens :
    (f delim line tokens : ℕ) (s : Shell) (kheap : Kheap)
    → tokens ≢ 0
    → with_tokens f delim line s (some (tokens, kheap)) ≡ (
        strtok f line delim s.tokens >>= (λ first.
          parse_from f f delim tokens 0 first.0 kheap.memory first.1 >>= filled tokens s kheap))
got_tokens f delim line tokens s kheap nz =
    let z : (tokens == 0) ≡ false = ground arith in rw z refl

-- The array of the words of a line, and what `parse_line` leaves alone.
pub record ParsedLine (s : Shell) (line tokens : ℕ) (kheap : Kheap) (arguments : List (List ℕ))
    (result : Option (ℕ × Shell)) : Type 0 where
  pub after : Shell
  pub returns : result ≡ some (tokens, after)
  pub array : IsArray after.tokens.memory after.kheap.memory tokens 0 arguments
  pub kept_words :
      (a : ℕ)
      → (a < tokens) ⊎ (tokens + 4 * length arguments < a)
      → after.kheap.memory a ≡ kheap.memory a
  pub heap : after.kheap ≡ record kheap { memory = after.kheap.memory }
  pub below : (a : ℕ) → a < line → after.tokens.memory a ≡ s.tokens.memory a
  pub left : after.keys ≡ s.keys

pub parse_line_lem :
    (f delim line : ℕ) (s : Shell) (tokens : ℕ) (kheap : Kheap) (chars text : List ℕ)
    → kmalloc (shell_tok_bufsize * sizeof_pointer) s.kheap ≡ some (tokens, kheap)
    → tokens ≢ 0
    → 0 < delim
    → delim + length chars < line
    → length chars < f
    → length text < f
    → IsString s.tokens.memory line text
    → IsString s.tokens.memory delim chars
    → ParsedLine s line tokens kheap (words chars text) (parse_line f delim line s)
unfolding parse_line
parse_line_lem f delim line s tokens kheap chars text got nz nonnull below enough_delim enough st
      t =
    let at : start_of line s.tokens ≡ line = started line s.tokens (omega arith) in
    let p =
      parse-Parsed f delim tokens chars nonnull enough_delim f line 0 kheap.memory s.tokens text
        enough enough (omega (arith, at)) (subst (λ a. IsString s.tokens.memory a text) (sym at) st)
        t in
    record {
      after = record s { kheap = record kheap { memory = p.after_words }; tokens = p.after };
      returns =
          ap (with_tokens f delim line s) got
          ∙ got_tokens f delim line tokens s kheap nz
          ∙ bind_assoc (strtok f line delim s.tokens)
              (λ first. parse_from f f delim tokens 0 first.0 kheap.memory first.1) _
          ∙ ap (λ o. o >>= filled tokens s kheap) p.returns;
      array = p.array;
      kept_words = λ a h. p.kept_words a (ground (arith, h));
      heap = refl;
      below = λ a h. p.kept a (omega (arith, h, at));
      left = refl;
    }
