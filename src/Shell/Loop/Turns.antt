-- ===== src/Shell/Loop/Turns.antt =====
-- From one prompt of the shell to the next.
use olympos.Prelude.{ℕ, ◌≤◌, ◌<◌, List, [], ◌∷◌, ◌++◌, length, ◌≡◌, ◌≢◌, inl, inr, ap, ◌∙◌, arith}
use mathlib.Core.List.{reverse}
use olympos.Kheap.{Kheap, kmalloc, kfree}
use olympos.Kheap.Alloc.{user_address}
use olympos.Libc.Itoa.{codes}
use olympos.Libc.Strings.{◌>>=◌}
use olympos.Libc.Strings.Text.{IsString}
use olympos.Shell.{
  Shell, Literals, shell_execute, Turn, status, freed, free_both, run_line, take_line, prompted,
  shell_turn,
}
use olympos.Shell.Editor.{AreTyped, typed_line, input_line-Entered}
use olympos.Shell.Execute.{HasNames, Returns, shows, shell_execute_lem}
use olympos.Shell.Loop.{AtPrompt, delimiters, prompt-fits, first_argument, taken, frees}
use olympos.Shell.Parse.{IsString-kept, parse_line_lem}
use olympos.Shell.Split.{words, length-words, words-AreShort}

-- A turn that came back to the prompt, with these keys left.
pub record BackAtPrompt (l : Literals) (base : ℕ) (keys : List ℕ) (result : Turn) : Type 0 where
  pub after : Shell
  pub returns : result ≡ status 1 after
  pub prompt : AtPrompt l base after
  pub left : after.keys ≡ keys

executed :
    (f args : ℕ) (l : Literals) (q : Shell) (name : List ℕ)
    → HasNames q l
    → (q.kheap.memory args ≢ 0 → IsString q.tokens.memory (q.kheap.memory args) name)
    → length name < f
    → length name ≤ 1023
    → Returns q (shell_execute f l args q)
executed f args l q name v named enough short =
    elim (shell_execute_lem f args l q name v named enough (omega (arith, short))) [
      | inl z ↦ record { screen = q.terminal; returns = z.1 }
      | inr z ↦ z.0
    ]

-- In the shell at its prompt, with fuel above 1024: every line of keys that are nonzero bytes, up to
-- Enter, is read, split, run and freed, and the shell is at its prompt again with status 1, with an
-- empty heap in order and with just the keys behind Enter left.
pub shell_turn-BackAtPrompt :
    (f : ℕ) (l : Literals) (base : ℕ) (s : Shell) (keys rest : List ℕ)
    → 1024 < f
    → AtPrompt l base s
    → AreTyped keys
    → s.keys ≡ keys ++ 10 ∷ rest
    → BackAtPrompt l base rest (shell_turn f l s)
unfolding shell_turn
shell_turn-BackAtPrompt f l base s keys rest fuel p typed e =
    let (screen, shown) = shows (codes "$ ") [] s prompt-fits in
    let t = taken s.kheap p.heap in
    let line = user_address s.kheap t.line.start in
    let array = user_address t.line.after t.array.start in
    let i =
      input_line-Entered (record s { terminal = screen }) line t.line.after keys rest t.line.returns
        (omega arith) typed e in
    let text = reverse (typed_line [] keys) in
    let kept : (bound : ℕ)
        → bound ≤ base
        → (a : ℕ) → a < bound
        → i.after.tokens.memory a ≡ s.tokens.memory a =
      λ bound h a k. i.outside a (inl (omega (arith, p.starts))) in
    let q =
      parse_line_lem f l.delim line i.after array t.array.after delimiters text
        (ap (kmalloc 256) i.heap ∙ t.array.returns) (omega arith) p.nonnull
        (omega (arith, p.delim_below, p.starts)) (omega arith) (omega (arith, i.short)) i.text
        (IsString-kept s.tokens.memory i.after.tokens.memory l.delim base delimiters
          (kept base (omega arith)) p.delim_below p.delim) in
    let same : (a : ℕ) → a < base → q.after.tokens.memory a ≡ s.tokens.memory a =
      λ a h. q.below a (omega (arith, p.starts)) ∙ kept base (omega arith) a h in
    let clear =
      IsString-kept s.tokens.memory q.after.tokens.memory l.clear base (codes "clear") same
        p.clear_below p.clear in
    let help =
      IsString-kept s.tokens.memory q.after.tokens.memory l.help base (codes "help") same
        p.help_below p.help in
    let delim =
      IsString-kept s.tokens.memory q.after.tokens.memory l.delim base delimiters same p.delim_below
        p.delim in
    let (name, short, named) =
      first_argument q.after.tokens.memory q.after.kheap.memory array (length text)
        (words delimiters text) q.array (words-AreShort delimiters text) in
    let r =
      executed f array l q.after name (record { clear = clear; help = help }) named
        (omega (arith, short, i.short)) (omega (arith, short, i.short)) in
    let (after, gone, held, start) =
      frees s.kheap t q.after.kheap.memory
        (λ a h. q.kept_words a (ground (arith, h, length-words delimiters text, i.short))) in
    record {
      after = record q.after { kheap = after; terminal = r.screen };
      returns =
          ap (prompted f l) shown
          ∙ ap (take_line f l) i.returns
          ∙ ap (run_line f l line) q.returns
          ∙ ap (free_both line array) r.returns
          ∙ ap
              (λ (h : Kheap).
                freed 1 (record q.after { terminal = r.screen }) (kfree line h >>= kfree array))
              q.heap
          ∙ ap (freed 1 (record q.after { terminal = r.screen })) gone;
      prompt = record {
        heap = held;
        starts = start ∙ p.starts;
        clear = clear;
        help = help;
        delim = delim;
        nonnull = p.nonnull;
        clear_below = p.clear_below;
        help_below = p.help_below;
        delim_below = p.delim_below;
      };
      left = q.left ∙ i.left;
    }
