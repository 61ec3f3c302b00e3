-- ===== src/Shell/Execute.antt =====
-- Which command a line runs, and that each comes back.
use olympos.Prelude.{
  ℕ, zero, suc, ◌+◌, ◌≤◌, ◌++◌, false, Memory, length-append, true, Option, some, List, [], ◌∷◌,
  ◌<◌, length, ◌==◌, if◌then◌else◌, ◌≡◌, ◌≢◌, ◌⊎◌, inl, inr, refl, sym, ap, ◌∙◌, subst, arith, ℤ,
  Bool-cases,
}
use olympos.Libc.Itoa.{codes}
use olympos.Libc.Itoa.Value.{magnitude, magnitude-zero}
use olympos.Libc.Stdio.{Argument, text, int_max}
use olympos.Libc.Stdio.Render.{render_at, signed_text}
use olympos.Libc.Stdio.Complete.{printf_returns, printf_prints}
use olympos.Libc.Stdio.Render.Typed.{fits_at, fits}
use olympos.Libc.Strings.{◌>>=◌}
use olympos.Libc.Strings.Text.{IsString}
use olympos.Libc.Strings.Scan.{
  first_difference, strcmp_lem, first_difference-zero, first_difference_self,
}
use olympos.Terminal.{Terminal, terminal_initialize, terminal_write}
use olympos.Shell.{
  Shell, Literals, takes_all, shown, show, string_at, shell_clear, shell_help, builtins,
  execute_from, shell_execute,
}

-- A command came back with status 1, and has changed nothing but the screen.
pub record Returns (s : Shell) (result : Option (ℕ × Shell)) : Type 0 where
  pub screen : Terminal
  pub returns : result ≡ some (1, record s { terminal = screen })

pub shows :
    (format : List ℕ) (args : List Argument) (s : Shell)
    → fits format args ≡ true
    → (screen : Terminal) × (show format args s ≡ some (record s { terminal = screen }))
shows format args s h =
    let (r, e) = printf_returns takes_all (λ out c. refl) format args [] h in (_, ap (shown s) e)

shell_clear-Returns : (s : Shell) → Returns s (shell_clear s)
unfolding shell_clear
shell_clear-Returns s = record { screen = terminal_initialize s.terminal; returns = refl }

behind_show :
    (format : List ℕ) (args : List Argument) (s : Shell) (f : Shell → Option (ℕ × Shell))
    → fits format args ≡ true
    → ((screen : Terminal) → Returns s (f (record s { terminal = screen })))
    → Returns s (show format args s >>= f)
behind_show format args s f h k =
    let (screen, e) = shows format args s h in subst (λ o. Returns s (o >>= f)) (sym e) (k screen)

header-fits : fits (codes "Available commands:\n") [] ≡ true
unfolding fits_at
header-fits = refl

entry-fits : (t : List ℕ) → fits (codes "  %s\n") (text t ∷ []) ≡ true
unfolding fits_at
entry-fits t = refl

unknown-fits : (t : List ℕ) → fits (codes "%s: command not found\n") (text t ∷ []) ≡ true
unfolding fits_at
unknown-fits t = refl

shell_help-Returns : (s : Shell) → Returns s (shell_help s)
unfolding shell_help
shell_help-Returns s = behind_show _ _ s _ header-fits (λ a. later s.terminal a (
    behind_show _ _ (record s { terminal = a }) _ (entry-fits (codes "clear"))
      (λ b. later a b (
        behind_show _ _ (record s { terminal = b }) _ (entry-fits (codes "help"))
          (λ c. record { screen = c; returns = refl })))))
  where
    later :
        (t a : Terminal) {o : Option (ℕ × Shell)}
        → Returns (record s { terminal = a }) o
        → Returns (record s { terminal = t }) o
    later t a r = record { screen = r.screen; returns = r.returns }

module _ (f : ℕ) (s : Shell) (p q : ℕ) (xs ys : List ℕ) (str_p : IsString s.tokens.memory p xs)
    (str_q : IsString s.tokens.memory q ys) (enough : length xs < f)
    (command : Shell → Option (ℕ × Shell)) (rest : List (ℕ × (Shell → Option (ℕ × Shell)))) where
  compared :
      execute_from f p ((q, command) ∷ rest) s
      ≡ (if magnitude (first_difference xs ys) == 0 then command s else execute_from f p rest s)
  unfolding execute_from
  compared =
      ap
        (λ (o : Option ℤ).
          o >>= (λ d. if magnitude d == 0 then command s else execute_from f p rest s))
        (strcmp_lem f s.tokens.memory p q xs ys str_p str_q enough)

  runs : xs ≡ ys → execute_from f p ((q, command) ∷ rest) s ≡ command s
  runs e =
      compared
      ∙ ap (λ (d : ℤ). if magnitude d == 0 then command s else execute_from f p rest s)
          (ap (λ (zs : List ℕ). first_difference xs zs) (sym e) ∙ first_difference_self xs)

  same_or_not : (xs ≡ ys) ⊎ (xs ≢ ys)
  same_or_not = elim (Bool-cases (magnitude (first_difference xs ys) == 0)) [
    | inl z ↦ inl (
        first_difference-zero s.tokens.memory p q xs ys str_p str_q
          (magnitude-zero (first_difference xs ys) (ground arith)))
    | inr z ↦ inr (λ e.
        let d : magnitude (first_difference xs ys) ≡ 0 =
          ap (λ (zs : List ℕ). magnitude (first_difference xs zs)) (sym e)
          ∙ ap magnitude (first_difference_self xs) in
        ground arith)
  ]

  passes : xs ≢ ys → execute_from f p ((q, command) ∷ rest) s ≡ execute_from f p rest s
  passes ne = elim (Bool-cases (magnitude (first_difference xs ys) == 0)) [
    | inl z ↦ absurd (
        ne (
          first_difference-zero s.tokens.memory p q xs ys str_p str_q
            (magnitude-zero (first_difference xs ys) (ground arith))))
    | inr z ↦ compared ∙ rw z refl
  ]

not_found : (f p : ℕ) (s : Shell) → Returns s (execute_from f p [] s)
unfolding execute_from
not_found f p s =
    behind_show _ _ s _ (unknown-fits (string_at f s.tokens.memory p))
      (λ a. record { screen = a; returns = refl })

string_at-IsString :
    (f : ℕ) (m : Memory) (p : ℕ) (xs : List ℕ)
    → IsString m p xs
    → length xs < f
    → string_at f m p ≡ xs
unfolding string_at
string_at-IsString zero m p xs str h = absurd (omega arith)
string_at-IsString (suc f) m p [] str h = rw str refl
string_at-IsString (suc f) m p (x ∷ xs) str h =
    let z : (x == 0) ≡ false = ground (arith, str.1) in
    rw (str.0, z) (ap (λ ys. x ∷ ys) (string_at-IsString f m (p + 1) xs str.3 (omega arith)))

-- What the shell prints for a word that is no command.
abbrev pub complaint : List ℕ → List ℕ
complaint name = name ++ codes ": command not found\n"

complaint-stands :
    (name : List ℕ)
    → signed_text (codes "%s: command not found\n") (text name ∷ []) ≡ some (complaint name)
unfolding render_at
complaint-stands name = refl

complains :
    (f p : ℕ) (s : Shell) (name : List ℕ)
    → IsString s.tokens.memory p name
    → length name < f
    → length name + 20 ≤ int_max
    → execute_from f p [] s
      ≡ some (1, record s { terminal = terminal_write (complaint name) s.terminal })
unfolding execute_from
complains f p s name str enough short =
    let size = length-append name (codes ": command not found\n") in
    ap
      (λ (t : List ℕ).
        show (codes "%s: command not found\n") (text t ∷ []) s >>= (λ s. some (1, s)))
      (string_at-IsString f s.tokens.memory p name str enough)
    ∙ ap (λ (o : Option (ℤ × List ℕ)). shown s o >>= (λ s. some (1, s)))
        (printf_prints takes_all (λ out c. refl) (codes "%s: command not found\n") (text name ∷ [])
          [] (complaint name) (complaint-stands name) (omega (arith, size, short)))

-- The names of the commands stand in memory.
pub record HasNames (s : Shell) (l : Literals) : Type 0 where
  pub clear : IsString s.tokens.memory l.clear (codes "clear")
  pub help : IsString s.tokens.memory l.help (codes "help")

-- What a line's first word does.
abbrev pub Runs : ℕ → Shell → List ℕ → Option (ℕ × Shell) → Type 0
Runs f s name result =
    Returns s result
    × (name ≡ codes "clear" → result ≡ shell_clear s)
    × (name ≡ codes "help" → result ≡ shell_help s)
    × (name ≢ codes "clear"
        → name ≢ codes "help"
        → result ≡ some (1, record s { terminal = terminal_write (complaint name) s.terminal }))

clear-ne-help : codes "clear" ≢ codes "help"
clear-ne-help e = cc

execute_from-Runs :
    (f : ℕ) (s : Shell) (l : Literals) (p : ℕ) (name : List ℕ)
    → HasNames s l
    → IsString s.tokens.memory p name
    → length name < f
    → length name + 20 ≤ int_max
    → Runs f s name (execute_from f p (builtins l) s)
execute_from-Runs f s l p name v str enough short =
    elim (same_or_not f s p l.clear name (codes "clear") str v.clear enough shell_clear (later l)) [
      | inl e ↦
          let r =
            runs f s p l.clear name (codes "clear") str v.clear enough shell_clear (later l) e in
          (
            subst (Returns s) (sym r) (shell_clear-Returns s),
            λ z. r,
            λ z. absurd (clear-ne-help (sym e ∙ z)),
            λ z w. absurd (z e),
          )
      | inr ne ↦
          let skip =
            passes f s p l.clear name (codes "clear") str v.clear enough shell_clear (later l) ne in
          elim (same_or_not f s p l.help name (codes "help") str v.help enough shell_help []) [
            | inl e ↦
                let r =
                  skip ∙ runs f s p l.help name (codes "help") str v.help enough shell_help [] e in
                (
                  subst (Returns s) (sym r) (shell_help-Returns s),
                  λ z. absurd (ne z),
                  λ z. r,
                  λ z w. absurd (w e),
                )
            | inr no_help ↦
                let r =
                  skip
                  ∙ passes f s p l.help name (codes "help") str v.help enough shell_help []
                      no_help in
                (
                  subst (Returns s) (sym r) (not_found f p s),
                  λ z. absurd (ne z),
                  λ z. absurd (no_help z),
                  λ z w. r ∙ complains f p s name str enough short,
                )
          ]
    ]
  where
    later : Literals → List (ℕ × (Shell → Option (ℕ × Shell)))
    later l = (l.help, shell_help) ∷ []

-- A line whose first word is a terminated string, shorter than the fuel and than what an int counts,
-- runs `clear` or `help` if that is the word, and for any other word prints the word with
-- ": command not found". Every line, the empty one too, comes back with status 1 and with the heap, the
-- keys and the strings as they were.
pub shell_execute_lem :
    (f args : ℕ) (l : Literals) (s : Shell) (name : List ℕ)
    → HasNames s l
    → (s.kheap.memory args ≢ 0 → IsString s.tokens.memory (s.kheap.memory args) name)
    → length name < f
    → length name + 20 ≤ int_max
    → ((s.kheap.memory args ≡ 0) × (shell_execute f l args s ≡ some (1, s)))
      ⊎ Runs f s name (shell_execute f l args s)
unfolding shell_execute
shell_execute_lem f args l s name v str enough short =
    elim (Bool-cases (s.kheap.memory args == 0)) [
      | inl z ↦ inl (ground arith, rw z refl)
      | inr z ↦
          let r : shell_execute f l args s ≡ execute_from f (s.kheap.memory args) (builtins l) s =
            rw z refl in
          inr (
            subst (Runs f s name) (sym r) (
              execute_from-Runs f s l (s.kheap.memory args) name v (str (ground arith)) enough
                short))
    ]
