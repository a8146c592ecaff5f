-- ===== src/Shell/Print.antt =====
-- A line for a command, with every operand in parentheses, and its first tokens.
use computer_system.Prelude.{
  ℕ, suc, ◌≡◌, refl, true, false, not, ◌&&◌, List, [], ◌∷◌, ◌++◌, ◌==◌, if◌then◌else◌, arith,
}
use computer_system.Shell.{
  Cmd, execcmd, redircmd, pipecmd, listcmd, backcmd, whitespace, symbols, strchr, skip_space,
  split_word, token_at, gettoken, peek,
}
use computer_system.Shell.Parse.{parsed, parseargs}
use computer_system.Shell.Words.{is_plain, all_plain, is_word}
use computer_system.Shell.Ends.{all_words}

abbrev pub words_line : List (List ℕ) → List ℕ → List ℕ
words_line [] t = t
words_line (w ∷ ws) t = w ++ b' ' ∷ words_line ws t

abbrev pub operator : ℕ → List ℕ → List ℕ
operator mode t = if mode == 0 then b'<' ∷ t else if mode == 1537 then b'>' ∷ t else b'>' ∷ b'>' ∷ t

-- The line of a command, and t behind it.
abbrev pub line_of : Cmd → List ℕ → List ℕ
line_of (execcmd args) t = words_line args t
line_of (redircmd c file mode fd) t = b'(' ∷ line_of c (b')' ∷ operator mode (file ++ b' ' ∷ t))
line_of (pipecmd l r) t = b'(' ∷ line_of l (b')' ∷ b'|' ∷ b'(' ∷ line_of r (b')' ∷ t))
line_of (listcmd l r) t = b'(' ∷ line_of l (b')' ∷ b';' ∷ b'(' ∷ line_of r (b')' ∷ t))
line_of (backcmd c) t = b'(' ∷ line_of c (b')' ∷ b'&' ∷ t)

-- What may follow the line of a command: the end, or a parenthesis that closes.
pub record IsEnd (t : List ℕ) : Type 0 where
  pub skip : skip_space t ≡ t
  pub no_open : peek t (b'(' ∷ []) ≡ false
  pub no_redir : peek t (b'<' ∷ b'>' ∷ []) ≡ false
  pub no_back : peek t (b'&' ∷ []) ≡ false
  pub no_list : peek t (b';' ∷ []) ≡ false
  pub no_pipe : peek t (b'|' ∷ []) ≡ false
  pub args_end : (n argc : ℕ) (c : Cmd) → parseargs (suc n) c argc t ≡ parsed c t

pub IsEnd-nil : IsEnd []
unfolding skip_space peek strchr parseargs gettoken token_at
IsEnd-nil = record {
  skip = refl;
  no_open = refl;
  no_redir = refl;
  no_back = refl;
  no_list = refl;
  no_pipe = refl;
  args_end = λ n argc c. refl;
}

pub IsEnd-paren : (t : List ℕ) → IsEnd (b')' ∷ t)
unfolding skip_space peek strchr parseargs
IsEnd-paren t = record {
  skip = refl;
  no_open = refl;
  no_redir = refl;
  no_back = refl;
  no_list = refl;
  no_pipe = refl;
  args_end = λ n argc c. refl;
}

-- Before the words of a command.
pub record IsFront (t : List ℕ) : Type 0 where
  pub skip : skip_space t ≡ t
  pub no_open : peek t (b'(' ∷ []) ≡ false
  pub no_redir : peek t (b'<' ∷ b'>' ∷ []) ≡ false

pub plain-IsFront :
    (c : ℕ) (x : List ℕ)
    → is_plain c ≡ true
    → IsFront (c ∷ x) × (peek (c ∷ x) (b'|' ∷ b')' ∷ b'&' ∷ b';' ∷ []) ≡ false)
unfolding skip_space peek strchr
plain-IsFront c x h =
    let space : strchr whitespace c ≡ false = ground (arith, h) in
    (
      record {
        skip = rw space refl;
        no_open = rw space (ground (arith, h));
        no_redir = rw space (ground (arith, h));
      },
      rw space (ground (arith, h)),
    )

pub words_line-IsFront :
    (ws : List (List ℕ)) (t : List ℕ) → all_words ws ≡ true → IsEnd t → IsFront (words_line ws t)
words_line-IsFront [] t h e = record { skip = e.skip; no_open = e.no_open; no_redir = e.no_redir }
words_line-IsFront ([] ∷ ws) t h e = ground (arith, h)
words_line-IsFront ((c ∷ w) ∷ ws) t h e = (plain-IsFront c _ (ground (arith, h))).0

split_word_lem : (w r : List ℕ) → all_plain w ≡ true → split_word (w ++ b' ' ∷ r) ≡ (w, b' ' ∷ r)
unfolding split_word strchr
split_word_lem [] r h = refl
split_word_lem (c ∷ w) r h =
    let plain : (not (strchr whitespace c) && not (strchr symbols c)) ≡ true = ground (arith, h) in
    let ih = split_word_lem w r (ground (arith, h)) in rw (plain, ih) refl

-- A word and the space behind it.
pub gettoken-word :
    (w r : List ℕ)
    → is_word w ≡ true
    → gettoken (w ++ b' ' ∷ r) ≡ record { ret = b'a'; text = w; rest = skip_space r }
unfolding gettoken token_at skip_space strchr
gettoken-word [] r h = ground (arith, h)
gettoken-word (c ∷ w) r h =
    let space : strchr whitespace c ≡ false = ground (arith, h) in
    let sym_no : strchr symbols c ≡ false = ground (arith, h) in
    let nul : (c == 0) ≡ false = ground (arith, h) in
    let gt : (c == b'>') ≡ false = ground (arith, h) in
    let split = split_word_lem w r (ground (arith, h)) in
    rw (space, nul, gt, sym_no, split, space) refl
