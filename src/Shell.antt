-- ===== src/Shell.antt =====
-- user/sh.c: the words and symbols of a command line. A string is the list of its bytes before the NUL,
-- so that *s is 0 at its end; a word is the bytes between q and eq, what nulterminate makes of it.
pub mod Parse
pub mod Words
pub mod Ends
pub mod Total
pub mod Print
pub mod Loops
pub mod Levels
pub mod Round
mod Tests
use computer_system.Prelude.{
  ℕ, Bool, true, false, not, ◌&&◌, ◌||◌, List, [], ◌∷◌, ◌==◌, if◌then◌else◌,
}

-- MAXARGS
abbrev pub max_args : ℕ
max_args = 10

-- struct execcmd, redircmd, pipecmd, listcmd and backcmd; argv up to its null pointer, and file as a word.
pub data Cmd : Type 0 where
  execcmd : List (List ℕ) → Cmd
  redircmd : Cmd → List ℕ → ℕ → ℕ → Cmd
  pipecmd : Cmd → Cmd → Cmd
  listcmd : Cmd → Cmd → Cmd
  backcmd : Cmd → Cmd

abbrev pub whitespace : List ℕ
whitespace = b' ' ∷ b'\t' ∷ b'\r' ∷ b'\n' ∷ 11 ∷ []

abbrev pub symbols : List ℕ
symbols = b'<' ∷ b'|' ∷ b'>' ∷ b'&' ∷ b';' ∷ b'(' ∷ b')' ∷ []

-- Whether strchr of user/ulib.c finds the byte.
unfoldable pub strchr : List ℕ → ℕ → Bool
strchr [] c = false
strchr (x ∷ s) c = x == c || strchr s c

-- while(s < es && strchr(whitespace, *s)) s++;
unfoldable pub skip_space : List ℕ → List ℕ
skip_space [] = []
skip_space (c ∷ s) = if strchr whitespace c then skip_space s else c ∷ s

-- while(s < es && !strchr(whitespace, *s) && !strchr(symbols, *s)) s++;
unfoldable pub split_word : List ℕ → List ℕ × List ℕ
split_word [] = ([], [])
split_word (c ∷ s) =
    let (word, rest) = split_word s in
    if not (strchr whitespace c) && not (strchr symbols c) then (c ∷ word, rest) else ([], c ∷ s)

-- What gettoken returns, the bytes from *q to *eq, and *ps.
pub record Token : Type 0 where
  pub ret : ℕ
  pub text : List ℕ
  pub rest : List ℕ

abbrev pub after_gt : List ℕ → Token
after_gt [] = record { ret = b'>'; text = b'>' ∷ []; rest = [] }
after_gt (c ∷ s) =
    if c == b'>'
    then record { ret = b'+'; text = b'>' ∷ b'>' ∷ []; rest = s }
    else record { ret = b'>'; text = b'>' ∷ []; rest = c ∷ s }

-- switch(*s); the other cases of the switch are the other bytes of symbols.
unfoldable pub token_at : List ℕ → Token
token_at [] = record { ret = 0; text = []; rest = [] }
token_at (c ∷ s) =
    let (word, rest) = split_word (c ∷ s) in
    if c == 0
    then record { ret = 0; text = []; rest = c ∷ s }
    else if c == b'>'
    then after_gt s
    else if strchr symbols c
    then record { ret = c; text = c ∷ []; rest = s }
    else record { ret = b'a'; text = word; rest = rest }

unfoldable pub gettoken : List ℕ → Token
unfolding token_at skip_space split_word strchr
gettoken s = let t = token_at (skip_space s) in record t { rest = skip_space t.rest }

-- *s
abbrev pub first : List ℕ → ℕ
first [] = 0
first (c ∷ s) = c

-- The result of peek; it moves *ps to skip_space of it.
unfoldable pub peek : List ℕ → List ℕ → Bool
unfolding skip_space strchr
peek s toks = let c = first (skip_space s) in not (c == 0) && strchr toks c
