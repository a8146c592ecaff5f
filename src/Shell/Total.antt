-- ===== src/Shell/Total.antt =====
-- parsecmd always ends, and what it makes is a command.
use computer_system.Prelude.{
  ℕ, zero, suc, ◌+◌, ◌*◌, ◌≤◌, ◌<◌, ◌≡◌, refl, inl, inr, true, List, [], ◌∷◌, length, Bool-cases,
  arith,
}
use computer_system.Shell.{Cmd, execcmd, listcmd, pipecmd, backcmd, skip_space, gettoken, peek}
use computer_system.Shell.Parse.{
  Parsed, parsed, panics, no_fuel, and_then, parseargs, parsebacks, parseline, parsepipe, parseexec,
  parseblock, finished, parsecmd,
}
use computer_system.Shell.Words.{no_nul, skip_space-length, skip_space-no_nul, peek-gettoken}
use computer_system.Shell.Ends.{
  IsCmd, Ends, Ends-and_then, Ends-fewer, EndsLike, EndsLike-Ends, parseredirs-Ends, parseargs-Ends,
}

parsebacks-Ends :
    (n : ℕ) (c : Cmd) (s : List ℕ)
    → IsCmd c
    → no_nul s ≡ true
    → length s < n
    → Ends (length s) (parsebacks n c s)
unfolding parsebacks
parsebacks-Ends zero c s cmd clean h = absurd (omega arith)
parsebacks-Ends (suc n) c s cmd clean h = elim (Bool-cases (peek s (b'&' ∷ []))) [
  | inr p ↦ rw p (cmd, skip_space-length s, skip_space-no_nul s clean)
  | inl p ↦
      let (lt, rest) = peek-gettoken s (b'&' ∷ []) clean p in
      rw p (
        Ends-fewer (length ((gettoken (skip_space s)).rest)) (length s) _ (omega arith)
          (parsebacks-Ends n (backcmd c) ((gettoken (skip_space s)).rest) cmd rest (omega arith)))
]

-- A parser that, with enough fuel, ends.
abbrev IsTotal : ℕ → ℕ → (List ℕ → Parsed) → Type 0
IsTotal n k parse =
    (s : List ℕ) → no_nul s ≡ true → 4 * length s + k ≤ n → Ends (length s) (parse s)

-- A right operand behind a symbol.
operand-Ends :
    (toks : List ℕ) (n k : ℕ) (parse : List ℕ → Parsed) (join : Cmd → Cmd)
    → k ≤ 5
    → IsTotal n k parse
    → ((d : Cmd) → IsCmd d → IsCmd (join d))
    → (s : List ℕ) → no_nul s ≡ true
    → 4 * length s + 1 ≤ n
    → peek s toks ≡ true
    → Ends (length s) (and_then (parse ((gettoken (skip_space s)).rest)) (λ d r. parsed (join d) r))
operand-Ends toks n k parse join small total joins s clean fuel p =
    let (lt, rest) = peek-gettoken s toks clean p in
    Ends-and_then (length ((gettoken (skip_space s)).rest)) (length s) _ _
      (total ((gettoken (skip_space s)).rest) rest (omega arith))
      (λ d r cmd short clean'. (joins d cmd, omega arith, clean'))

step_line :
    (n : ℕ)
    → IsTotal n 5 (parseline n)
    → IsTotal n 4 (parsepipe n)
    → IsTotal (suc n) 5 (parseline (suc n))
unfolding parseline
step_line n line pipe s clean fuel =
    Ends-and_then (length s) (length s) _ _ (pipe s clean (omega arith)) (λ c s1 cmd short clean1.
      Ends-and_then (length s1) (length s) _ _ (parsebacks-Ends n c s1 cmd clean1 (omega arith))
        (λ c' s2 cmd' short' clean2. elim (Bool-cases (peek s2 (b';' ∷ []))) [
          | inr p ↦
              let le = skip_space-length s2 in rw p (cmd', omega arith, skip_space-no_nul s2 clean2)
          | inl p ↦ rw p (
              Ends-fewer (length s2) (length s) _ (omega arith) (
                operand-Ends (b';' ∷ []) n 5 (parseline n) (λ d. listcmd c' d) (omega arith) line
                  (λ d e. (cmd', e)) s2 clean2 (omega arith) p))
        ]))

step_pipe :
    (n : ℕ)
    → IsTotal n 4 (parsepipe n)
    → IsTotal n 3 (parseexec n)
    → IsTotal (suc n) 4 (parsepipe (suc n))
unfolding parsepipe
step_pipe n pipe exec s clean fuel =
    Ends-and_then (length s) (length s) _ _ (exec s clean (omega arith)) (λ c s1 cmd short clean1.
      elim (Bool-cases (peek s1 (b'|' ∷ []))) [
        | inr p ↦
            let le = skip_space-length s1 in rw p (cmd, omega arith, skip_space-no_nul s1 clean1)
        | inl p ↦ rw p (
            Ends-fewer (length s1) (length s) _ (omega arith) (
              operand-Ends (b'|' ∷ []) n 4 (parsepipe n) (λ d. pipecmd c d) (omega arith) pipe
                (λ d e. (cmd, e)) s1 clean1 (omega arith) p))
      ])

-- The words that follow the first redirections.
words-Ends :
    (n k : ℕ) (o : Parsed)
    → k < n
    → EndsLike (execcmd []) k o
    → Ends k (and_then o (λ ret s1. parseargs n ret 0 s1))
words-Ends n k (parsed c r) lt (cmd, like, short, clean) =
    Ends-fewer (length r) k _ short (parseargs-Ends n c 0 r cmd like clean (omega arith))
words-Ends n k panics lt h = h
words-Ends n k no_fuel lt h = h

step_exec : (n : ℕ) → IsTotal n 2 (parseblock n) → IsTotal (suc n) 3 (parseexec (suc n))
unfolding parseexec
step_exec n block s clean fuel =
    let le = skip_space-length s in
    let clean' = skip_space-no_nul s clean in
    elim (Bool-cases (peek s (b'(' ∷ []))) [
      | inl p ↦ rw p (
          Ends-fewer (length (skip_space s)) (length s) _ le
            (block (skip_space s) clean' (omega arith)))
      | inr p ↦ rw p (
          Ends-fewer (length (skip_space s)) (length s) _ le (
            words-Ends n (length (skip_space s)) _ (omega arith) (
              parseredirs-Ends n (execcmd []) (skip_space s) (omega arith, refl) clean'
                (omega arith))))
    ]

step_block : (n : ℕ) → IsTotal n 5 (parseline n) → IsTotal (suc n) 2 (parseblock (suc n))
unfolding parseblock
step_block n line s clean fuel = elim (Bool-cases (peek s (b'(' ∷ []))) [
  | inr p ↦ rw p (omega arith)
  | inl p ↦
      let (lt, rest) = peek-gettoken s (b'(' ∷ []) clean p in
      rw p (
        Ends-and_then (length ((gettoken (skip_space s)).rest)) (length s) _ _
          (line ((gettoken (skip_space s)).rest) rest (omega arith))
          (λ c s1 cmd short clean1. elim (Bool-cases (peek s1 (b')' ∷ []))) [
            | inr q ↦ rw q (omega arith)
            | inl q ↦
                let (lt', rest') = peek-gettoken s1 (b')' ∷ []) clean1 q in
                rw q (
                  Ends-fewer (length ((gettoken (skip_space s1)).rest)) (length s) _ (omega arith) (
                    EndsLike-Ends c _ _ (
                      parseredirs-Ends n c ((gettoken (skip_space s1)).rest) cmd rest'
                        (omega arith))))
          ]))
]

parsers-IsTotal :
    (n : ℕ)
    → IsTotal n 5 (parseline n)
      × IsTotal n 4 (parsepipe n)
      × IsTotal n 3 (parseexec n)
      × IsTotal n 2 (parseblock n)
parsers-IsTotal zero = (
  λ s clean h. absurd (omega arith),
  λ s clean h. absurd (omega arith),
  λ s clean h. absurd (omega arith),
  λ s clean h. absurd (omega arith),
)
parsers-IsTotal (suc n) =
    let (line, pipe, exec, block) = parsers-IsTotal n in
    (step_line n line pipe, step_pipe n pipe exec, step_exec n block, step_block n line)

-- How parsecmd may end.
abbrev pub MakesCmd : Parsed → Type 0
MakesCmd (parsed c r) = IsCmd c × (r ≡ [])
MakesCmd panics = 0 ≤ 0
MakesCmd no_fuel = ⊥

finished-MakesCmd : (c : Cmd) (s : List ℕ) → IsCmd c → MakesCmd (finished c s)
finished-MakesCmd c [] cmd = (cmd, refl)
finished-MakesCmd c (d ∷ s) cmd = omega arith

-- parsecmd ends for every line with no NUL in it, in a panic or with a command that uses up the
-- line: each execcmd has fewer than MAXARGS words, none empty or with a symbol or white space in
-- it, and each redircmd such a word for its file and one of three modes. The fuel is at least five
-- more than four times the length of the line.
pub parsecmd-MakesCmd :
    (fuel : ℕ) (s : List ℕ) → no_nul s ≡ true → 4 * length s + 5 ≤ fuel → MakesCmd (parsecmd fuel s)
unfolding parsecmd
parsecmd-MakesCmd fuel s clean enough =
    go (parseline fuel s) ((parsers-IsTotal fuel).0 s clean enough)
  where
    go :
        (o : Parsed)
        → Ends (length s) o
        → MakesCmd (and_then o (λ cmd s1. finished cmd (skip_space s1)))
    go (parsed c r) (cmd, short, rest) = finished-MakesCmd c (skip_space r) cmd
    go panics h = omega arith
    go no_fuel h = h
