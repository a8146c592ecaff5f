-- ===== src/Shell/Round.antt =====
-- parsecmd reads back the line of every command.
use computer_system.Prelude.{
  ℕ, suc, ◌+◌, ◌-◌, ◌≤◌, ◌≡◌, refl, inl, inr, false, List, [], ◌∷◌, ◌++◌, length, ◌==◌, Bool-cases,
  arith,
}
use mathlib.Core.Path.{subst}
use computer_system.Shell.{
  Cmd, execcmd, redircmd, pipecmd, listcmd, backcmd, strchr, skip_space, peek,
}
use computer_system.Shell.Parse.{
  parsed, parseargs, parseredirs, parseline, parsepipe, parseexec, parsecmd,
}
use computer_system.Shell.Ends.{IsCmd}
use computer_system.Shell.Print.{
  words_line, operator, line_of, IsEnd, IsEnd-nil, IsEnd-paren, words_line-IsFront,
}
use computer_system.Shell.Loops.{no_more_redirs, parseargs-words_line, parseredirs-operator}
use computer_system.Shell.Levels.{
  pipe_of, line_of_pipe, at_open, at_bar, at_semi, at_amp, block_of, pipe_with, line_with,
  line_back, whole_line,
}

line_front : (c : Cmd) (t : List ℕ) → IsCmd c → IsEnd t → skip_space (line_of c t) ≡ line_of c t
line_front (execcmd args) t (few, h) e = (words_line-IsFront args t h e).skip
line_front (redircmd c file mode fd) t h e = (at_open _).0
line_front (pipecmd l r) t h e = (at_open _).0
line_front (listcmd l r) t h e = (at_open _).0
line_front (backcmd c) t h e = (at_open _).0

-- The depth of the recursion on its line.
abbrev pub depth : Cmd → ℕ
depth (execcmd args) = length args + 6
depth (redircmd c file mode fd) = depth c + 6
depth (pipecmd l r) = depth l + depth r + 6
depth (listcmd l r) = depth l + depth r + 6
depth (backcmd c) = depth c + 6

-- The parser reads the line of c, whatever closes behind it.
abbrev Reads : Cmd → Type 0
Reads c = (n : ℕ) (t : List ℕ) → depth c ≤ n → IsEnd t → parseline n (line_of c t) ≡ parsed c t

less_four : (n : ℕ) → 4 ≤ n → suc (suc (suc (suc (n - 4)))) ≡ n
less_four n h = omega arith

less_six : (n : ℕ) → 6 ≤ n → suc (suc (suc (suc (suc (suc (n - 6)))))) ≡ n
less_six n h = omega arith

exec_of :
    (n : ℕ) (s v : List ℕ) (c : Cmd)
    → peek s (b'(' ∷ []) ≡ false
    → skip_space s ≡ s
    → parseredirs n (execcmd []) s ≡ parsed (execcmd []) s
    → parseargs n (execcmd []) 0 s ≡ parsed c v
    → parseexec (suc n) s ≡ parsed c v
unfolding parseexec
exec_of n s v c closed skip redirs args = rw (closed, skip, redirs, args) refl

operator_front : (mode : ℕ) (x : List ℕ) → skip_space (operator mode x) ≡ operator mode x
unfolding skip_space strchr
operator_front mode x = elim (Bool-cases (mode == 0)) [
  | inl e ↦ rw e refl
  | inr e ↦ rw e (elim (Bool-cases (mode == 1537)) [ inl f ↦ rw f refl | inr f ↦ rw f refl ])
]

exec-Reads : (args : List (List ℕ)) → IsCmd (execcmd args) → Reads (execcmd args)
exec-Reads args (few, h) n t enough e =
    let front = words_line-IsFront args t h e in
    let m : ℕ = n - 4 in
    let exec : parseexec (suc (suc m)) (words_line args t) ≡ parsed (execcmd args) t =
      exec_of (suc m) (words_line args t) t (execcmd args) front.no_open front.skip
        (no_more_redirs m (execcmd []) (words_line args t) front.skip front.no_redir)
        (parseargs-words_line (suc m) [] args t h (omega arith) (omega arith) e) in
    subst (λ q. parseline q (words_line args t) ≡ parsed (execcmd args) t)
      (less_four n (omega arith))
      (whole_line (suc (suc m)) (words_line args t) t (execcmd args) e
        (pipe_of (suc (suc m)) (words_line args t) t (execcmd args) e.skip e.no_pipe exec))

-- The line of a command in parentheses.
module _ (c : Cmd) (cmd : IsCmd c) (ih : Reads c) where
  in_parens :
      (n : ℕ) (u v : List ℕ) (c' : Cmd)
      → depth c ≤ n
      → skip_space u ≡ u
      → parseredirs n c u ≡ parsed c' v
      → parseexec (suc (suc n)) (b'(' ∷ line_of c (b')' ∷ u)) ≡ parsed c' v
  in_parens n u v c' enough skip redirs =
      block_of n (line_of c (b')' ∷ u)) u v c c' (line_front c (b')' ∷ u) cmd (IsEnd-paren u)) skip
        (ih n (b')' ∷ u) enough (IsEnd-paren u)) redirs

  pipe_in_parens :
      (n : ℕ) (t : List ℕ)
      → depth c ≤ suc n
      → IsEnd t
      → parsepipe (suc (suc (suc (suc n)))) (b'(' ∷ line_of c (b')' ∷ t)) ≡ parsed c t
  pipe_in_parens n t enough e =
      pipe_of (suc (suc (suc n))) _ t c e.skip e.no_pipe
        (in_parens (suc n) t t c enough e.skip (no_more_redirs n c t e.skip e.no_redir))

  redir-Reads :
      (file : List ℕ) (mode fd : ℕ)
      → IsCmd (redircmd c file mode fd)
      → Reads (redircmd c file mode fd)
  redir-Reads file mode fd (same, word, modes) n t enough e =
      let m : ℕ = n - 6 in
      let s : List ℕ = line_of (redircmd c file mode fd) t in
      let u : List ℕ = operator mode (file ++ b' ' ∷ t) in
      subst (λ q. parseline q s ≡ parsed (redircmd c file mode fd) t) (less_six n (omega arith))
        (whole_line (suc (suc (suc (suc m)))) s t (redircmd c file mode fd) e (
          pipe_of (suc (suc (suc (suc m)))) s t (redircmd c file mode fd) e.skip e.no_pipe (
            in_parens (suc (suc m)) u t (redircmd c file mode fd) (omega arith)
              (operator_front mode (file ++ b' ' ∷ t))
              (parseredirs-operator m c file mode fd t word modes e))))

  back-Reads : Reads (backcmd c)
  back-Reads n t enough e =
      let m : ℕ = n - 6 in
      let s : List ℕ = line_of (backcmd c) t in
      let (a1, a2, a3, a4, a5) = at_amp t in
      subst (λ q. parseline q s ≡ parsed (backcmd c) t) (less_six n (omega arith))
        (line_of_pipe (suc (suc (suc (suc (suc m))))) s t c (backcmd c) e.skip e.no_list (b'&' ∷ t)
          (pipe_of (suc (suc (suc (suc m)))) s (b'&' ∷ t) c a1 a4 (
            in_parens (suc (suc m)) (b'&' ∷ t) (b'&' ∷ t) c (omega arith) a1
              (no_more_redirs (suc m) c (b'&' ∷ t) a1 a3)))
          (line_back (suc (suc (suc m))) t c e))

module _ (l r : Cmd) (cmd_l : IsCmd l) (cmd_r : IsCmd r) (ih_l : Reads l) (ih_r : Reads r) where
  pipe-Reads : Reads (pipecmd l r)
  pipe-Reads n t enough e =
      let m : ℕ = n - 6 in
      let s : List ℕ = line_of (pipecmd l r) t in
      let x : List ℕ = b'(' ∷ line_of r (b')' ∷ t) in
      let (b1, b2, b3, b4) = at_bar x in
      subst (λ q. parseline q s ≡ parsed (pipecmd l r) t) (less_six n (omega arith))
        (whole_line (suc (suc (suc (suc m)))) s t (pipecmd l r) e (
          pipe_with (suc (suc (suc (suc m)))) s x t l r (at_open _).0
            (in_parens l cmd_l ih_l (suc (suc m)) (b'|' ∷ x) (b'|' ∷ x) l (omega arith) b1
              (no_more_redirs (suc m) l (b'|' ∷ x) b1 b3))
            (pipe_in_parens r cmd_r ih_r m t (omega arith) e)))

  list-Reads : Reads (listcmd l r)
  list-Reads n t enough e =
      let m : ℕ = n - 6 in
      let s : List ℕ = line_of (listcmd l r) t in
      let x : List ℕ = b'(' ∷ line_of r (b')' ∷ t) in
      let (s1, s2, s3, s4, s5, s6) = at_semi x in
      subst (λ q. parseline q s ≡ parsed (listcmd l r) t) (less_six n (omega arith))
        (line_with (suc (suc (suc (suc m)))) s x t l r (at_open _).0
          (pipe_of (suc (suc (suc (suc m)))) s (b';' ∷ x) l s1 s4 (
            in_parens l cmd_l ih_l (suc (suc m)) (b';' ∷ x) (b';' ∷ x) l (omega arith) s1
              (no_more_redirs (suc m) l (b';' ∷ x) s1 s3)))
          (whole_line (suc (suc (suc m))) x t r e
            (pipe_in_parens r cmd_r ih_r m t (omega arith) e)))

command-Reads : (c : Cmd) → IsCmd c → Reads c
command-Reads (execcmd args) cmd = exec-Reads args cmd
command-Reads (redircmd c file mode fd) cmd =
    redir-Reads c cmd.0 (command-Reads c cmd.0) file mode fd cmd
command-Reads (pipecmd l r) (cl, cr) =
    pipe-Reads l r cl cr (command-Reads l cl) (command-Reads r cr)
command-Reads (listcmd l r) (cl, cr) =
    list-Reads l r cl cr (command-Reads l cl) (command-Reads r cr)
command-Reads (backcmd c) cmd = back-Reads c cmd (command-Reads c cmd)

-- parsecmd of the line of a command, in which each operand stands in parentheses, gives the command
-- back, for a command whose execcmds have fewer than MAXARGS words, with no empty word nor white
-- space or symbol in one, and whose redircmds have such a word for their file and the mode of <, >
-- or >>; these are the commands that the parser makes. The fuel is at least the depth of the
-- command.
pub parsecmd-line_of :
    (c : Cmd) (fuel : ℕ) → IsCmd c → depth c ≤ fuel → parsecmd fuel (line_of c []) ≡ parsed c []
unfolding parsecmd skip_space
parsecmd-line_of c fuel cmd enough = rw (command-Reads c cmd fuel [] enough IsEnd-nil) refl
