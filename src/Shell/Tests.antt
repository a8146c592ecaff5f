-- ===== src/Shell/Tests.antt =====
-- Runs of the parser, and its theorems at one line.
use computer_system.Prelude.{ℕ, List, [], ◌∷◌, ◌≡◌, refl, inl, inr, arith}
use computer_system.Shell.{
  Cmd, execcmd, redircmd, pipecmd, listcmd, backcmd, strchr, skip_space, split_word, token_at,
  gettoken, peek,
}
use computer_system.Shell.Ends.{IsCmd}
use computer_system.Shell.Total.{MakesCmd, parsecmd-MakesCmd}
use computer_system.Shell.Print.{line_of}
use computer_system.Shell.Round.{parsecmd-line_of}
use computer_system.Shell.Parse.{parsed, parseredirs, parseargs, parsebacks, parseline, parsecmd}

-- "a b>f|(c;d)&"
abbrev line : List ℕ
line = b'a' ∷ b' ' ∷ b'b' ∷ b'>' ∷ b'f' ∷ b'|' ∷ b'(' ∷ b'c' ∷ b';' ∷ b'd' ∷ b')' ∷ b'&' ∷ []

abbrev command : Cmd
command = backcmd (
    pipecmd (redircmd (execcmd ((b'a' ∷ []) ∷ (b'b' ∷ []) ∷ [])) (b'f' ∷ []) 1537 1)
      (listcmd (execcmd ((b'c' ∷ []) ∷ [])) (execcmd ((b'd' ∷ []) ∷ []))))

line_parsed : parsecmd 40 line ≡ parsed command []
unfolding parsecmd parseline parsebacks parseargs parseredirs peek gettoken token_at split_word
    skip_space strchr
line_parsed = refl

parsecmd-MakesCmd_example : MakesCmd (parsecmd 60 line)
parsecmd-MakesCmd_example = parsecmd-MakesCmd 60 line refl (omega arith)

command-IsCmd : IsCmd command
unfolding strchr
command-IsCmd = (
  ((omega arith, refl), refl, inr (inl (refl, refl))),
  ((omega arith, refl), (omega arith, refl)),
)

parsecmd-line_of_example : parsecmd 60 (line_of command []) ≡ parsed command []
parsecmd-line_of_example = parsecmd-line_of command 60 command-IsCmd (omega arith)
