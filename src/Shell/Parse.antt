-- ===== src/Shell/Parse.antt =====
-- user/sh.c: the parser, by recursive descent. panic ends the shell's process for the line.
use computer_system.Prelude.{ℕ, zero, suc, ◌+◌, not, List, [], ◌∷◌, ◌++◌, ltb, ◌==◌, if◌then◌else◌}
use computer_system.Shell.{
  max_args, Cmd, execcmd, redircmd, pipecmd, listcmd, backcmd, skip_space, gettoken, peek,
}

-- How a parser ends: with a command and the rest of the line, in a panic, or out of fuel.
pub data Parsed : Type 0 where
  parsed : Cmd → List ℕ → Parsed
  panics : Parsed
  no_fuel : Parsed

abbrev pub and_then : Parsed → (Cmd → List ℕ → Parsed) → Parsed
and_then (parsed c s) k = k c s
and_then panics k = panics
and_then no_fuel k = no_fuel

-- fcntl.h
abbrev pub o_rdonly : ℕ
o_rdonly = 0

abbrev pub o_wronly : ℕ
o_wronly = 1

abbrev pub o_create : ℕ
o_create = 512

abbrev pub o_trunc : ℕ
o_trunc = 1024

-- switch(tok) of parseredirs
abbrev pub redirected : Cmd → ℕ → List ℕ → Cmd
redirected cmd tok file =
    if tok == b'<'
    then redircmd cmd file o_rdonly 0
    else if tok == b'>'
    then redircmd cmd file (o_wronly + o_create + o_trunc) 1
    else if tok == b'+'
    then redircmd cmd file (o_wronly + o_create) 1
    else cmd

unfoldable pub parseredirs : ℕ → Cmd → List ℕ → Parsed
parseredirs zero cmd s = no_fuel
parseredirs (suc n) cmd s =
    let s1 = skip_space s in
    let t = gettoken s1 in
    let u = gettoken t.rest in
    let more = parseredirs n (redirected cmd t.ret u.text) u.rest in
    if not (peek s (b'<' ∷ b'>' ∷ []))
    then parsed cmd s1
    else if not (u.ret == b'a')
    then panics
    else more

-- cmd->argv[argc] = q, where cmd is the execcmd inside the redirections of ret.
abbrev pub add_arg : Cmd → List ℕ → Cmd
add_arg (execcmd args) word = execcmd (args ++ word ∷ [])
add_arg (redircmd c file mode fd) word = redircmd (add_arg c word) file mode fd
add_arg (pipecmd l r) word = pipecmd l r
add_arg (listcmd l r) word = listcmd l r
add_arg (backcmd c) word = backcmd c

-- The loop of parseexec.
unfoldable pub parseargs : ℕ → Cmd → ℕ → List ℕ → Parsed
parseargs zero ret argc s = no_fuel
parseargs (suc n) ret argc s =
    let s1 = skip_space s in
    let t = gettoken s1 in
    if peek s (b'|' ∷ b')' ∷ b'&' ∷ b';' ∷ [])
    then parsed ret s1
    else if t.ret == 0
    then parsed ret t.rest
    else if not (t.ret == b'a')
    then panics
    else if not (ltb (argc + 1) max_args)
    then panics
    else and_then (parseredirs n (add_arg ret t.text) t.rest)
        (λ ret' s2. parseargs n ret' (argc + 1) s2)

-- The loop of parseline.
unfoldable pub parsebacks : ℕ → Cmd → List ℕ → Parsed
parsebacks zero cmd s = no_fuel
parsebacks (suc n) cmd s =
    let s1 = skip_space s in
    let more = parsebacks n (backcmd cmd) ((gettoken s1).rest) in
    if peek s (b'&' ∷ []) then more else parsed cmd s1

unfoldable mutual
  pub parseline : ℕ → List ℕ → Parsed
  parseline zero s = no_fuel
  parseline (suc n) s = and_then (parsepipe n s) (λ cmd s1.
      and_then (parsebacks n cmd s1) (λ cmd' s2.
        if peek s2 (b';' ∷ [])
        then and_then (parseline n ((gettoken (skip_space s2)).rest))
            (λ right s3. parsed (listcmd cmd' right) s3)
        else parsed cmd' (skip_space s2)))

  pub parsepipe : ℕ → List ℕ → Parsed
  parsepipe zero s = no_fuel
  parsepipe (suc n) s = and_then (parseexec n s) (λ cmd s1.
      if peek s1 (b'|' ∷ [])
      then and_then (parsepipe n ((gettoken (skip_space s1)).rest))
          (λ right s2. parsed (pipecmd cmd right) s2)
      else parsed cmd (skip_space s1))

  pub parseexec : ℕ → List ℕ → Parsed
  parseexec zero s = no_fuel
  parseexec (suc n) s =
      if peek s (b'(' ∷ [])
      then parseblock n (skip_space s)
      else and_then (parseredirs n (execcmd []) (skip_space s)) (λ ret s1. parseargs n ret 0 s1)

  pub parseblock : ℕ → List ℕ → Parsed
  parseblock zero s = no_fuel
  parseblock (suc n) s =
      if not (peek s (b'(' ∷ []))
      then panics
      else and_then (parseline n ((gettoken (skip_space s)).rest)) (λ cmd s1.
        if not (peek s1 (b')' ∷ []))
        then panics
        else parseredirs n cmd ((gettoken (skip_space s1)).rest))

-- peek(&s, es, ""); the line must be used up.
abbrev pub finished : Cmd → List ℕ → Parsed
finished cmd [] = parsed cmd []
finished cmd (c ∷ s) = panics

unfoldable pub parsecmd : ℕ → List ℕ → Parsed
parsecmd fuel s = and_then (parseline fuel s) (λ cmd s1. finished cmd (skip_space s1))
