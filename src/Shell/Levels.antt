-- ===== src/Shell/Levels.antt =====
-- Each level of the parser, at the symbol that follows what it reads.
use computer_system.Prelude.{ℕ, suc, ◌≡◌, refl, true, false, List, [], ◌∷◌}
use computer_system.Shell.{
  Cmd, pipecmd, listcmd, backcmd, strchr, skip_space, token_at, gettoken, peek,
}
use computer_system.Shell.Parse.{
  parsed, parseredirs, parsebacks, parseline, parsepipe, parseexec, parseblock,
}
use computer_system.Shell.Print.{IsEnd}

-- The levels of the grammar, where no symbol of theirs follows.
pub pipe_of :
    (n : ℕ) (s u : List ℕ) (c : Cmd)
    → skip_space u ≡ u
    → peek u (b'|' ∷ []) ≡ false
    → parseexec n s ≡ parsed c u
    → parsepipe (suc n) s ≡ parsed c u
unfolding parsepipe
pipe_of n s u c skip none_there e = rw (e, none_there, skip) refl

pub backs_of :
    (n : ℕ) (u : List ℕ) (c : Cmd)
    → skip_space u ≡ u
    → peek u (b'&' ∷ []) ≡ false
    → parsebacks (suc n) c u ≡ parsed c u
unfolding parsebacks
backs_of n u c skip none_there = rw (none_there, skip) refl

pub line_of_pipe :
    (n : ℕ) (s u : List ℕ) (c c' : Cmd)
    → skip_space u ≡ u
    → peek u (b';' ∷ []) ≡ false
    → (v : List ℕ) → parsepipe n s ≡ parsed c v
    → parsebacks n c v ≡ parsed c' u
    → parseline (suc n) s ≡ parsed c' u
unfolding parseline
line_of_pipe n s u c c' skip none_there v e f = rw (e, f, none_there, skip) refl

-- The symbols at the front of a line.
pub at_open :
    (x : List ℕ)
    → (skip_space (b'(' ∷ x) ≡ b'(' ∷ x)
      × (peek (b'(' ∷ x) (b'(' ∷ []) ≡ true)
      × ((gettoken (b'(' ∷ x)).rest ≡ skip_space x)
unfolding skip_space peek strchr gettoken token_at
at_open x = (refl, refl, refl)

pub at_close :
    (x : List ℕ)
    → (skip_space (b')' ∷ x) ≡ b')' ∷ x)
      × (peek (b')' ∷ x) (b')' ∷ []) ≡ true)
      × ((gettoken (b')' ∷ x)).rest ≡ skip_space x)
unfolding skip_space peek strchr gettoken token_at
at_close x = (refl, refl, refl)

pub at_bar :
    (x : List ℕ)
    → (skip_space (b'|' ∷ x) ≡ b'|' ∷ x)
      × (peek (b'|' ∷ x) (b'|' ∷ []) ≡ true)
      × (peek (b'|' ∷ x) (b'<' ∷ b'>' ∷ []) ≡ false)
      × ((gettoken (b'|' ∷ x)).rest ≡ skip_space x)
unfolding skip_space peek strchr gettoken token_at
at_bar x = (refl, refl, refl, refl)

pub at_semi :
    (x : List ℕ)
    → (skip_space (b';' ∷ x) ≡ b';' ∷ x)
      × (peek (b';' ∷ x) (b';' ∷ []) ≡ true)
      × (peek (b';' ∷ x) (b'<' ∷ b'>' ∷ []) ≡ false)
      × (peek (b';' ∷ x) (b'|' ∷ []) ≡ false)
      × (peek (b';' ∷ x) (b'&' ∷ []) ≡ false)
      × ((gettoken (b';' ∷ x)).rest ≡ skip_space x)
unfolding skip_space peek strchr gettoken token_at
at_semi x = (refl, refl, refl, refl, refl, refl)

pub at_amp :
    (x : List ℕ)
    → (skip_space (b'&' ∷ x) ≡ b'&' ∷ x)
      × (peek (b'&' ∷ x) (b'&' ∷ []) ≡ true)
      × (peek (b'&' ∷ x) (b'<' ∷ b'>' ∷ []) ≡ false)
      × (peek (b'&' ∷ x) (b'|' ∷ []) ≡ false)
      × ((gettoken (b'&' ∷ x)).rest ≡ skip_space x)
unfolding skip_space peek strchr gettoken token_at
at_amp x = (refl, refl, refl, refl, refl)

-- A block, and the redirections behind it.
pub block_of :
    (n : ℕ) (s u v : List ℕ) (c c' : Cmd)
    → skip_space s ≡ s
    → skip_space u ≡ u
    → parseline n s ≡ parsed c (b')' ∷ u)
    → parseredirs n c u ≡ parsed c' v
    → parseexec (suc (suc n)) (b'(' ∷ s) ≡ parsed c' v
unfolding parseexec parseblock
block_of n s u v c c' skip_s skip_u line redirs =
    let (o1, o2, o3) = at_open s in
    let (c1, c2, c3) = at_close u in
    rw (o2, o1, o2, o1, o3, skip_s, line, c2, c1, c3, skip_u, redirs) refl

-- The right operand of a pipe.
pub pipe_with :
    (n : ℕ) (s x t : List ℕ) (l r : Cmd)
    → skip_space x ≡ x
    → parseexec n s ≡ parsed l (b'|' ∷ x)
    → parsepipe n x ≡ parsed r t
    → parsepipe (suc n) s ≡ parsed (pipecmd l r) t
unfolding parsepipe
pipe_with n s x t l r skip e f = let (b1, b2, b3, b4) = at_bar x in rw (e, b2, b1, b4, skip, f) refl

-- The right operand of a list.
pub line_with :
    (n : ℕ) (s x t : List ℕ) (l r : Cmd)
    → skip_space x ≡ x
    → parsepipe (suc n) s ≡ parsed l (b';' ∷ x)
    → parseline (suc n) x ≡ parsed r t
    → parseline (suc (suc n)) s ≡ parsed (listcmd l r) t
unfolding parseline
line_with n s x t l r skip e f =
    let (s1, s2, s3, s4, s5, s6) = at_semi x in
    rw (e, backs_of n (b';' ∷ x) l s1 s5, s2, s1, s6, skip, f) refl

pub line_back :
    (n : ℕ) (t : List ℕ) (c : Cmd)
    → IsEnd t
    → parsebacks (suc (suc n)) c (b'&' ∷ t) ≡ parsed (backcmd c) t
unfolding parsebacks
line_back n t c e =
    let (a1, a2, a3, a4, a5) = at_amp t in rw (a2, a1, a5, e.skip, e.no_back, e.skip) refl

-- A command that is a whole line.
pub whole_line :
    (n : ℕ) (s t : List ℕ) (c : Cmd)
    → IsEnd t
    → parsepipe (suc n) s ≡ parsed c t
    → parseline (suc (suc n)) s ≡ parsed c t
whole_line n s t c e p =
    line_of_pipe (suc n) s t c c e.skip e.no_list t p (backs_of n t c e.skip e.no_back)
