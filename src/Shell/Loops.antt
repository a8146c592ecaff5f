-- ===== src/Shell/Loops.antt =====
-- The loops of the parser on the words and the redirections of a printed command.
use computer_system.Prelude.{
  ℕ, zero, suc, ◌+◌, ◌<◌, ◌≡◌, refl, ◌∙◌, sym, ap, ◌⊎◌, inl, inr, true, false, List, [], ◌∷◌, ◌++◌,
  length, length-append, ltb, ◌==◌, arith,
}
use mathlib.Core.List.{append-nil, append_assoc}
use computer_system.Shell.{
  max_args, Cmd, execcmd, redircmd, strchr, skip_space, token_at, gettoken, peek,
}
use computer_system.Shell.Parse.{parsed, redirected, parseargs, parseredirs, add_arg}
use computer_system.Shell.Words.{is_plain, is_word}
use computer_system.Shell.Ends.{all_words}
use computer_system.Shell.Print.{
  words_line, operator, IsEnd, plain-IsFront, words_line-IsFront, gettoken-word,
}

-- No redirection follows.
pub no_more_redirs :
    (n : ℕ) (c : Cmd) (t : List ℕ)
    → skip_space t ≡ t
    → peek t (b'<' ∷ b'>' ∷ []) ≡ false
    → parseredirs (suc n) c t ≡ parsed c t
unfolding parseredirs
no_more_redirs n c t skip none_there = rw none_there (ap (λ q. parsed c q) skip)

parseargs_step :
    (n : ℕ) (c c' : Cmd) (argc : ℕ) (s w r r' : List ℕ)
    → skip_space s ≡ s
    → peek s (b'|' ∷ b')' ∷ b'&' ∷ b';' ∷ []) ≡ false
    → gettoken s ≡ record { ret = b'a'; text = w; rest = r }
    → ltb (argc + 1) max_args ≡ true
    → parseredirs n (add_arg c w) r ≡ parsed c' r'
    → parseargs (suc n) c argc s ≡ parseargs n c' (argc + 1) r'
unfolding parseargs
parseargs_step n c c' argc s w r r' skip more token room redirs =
    rw (more, skip, token, room, redirs) refl

pub parseargs-words_line :
    (n : ℕ) (done ws : List (List ℕ)) (t : List ℕ)
    → all_words ws ≡ true
    → length done + length ws < max_args
    → length ws < n
    → IsEnd t
    → parseargs n (execcmd done) (length done) (words_line ws t) ≡ parsed (execcmd (done ++ ws)) t
parseargs-words_line zero done ws t h few enough e = absurd (omega arith)
parseargs-words_line (suc n) done [] t h few enough e =
    e.args_end n (length done) (execcmd done)
    ∙ ap (λ q. parsed (execcmd q) t) (sym (append-nil done))
parseargs-words_line (suc zero) done (w ∷ ws) t h few enough e = absurd (omega arith)
parseargs-words_line (suc (suc n)) done ([] ∷ ws) t h few enough e = ground (arith, h)
parseargs-words_line (suc (suc n)) done ((c ∷ w) ∷ ws) t h few enough e =
    let word : is_word (c ∷ w) ≡ true = ground (arith, h) in
    let rest : all_words ws ≡ true = ground (arith, h) in
    let (front, more) = plain-IsFront c (w ++ b' ' ∷ words_line ws t) (ground (arith, h)) in
    let next = words_line-IsFront ws t rest e in
    let token = gettoken-word (c ∷ w) (words_line ws t) word in
    let room : ltb (length done + 1) max_args ≡ true = ground arith in
    let len : length (done ++ (c ∷ w) ∷ []) ≡ length done + 1 = length-append done ((c ∷ w) ∷ []) in
    let ih =
      parseargs-words_line (suc n) (done ++ (c ∷ w) ∷ []) ws t rest (omega arith) (omega arith) e in
    parseargs_step (suc n) (execcmd done) (execcmd (done ++ (c ∷ w) ∷ [])) (length done) _ (c ∷ w)
      (words_line ws t) (words_line ws t) front.skip more
      (token ∙ ap (λ q. record { ret = b'a'; text = c ∷ w; rest = q }) next.skip) room
      (no_more_redirs n _ (words_line ws t) next.skip next.no_redir)
    ∙ ap (λ k. parseargs (suc n) (execcmd (done ++ (c ∷ w) ∷ [])) k (words_line ws t)) (sym len)
    ∙ ih
    ∙ ap (λ q. parsed (execcmd q) t) (append_assoc done ((c ∷ w) ∷ []) ws)

redirs_step :
    (n tok : ℕ) (c : Cmd) (s x r1 w r : List ℕ)
    → skip_space s ≡ s
    → peek s (b'<' ∷ b'>' ∷ []) ≡ true
    → gettoken s ≡ record { ret = tok; text = x; rest = r1 }
    → gettoken r1 ≡ record { ret = b'a'; text = w; rest = r }
    → parseredirs (suc n) c s ≡ parseredirs n (redirected c tok w) r
unfolding parseredirs
redirs_step n tok c s x r1 w r skip here token file = rw (here, skip, token, file) refl

-- The operators, before a word.
module _ (c : ℕ) (x : List ℕ) (plain : is_plain c ≡ true) where
  before_in :
      (skip_space (b'<' ∷ c ∷ x) ≡ b'<' ∷ c ∷ x)
      × (peek (b'<' ∷ c ∷ x) (b'<' ∷ b'>' ∷ []) ≡ true)
      × (gettoken (b'<' ∷ c ∷ x) ≡ record { ret = b'<'; text = b'<' ∷ []; rest = c ∷ x })
  unfolding skip_space peek strchr gettoken token_at
  before_in =
      let skip : skip_space (c ∷ x) ≡ c ∷ x = (plain-IsFront c x plain).0.skip in
      (refl, refl, ap (λ q. record { ret = b'<'; text = b'<' ∷ []; rest = q }) skip)

  before_out :
      (skip_space (b'>' ∷ c ∷ x) ≡ b'>' ∷ c ∷ x)
      × (peek (b'>' ∷ c ∷ x) (b'<' ∷ b'>' ∷ []) ≡ true)
      × (gettoken (b'>' ∷ c ∷ x) ≡ record { ret = b'>'; text = b'>' ∷ []; rest = c ∷ x })
  unfolding skip_space peek strchr gettoken token_at
  before_out =
      let skip : skip_space (c ∷ x) ≡ c ∷ x = (plain-IsFront c x plain).0.skip in
      let other : (c == b'>') ≡ false = ground (arith, plain) in
      (refl, refl, rw other (ap (λ q. record { ret = b'>'; text = b'>' ∷ []; rest = q }) skip))

  before_append :
      (skip_space (b'>' ∷ b'>' ∷ c ∷ x) ≡ b'>' ∷ b'>' ∷ c ∷ x)
      × (peek (b'>' ∷ b'>' ∷ c ∷ x) (b'<' ∷ b'>' ∷ []) ≡ true)
      × (gettoken (b'>' ∷ b'>' ∷ c ∷ x)
          ≡ record { ret = b'+'; text = b'>' ∷ b'>' ∷ []; rest = c ∷ x })
  unfolding skip_space peek strchr gettoken token_at
  before_append =
      let skip : skip_space (c ∷ x) ≡ c ∷ x = (plain-IsFront c x plain).0.skip in
      (refl, refl, ap (λ q. record { ret = b'+'; text = b'>' ∷ b'>' ∷ []; rest = q }) skip)

-- A redirection, and no more.
pub parseredirs-operator :
    (n : ℕ) (c : Cmd) (file : List ℕ) (mode fd : ℕ) (t : List ℕ)
    → is_word file ≡ true
    → ((mode ≡ 0) × (fd ≡ 0)) ⊎ ((mode ≡ 1537) × (fd ≡ 1)) ⊎ ((mode ≡ 513) × (fd ≡ 1))
    → IsEnd t
    → parseredirs (suc (suc n)) c (operator mode (file ++ b' ' ∷ t))
      ≡ parsed (redircmd c file mode fd) t
parseredirs-operator n c [] mode fd t word modes e = ground (arith, word)
parseredirs-operator n c (d ∷ w) mode fd t word modes e =
    let plain : is_plain d ≡ true = ground (arith, word) in
    let token : gettoken ((d ∷ w) ++ b' ' ∷ t) ≡ record { ret = b'a'; text = d ∷ w; rest = t } =
      gettoken-word (d ∷ w) t word
      ∙ ap (λ q. record { ret = b'a'; text = d ∷ w; rest = q }) e.skip in
    elim modes [
      | inl (m, f) ↦
          let (skip, here, op) = before_in d (w ++ b' ' ∷ t) plain in
          rw (m, f)
            (redirs_step (suc n) b'<' c _ _ _ (d ∷ w) t skip here op token
              ∙ no_more_redirs n _ t e.skip e.no_redir)
      | inr (inl (m, f)) ↦
          let (skip, here, op) = before_out d (w ++ b' ' ∷ t) plain in
          rw (m, f)
            (redirs_step (suc n) b'>' c _ _ _ (d ∷ w) t skip here op token
              ∙ no_more_redirs n _ t e.skip e.no_redir)
      | inr (inr (m, f)) ↦
          let (skip, here, op) = before_append d (w ++ b' ' ∷ t) plain in
          rw (m, f)
            (redirs_step (suc n) b'+' c _ _ _ (d ∷ w) t skip here op token
              ∙ no_more_redirs n _ t e.skip e.no_redir)
    ]
