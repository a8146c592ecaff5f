-- ===== src/Shell/Ends.antt =====
-- The loops of the parser over redirections and words: they end, and what they make is a command.
use computer_system.Prelude.{
  ℕ, zero, suc, ◌+◌, ◌≤◌, ◌<◌, ◌≡◌, refl, ◌∙◌, ap, ◌⊎◌, inl, inr, Bool, true, ◌&&◌, Option, none,
  some, some-injective, List, [], ◌∷◌, ◌++◌, length, length-append, ltb, ◌==◌, ==_iff, Bool-cases,
  arith,
}
use computer_system.Shell.{
  max_args, Cmd, execcmd, redircmd, pipecmd, listcmd, backcmd, skip_space, Token, gettoken, peek,
}
use computer_system.Shell.Parse.{
  Parsed, parsed, panics, no_fuel, and_then, redirected, parseredirs, add_arg, parseargs,
}
use computer_system.Shell.Words.{
  is_word, no_nul, skip_space-length, skip_space-no_nul, gettoken-Takes, peek-gettoken,
}

abbrev pub all_words : List (List ℕ) → Bool
all_words [] = true
all_words (w ∷ ws) = is_word w && all_words ws

-- A command that a line can say: fewer than MAXARGS words each, and the modes of <, > and >>.
abbrev pub IsCmd : Cmd → Type 0
IsCmd (execcmd args) = (length args < max_args) × (all_words args ≡ true)
IsCmd (redircmd c file mode fd) =
    IsCmd c
    × (is_word file ≡ true)
    × (((mode ≡ 0) × (fd ≡ 0)) ⊎ ((mode ≡ 1537) × (fd ≡ 1)) ⊎ ((mode ≡ 513) × (fd ≡ 1)))
IsCmd (pipecmd l r) = IsCmd l × IsCmd r
IsCmd (listcmd l r) = IsCmd l × IsCmd r
IsCmd (backcmd c) = IsCmd c

-- The number of words of an execcmd under redirections.
abbrev pub argc_of : Cmd → Option ℕ
argc_of (execcmd args) = some (length args)
argc_of (redircmd c file mode fd) = argc_of c
argc_of (pipecmd l r) = none
argc_of (listcmd l r) = none
argc_of (backcmd c) = none

-- How a parser ends: never out of fuel, with at most k bytes left.
abbrev pub Ends : ℕ → Parsed → Type 0
Ends k (parsed c r) = IsCmd c × (length r ≤ k) × (no_nul r ≡ true)
Ends k panics = 0 ≤ k
Ends k no_fuel = ⊥

pub Ends-and_then :
    (k k' : ℕ) (o : Parsed) (f : Cmd → List ℕ → Parsed)
    → Ends k o
    → ((c : Cmd) (r : List ℕ) → IsCmd c → length r ≤ k → no_nul r ≡ true → Ends k' (f c r))
    → Ends k' (and_then o f)
Ends-and_then k k' (parsed c r) f (cmd, short, clean) h = h c r cmd short clean
Ends-and_then k k' panics f e h = omega arith
Ends-and_then k k' no_fuel f e h = e

pub Ends-fewer : (k k' : ℕ) (o : Parsed) → k ≤ k' → Ends k o → Ends k' o
Ends-fewer k k' (parsed c r) le (cmd, short, clean) = (cmd, omega arith, clean)
Ends-fewer k k' panics le e = omega arith
Ends-fewer k k' no_fuel le e = e

redirected-IsCmd :
    (c : Cmd) (tok : ℕ) (file : List ℕ)
    → IsCmd c
    → is_word file ≡ true
    → IsCmd (redirected c tok file) × (argc_of (redirected c tok file) ≡ argc_of c)
redirected-IsCmd c tok file cmd word = elim (Bool-cases (tok == b'<')) [
  | inl e ↦ rw e ((cmd, word, inl (refl, refl)), refl)
  | inr e ↦ rw e (elim (Bool-cases (tok == b'>')) [
    | inl f ↦ rw f ((cmd, word, inr (inl (refl, refl))), refl)
    | inr f ↦ rw f (elim (Bool-cases (tok == b'+')) [
      | inl g ↦ rw g ((cmd, word, inr (inr (refl, refl))), refl)
      | inr g ↦ rw g (cmd, refl)
    ])
  ])
]

-- The redirections leave the words of the command.
abbrev pub EndsLike : Cmd → ℕ → Parsed → Type 0
EndsLike c k (parsed c' r) =
    IsCmd c' × (argc_of c' ≡ argc_of c) × (length r ≤ k) × (no_nul r ≡ true)
EndsLike c k panics = 0 ≤ k
EndsLike c k no_fuel = ⊥

EndsLike-before :
    (c c1 : Cmd) (k k1 : ℕ) (o : Parsed)
    → argc_of c1 ≡ argc_of c
    → k1 ≤ k
    → EndsLike c1 k1 o
    → EndsLike c k o
EndsLike-before c c1 k k1 (parsed c' r) same le (cmd, like, short, clean) =
    (cmd, like ∙ same, omega arith, clean)
EndsLike-before c c1 k k1 panics same le h = omega arith
EndsLike-before c c1 k k1 no_fuel same le h = h

pub EndsLike-Ends : (c : Cmd) (k : ℕ) (o : Parsed) → EndsLike c k o → Ends k o
EndsLike-Ends c k (parsed c' r) (cmd, like, short, clean) = (cmd, short, clean)
EndsLike-Ends c k panics h = h
EndsLike-Ends c k no_fuel h = h

pub parseredirs-Ends :
    (n : ℕ) (c : Cmd) (s : List ℕ)
    → IsCmd c
    → no_nul s ≡ true
    → length s < n
    → EndsLike c (length s) (parseredirs n c s)
unfolding parseredirs
parseredirs-Ends zero c s cmd clean h = absurd (omega arith)
parseredirs-Ends (suc n) c s cmd clean h = elim (Bool-cases (peek s (b'<' ∷ b'>' ∷ []))) [
  | inr p ↦ rw p (cmd, refl, skip_space-length s, skip_space-no_nul s clean)
  | inl p ↦
      let t : Token = gettoken (skip_space s) in
      let u : Token = gettoken t.rest in
      let (lt, rest) = peek-gettoken s (b'<' ∷ b'>' ∷ []) clean p in
      let takes = (gettoken-Takes t.rest rest).0 in
      let le = takes.shorter in
      elim (Bool-cases (u.ret == b'a')) [
        | inr w ↦ rw (p, w) (omega arith)
        | inl w ↦
            let (cmd', like) =
              redirected-IsCmd c t.ret u.text cmd (takes.word ((==_iff _ _).0 w)) in
            rw (p, w)
              (EndsLike-before c (redirected c t.ret u.text) (length s) (length u.rest) _ like
                (omega arith)
                (parseredirs-Ends n (redirected c t.ret u.text) u.rest cmd' takes.clean
                  (omega arith)))
      ]
]

all_words-append :
    (ws : List (List ℕ)) (w : List ℕ)
    → all_words ws ≡ true
    → is_word w ≡ true
    → all_words (ws ++ w ∷ []) ≡ true
all_words-append [] w h e = ground (arith, e)
all_words-append (v ∷ ws) w h e =
    let ih = all_words-append ws w (ground (arith, h)) e in ground (arith, h, ih)

add_arg-IsCmd :
    (c : Cmd) (argc : ℕ) (w : List ℕ)
    → IsCmd c
    → argc_of c ≡ some argc
    → argc + 1 < max_args
    → is_word w ≡ true
    → IsCmd (add_arg c w) × (argc_of (add_arg c w) ≡ some (argc + 1))
add_arg-IsCmd (execcmd args) argc w (few, words) e lt word =
    let n : length args ≡ argc = some-injective _ _ e in
    let len : length (args ++ w ∷ []) ≡ length args + 1 = length-append args (w ∷ []) in
    ((omega arith, all_words-append args w words word), ap some (omega arith))
add_arg-IsCmd (redircmd c file mode fd) argc w (cmd, f, m) e lt word =
    let (cmd', n) = add_arg-IsCmd c argc w cmd e lt word in ((cmd', f, m), n)
add_arg-IsCmd (pipecmd l r) argc w cmd e lt word = ground (arith, e)
add_arg-IsCmd (listcmd l r) argc w cmd e lt word = ground (arith, e)
add_arg-IsCmd (backcmd c) argc w cmd e lt word = ground (arith, e)

pub parseargs-Ends :
    (n : ℕ) (c : Cmd) (argc : ℕ) (s : List ℕ)
    → IsCmd c
    → argc_of c ≡ some argc
    → no_nul s ≡ true
    → length s < n
    → Ends (length s) (parseargs n c argc s)
unfolding parseargs
parseargs-Ends zero c argc s cmd e clean h = absurd (omega arith)
parseargs-Ends (suc n) c argc s cmd e clean h =
    let t : Token = gettoken (skip_space s) in
    let takes = (gettoken-Takes (skip_space s) (skip_space-no_nul s clean)).0 in
    let le = takes.shorter in
    let before = skip_space-length s in
    elim (Bool-cases (peek s (b'|' ∷ b')' ∷ b'&' ∷ b';' ∷ []))) [
      | inl p ↦ rw p (cmd, before, skip_space-no_nul s clean)
      | inr p ↦ rw p (elim (Bool-cases (t.ret == 0)) [
        | inl z ↦ rw z (cmd, omega arith, takes.clean)
        | inr z ↦ rw z (elim (Bool-cases (t.ret == b'a')) [
          | inr w ↦ rw w (omega arith)
          | inl w ↦ rw w (elim (Bool-cases (ltb (argc + 1) max_args)) [
            | inr many ↦ rw many (omega arith)
            | inl few ↦
                let lt = takes.eats (ground (arith, z)) in
                let (cmd', e') =
                  add_arg-IsCmd c argc t.text cmd e (ground (arith, few))
                    (takes.word ((==_iff _ _).0 w)) in
                rw few (
                  after t e' (omega arith) (parseredirs n (add_arg c t.text) t.rest)
                    (parseredirs-Ends n (add_arg c t.text) t.rest cmd' takes.clean (omega arith))
                    (λ c2 r cmd2 e2 short clean2.
                      parseargs-Ends n c2 (argc + 1) r cmd2 e2 clean2 (omega arith)))
          ])
        ])
      ])
    ]
  where
    after :
        (t : Token)
        → argc_of (add_arg c t.text) ≡ some (argc + 1)
        → length t.rest < length s
        → (o : Parsed) → EndsLike (add_arg c t.text) (length t.rest) o
        → ((c2 : Cmd) (r : List ℕ)
            → IsCmd c2
            → argc_of c2 ≡ some (argc + 1)
            → length r ≤ length t.rest
            → no_nul r ≡ true
            → Ends (length r) (parseargs n c2 (argc + 1) r))
        → Ends (length s) (and_then o (λ ret' s2. parseargs n ret' (argc + 1) s2))
    after t e' lt (parsed c2 r) (cmd2, like, short, clean2) next =
        Ends-fewer (length r) (length s) _ (omega arith) (next c2 r cmd2 (like ∙ e') short clean2)
    after t e' lt panics h next = omega arith
    after t e' lt no_fuel h next = h
