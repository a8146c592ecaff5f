-- ===== src/Grep/Matches.antt =====
-- What grep's patterns mean, and that the matcher decides it.
use computer_system.Prelude.{
  ℕ, ◌≡◌, ◌≢◌, ◌⊎◌, inl, inr, refl, Bool, true, List, [], ◌∷◌, ◌==◌, Bool-cases, arith,
}
use computer_system.Grep.{match_star, match_char, match_here, match_any, match, is_nil}

-- `.` stands for any byte, and another byte for itself.
abbrev pub Accepts : ℕ → ℕ → Type 0
Accepts c x = (c ≡ b'.') ⊎ (c ≡ x)

-- Some bytes that c accepts, and then a text of P.
pub data Star (P : List ℕ → Type 0) (c : ℕ) : List ℕ → Type 0 where
  stop : {text : List ℕ} → P text → Star P c text
  more : {x : ℕ} {text : List ℕ} → Accepts c x → Star P c text → Star P c (x ∷ text)

-- A text of P stands somewhere in the text, up to its end.
pub data Somewhere (P : List ℕ → Type 0) : List ℕ → Type 0 where
  now : {text : List ℕ} → P text → Somewhere P text
  later : {x : ℕ} {text : List ℕ} → Somewhere P text → Somewhere P (x ∷ text)

-- A byte that c accepts, and then a text of P.
abbrev pub Char : (List ℕ → Type 0) → ℕ → List ℕ → Type 0
Char P c [] = ⊥
Char P c (x ∷ text) = Accepts c x × P text

-- The pattern matches at the start of the text: `c*` is any number of bytes that c accepts, `$` at
-- the end of the pattern is the end of the text, and any other byte is one that it accepts.
abbrev pub Matches : List ℕ → List ℕ → Type 0
Matches [] text = Unit
Matches (c ∷ []) text = ((c ≡ b'$') × (text ≡ [])) ⊎ ((c ≢ b'$') × Char (Matches []) c text)
Matches (c ∷ d ∷ re) text =
    ((d ≡ b'*') × Star (Matches re) c text) ⊎ ((d ≢ b'*') × Char (Matches (d ∷ re)) c text)

-- At the start for a pattern behind `^`, else anywhere.
abbrev pub Finds : List ℕ → List ℕ → Type 0
Finds [] text = Somewhere (Matches []) text
Finds (c ∷ re) text =
    ((c ≡ b'^') × Matches re text) ⊎ ((c ≢ b'^') × Somewhere (Matches (c ∷ re)) text)

-- A test that decides a predicate of texts.
abbrev Decides : (List ℕ → Bool) → (List ℕ → Type 0) → Type 0
Decides f P = (text : List ℕ) → (f text ≡ true → P text) × (P text → f text ≡ true)

module _ (f : List ℕ → Bool) (P : List ℕ → Type 0) (c : ℕ) (d : Decides f P) where
  Star-of_match_star : (text : List ℕ) → match_star f c text ≡ true → Star P c text
  unfolding match_star
  Star-of_match_star [] e = stop ((d []).0 e)
  Star-of_match_star (x ∷ text) e = elim (Bool-cases (f (x ∷ text))) [
    | inl h ↦ stop ((d (x ∷ text)).0 h)
    | inr n ↦ more (ground arith) (Star-of_match_star text (ground arith))
  ]

  match_star_of_Star : {text : List ℕ} → Star P c text → match_star f c text ≡ true
  unfolding match_star
  match_star_of_Star (stop {text = []} h) = (d []).1 h
  match_star_of_Star (stop {text = x ∷ text} h) = ground (arith, (d (x ∷ text)).1 h)
  match_star_of_Star (more a s) = ground (arith, match_star_of_Star s)

  match_star-Decides : Decides (match_star f c) (Star P c)
  match_star-Decides text = (Star-of_match_star text, match_star_of_Star)

  match_char-Decides : Decides (match_char f c) (Char P c)
  unfolding match_char
  match_char-Decides [] = (λ e. cc, λ h. absurd h)
  match_char-Decides (x ∷ text) =
      (λ e. (ground arith, (d text).0 (ground arith)), λ h. ground (arith, (d text).1 h.1))

-- The last character of a pattern.
is_nil-Decides : Decides is_nil (λ text. text ≡ [])
is_nil-Decides [] = (λ e. refl, λ e. refl)
is_nil-Decides (x ∷ text) = (λ e. cc, λ e. cc)

match_here-Decides : (re : List ℕ) → Decides (match_here re) (Matches re)
unfolding match_here
match_here-Decides [] text = (λ e. tt, λ h. refl)
match_here-Decides (c ∷ []) text = elim (Bool-cases (c == b'$')) [
  | inl e ↦ rw e (
    λ h. inl (ground arith, (is_nil-Decides text).0 h),
    λ h. elim h [ inl k ↦ (is_nil-Decides text).1 k.1 | inr k ↦ absurd (k.0 (ground arith)) ],
  )
  | inr n ↦ rw n (
    λ h. inr (
      ground arith,
      (match_char-Decides (match_here []) (Matches []) c (match_here-Decides []) text).0 h,
    ),
    λ h. elim h [
      | inl k ↦ absurd (ground (arith, k.0))
      | inr k ↦
          (match_char-Decides (match_here []) (Matches []) c (match_here-Decides []) text).1 k.1
    ],
  )
]
match_here-Decides (c ∷ d ∷ re) text = elim (Bool-cases (d == b'*')) [
  | inl e ↦ rw e (
    λ h. inl (
      ground arith,
      (match_star-Decides (match_here re) (Matches re) c (match_here-Decides re) text).0 h,
    ),
    λ h. elim h [
      | inl k ↦
          (match_star-Decides (match_here re) (Matches re) c (match_here-Decides re) text).1 k.1
      | inr k ↦ absurd (k.0 (ground arith))
    ],
  )
  | inr n ↦ rw n (
    λ h. inr (
      ground arith,
      (match_char-Decides (match_here (d ∷ re)) (Matches (d ∷ re)) c (match_here-Decides (d ∷ re))
            text).0
          h,
    ),
    λ h. elim h [
      | inl k ↦ absurd (ground (arith, k.0))
      | inr k ↦
          (match_char-Decides (match_here (d ∷ re)) (Matches (d ∷ re)) c
              (match_here-Decides (d ∷ re)) text).1
            k.1
    ],
  )
]

module _ (re : List ℕ) where
  Somewhere-of_match_any : (text : List ℕ) → match_any re text ≡ true → Somewhere (Matches re) text
  unfolding match_any
  Somewhere-of_match_any [] e = now ((match_here-Decides re []).0 e)
  Somewhere-of_match_any (x ∷ text) e = elim (Bool-cases (match_here re (x ∷ text))) [
    | inl h ↦ now ((match_here-Decides re (x ∷ text)).0 h)
    | inr n ↦ later (Somewhere-of_match_any text (ground arith))
  ]

  match_any_of_Somewhere : {text : List ℕ} → Somewhere (Matches re) text → match_any re text ≡ true
  unfolding match_any
  match_any_of_Somewhere (now {text = []} h) = (match_here-Decides re []).1 h
  match_any_of_Somewhere (now {text = x ∷ text} h) =
      ground (arith, (match_here-Decides re (x ∷ text)).1 h)
  match_any_of_Somewhere (later s) = ground (arith, match_any_of_Somewhere s)

  match_any-Decides : Decides (match_any re) (Somewhere (Matches re))
  match_any-Decides text = (Somewhere-of_match_any text, match_any_of_Somewhere)

-- grep's matcher ends for every pattern and line, and accepts exactly the lines that the pattern
-- describes: at the start of the line for a pattern behind `^`, and anywhere in it for another.
pub match_decides :
    (re text : List ℕ)
    → (match re text ≡ true → Finds re text) × (Finds re text → match re text ≡ true)
unfolding match
match_decides [] text = match_any-Decides [] text
match_decides (c ∷ re) text = elim (Bool-cases (c == b'^')) [
  | inl e ↦ rw e (
    λ h. inl (ground arith, (match_here-Decides re text).0 h),
    λ h. elim h [
      | inl k ↦ (match_here-Decides re text).1 k.1
      | inr k ↦ absurd (k.0 (ground arith))
    ],
  )
  | inr n ↦ rw n (
    λ h. inr (ground arith, (match_any-Decides (c ∷ re) text).0 h),
    λ h. elim h [
      | inl k ↦ absurd (ground (arith, k.0))
      | inr k ↦ (match_any-Decides (c ∷ re) text).1 k.1
    ],
  )
]
