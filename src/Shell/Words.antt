-- ===== src/Shell/Words.antt =====
-- What gettoken takes off a line.
use computer_system.Prelude.{
  ℕ, ◌+◌, ◌≤◌, ◌<◌, ◌≡◌, ◌≢◌, refl, ◌∙◌, sym, ap, ◌⊎◌, inl, inr, Bool, true, false, not, ◌&&◌, List,
  [], ◌∷◌, length, ◌==◌, Bool-cases, arith,
}
use mathlib.Core.Path.{subst}
use computer_system.Shell.{
  whitespace, symbols, strchr, skip_space, split_word, Token, after_gt, token_at, gettoken, first,
  peek,
}

-- A byte of a word.
abbrev pub is_plain : ℕ → Bool
is_plain c = not (c == 0) && not (strchr whitespace c) && not (strchr symbols c)

abbrev pub all_plain : List ℕ → Bool
all_plain [] = true
all_plain (c ∷ s) = is_plain c && all_plain s

abbrev pub is_word : List ℕ → Bool
is_word [] = false
is_word (c ∷ s) = is_plain c && all_plain s

abbrev pub no_nul : List ℕ → Bool
no_nul [] = true
no_nul (c ∷ s) = not (c == 0) && no_nul s

pub skip_space-length : (s : List ℕ) → length (skip_space s) ≤ length s
unfolding skip_space
skip_space-length [] = omega arith
skip_space-length (c ∷ s) =
    let ih = skip_space-length s in
    elim (Bool-cases (strchr whitespace c)) [
      | inl e ↦ rw e (omega arith)
      | inr e ↦ rw e (omega arith)
    ]

pub skip_space-no_nul : (s : List ℕ) → no_nul s ≡ true → no_nul (skip_space s) ≡ true
unfolding skip_space
skip_space-no_nul [] h = refl
skip_space-no_nul (c ∷ s) h =
    let clean : no_nul s ≡ true = ground (arith, h) in
    let ih = skip_space-no_nul s clean in
    elim (Bool-cases (strchr whitespace c)) [ inl e ↦ rw e ih | inr e ↦ rw e h ]

pub skip_space-cases :
    (s : List ℕ)
    → (skip_space s ≡ [])
      ⊎ ((c : ℕ) × (r : List ℕ) × (skip_space s ≡ c ∷ r) × (strchr whitespace c ≡ false))
unfolding skip_space
skip_space-cases [] = inl refl
skip_space-cases (c ∷ s) =
    let ih = skip_space-cases s in
    elim (Bool-cases (strchr whitespace c)) [ inl e ↦ rw e ih | inr e ↦ rw e (inr (c, s, refl, e)) ]

pub skip_space_idempotent : (s : List ℕ) → skip_space (skip_space s) ≡ skip_space s
unfolding skip_space
skip_space_idempotent [] = refl
skip_space_idempotent (c ∷ s) =
    let ih = skip_space_idempotent s in
    elim (Bool-cases (strchr whitespace c)) [ inl e ↦ rw e ih | inr e ↦ rw (e, e) refl ]

split_word_lem :
    (s : List ℕ)
    → no_nul s ≡ true
    → (length ((split_word s).0) + length ((split_word s).1) ≡ length s)
      × (all_plain ((split_word s).0) ≡ true)
      × (no_nul ((split_word s).1) ≡ true)
unfolding split_word
split_word_lem [] h = (omega arith, refl, refl)
split_word_lem (c ∷ s) h =
    let clean : no_nul s ≡ true = ground (arith, h) in
    let there : (c == 0) ≡ false = ground (arith, h) in
    let (len, plain, rest) = split_word_lem s clean in
    elim (Bool-cases (not (strchr whitespace c) && not (strchr symbols c))) [
      | inl e ↦ rw e (omega arith, ground (arith, there, e, plain), rest)
      | inr e ↦ rw e (omega arith, refl, h)
    ]

-- A token of a line, and what is left of it.
pub record Takes (s : List ℕ) (t : Token) : Type 0 where
  pub shorter : length t.rest ≤ length s
  pub clean : no_nul t.rest ≡ true
  pub eats : t.ret ≢ 0 → length t.rest < length s
  pub word : t.ret ≡ b'a' → is_word t.text ≡ true

after_gt-Takes :
    (c : ℕ) (s : List ℕ) → no_nul s ≡ true → Takes (c ∷ s) (after_gt s) × ((after_gt s).ret ≢ 0)
after_gt-Takes c [] h = (
  record {
    shorter = omega arith;
    clean = refl;
    eats = λ n. omega arith;
    word = λ e. absurd (omega (arith, e));
  },
  λ z. omega (arith, z),
)
after_gt-Takes c (d ∷ s) h = elim (Bool-cases (d == b'>')) [
  | inl e ↦ rw e (
    record {
      shorter = omega arith;
      clean = ground (arith, h);
      eats = λ n. omega arith;
      word = λ q. absurd (omega (arith, q));
    },
    λ z. omega (arith, z),
  )
  | inr e ↦ rw e (
    record {
      shorter = omega arith;
      clean = h;
      eats = λ n. omega arith;
      word = λ q. absurd (omega (arith, q));
    },
    λ z. omega (arith, z),
  )
]

symbol_not_a : (c : ℕ) → strchr symbols c ≡ true → c ≢ b'a'
unfolding strchr
symbol_not_a c h e = ground (arith, h, e)

token_at-Takes :
    (c : ℕ) (s : List ℕ)
    → no_nul (c ∷ s) ≡ true
    → strchr whitespace c ≡ false
    → Takes (c ∷ s) (token_at (c ∷ s)) × ((token_at (c ∷ s)).ret ≢ 0)
unfolding token_at split_word
token_at-Takes c s h space =
    let there : (c == 0) ≡ false = ground (arith, h) in
    let clean : no_nul s ≡ true = ground (arith, h) in
    elim (Bool-cases (c == b'>')) [
      | inl e ↦ rw (there, e) (after_gt-Takes c s clean)
      | inr e ↦ elim (Bool-cases (strchr symbols c)) [
        | inl y ↦
            rw (there, e, y)
              (
                record {
                  shorter = omega arith;
                  clean = clean;
                  eats = λ n. omega arith;
                  word = λ q. absurd (symbol_not_a c y q);
                },
                ground (arith, there),
              )
        | inr n ↦
            let (len, plain, rest) = split_word_lem s clean in
            rw (there, e, n, space)
              (
                record {
                  shorter = omega arith;
                  clean = rest;
                  eats = λ z. omega arith;
                  word = λ q. ground (arith, there, space, n, plain);
                },
                λ z. ground (arith, z),
              )
      ]
    ]

-- White space goes with the token.
Takes-spaces :
    (s s1 : List ℕ) (t : Token)
    → length s1 ≤ length s
    → Takes s1 t
    → Takes s (record t { rest = skip_space t.rest })
Takes-spaces s s1 t short k =
    let after = skip_space-length t.rest in
    let le = k.shorter in
    record {
      shorter = omega arith;
      clean = skip_space-no_nul t.rest k.clean;
      eats = λ n. let lt = k.eats n in omega arith;
      word = k.word;
    }

-- gettoken returns 0 only at the end of the line; any other token is taken off it.
pub gettoken-Takes :
    (s : List ℕ)
    → no_nul s ≡ true
    → Takes s (gettoken s) × (first (skip_space s) ≢ 0 → (gettoken s).ret ≢ 0)
unfolding gettoken
gettoken-Takes s h = elim (skip_space-cases s) [
  | inl e ↦ rw e (
    record {
      shorter = omega arith;
      clean = refl;
      eats = λ n. absurd (n refl);
      word = λ q. absurd (omega (arith, q));
    },
    λ n. n,
  )
  | inr (c, r, e, n) ↦
      let clean : no_nul (c ∷ r) ≡ true = ap no_nul (sym e) ∙ skip_space-no_nul s h in
      let short : length (c ∷ r) ≤ length s =
        subst (λ q. length q ≤ length s) e (skip_space-length s) in
      let (k, there) = token_at-Takes c r clean n in
      rw e (Takes-spaces s (c ∷ r) (token_at (c ∷ r)) short k, λ z. there)
]

-- A symbol that peek finds is taken off the line.
pub peek-gettoken :
    (s toks : List ℕ)
    → no_nul s ≡ true
    → peek s toks ≡ true
    → (length ((gettoken (skip_space s)).rest) < length s)
      × (no_nul ((gettoken (skip_space s)).rest) ≡ true)
unfolding peek
peek-gettoken s toks h p =
    let (k, there) = gettoken-Takes (skip_space s) (skip_space-no_nul s h) in
    let here : first (skip_space (skip_space s)) ≢ 0 =
      λ z. ground (arith, p, ap first (sym (skip_space_idempotent s)) ∙ z) in
    let lt = k.eats (there here) in let le = skip_space-length s in (omega arith, k.clean)
