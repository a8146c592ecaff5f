-- ===== src/Console/Ring.antt =====
-- The ring as two runs of bytes: the lines ready for readers and the line that is being edited.
use computer_system.Prelude.{
  ℕ, zero, suc, ◌+◌, ◌-◌, ◌%◌, ◌^◌, ◌≤◌, ◌<◌, ◌≡◌, ◌≢◌, refl, ◌∙◌, ap, ap₂, List, [], ◌∷◌, ◌++◌,
  All, length, set, get_or, arith,
}
use computer_system.Console.{Cons, input_buf, uint, minus}

-- n bytes of the buffer from counter i on.
abbrev pub bytes : List ℕ → ℕ → ℕ → List ℕ
bytes buf i zero = []
bytes buf i (suc n) = get_or buf (i % input_buf) 0 ∷ bytes buf (uint (i + 1)) n

-- cons.buf from r to w, and from w to e
abbrev pub ready : Cons → List ℕ
ready c = bytes c.buf c.r (minus c.w c.r)

abbrev pub edited : Cons → List ℕ
edited c = bytes c.buf c.w (minus c.e c.w)

pub record IsRing (c : Cons) : Type 0 where
  pub whole : length c.buf ≡ input_buf
  pub r_fits : c.r < 2 ^ 32
  pub w_fits : c.w < 2 ^ 32
  pub e_fits : c.e < 2 ^ 32
  pub bounded : minus c.w c.r + minus c.e c.w ≤ input_buf

-- No line feed stands in the line that is being edited.
abbrev pub OneLine : List ℕ → Type 0
OneLine = All (λ b. b ≢ b'\n')

pub record IsValid (c : Cons) : Type 0 where
  pub ring : IsRing c
  pub one_line : OneLine (edited c)

pub get_or-set_self : (xs : List ℕ) (i v : ℕ) → i < length xs → get_or (set xs i v) i 0 ≡ v
get_or-set_self [] i v h = absurd (omega arith)
get_or-set_self (x ∷ xs) zero v h = refl
get_or-set_self (x ∷ xs) (suc i) v h = get_or-set_self xs i v (omega arith)

get_or-set_ne : (xs : List ℕ) (i j v : ℕ) → i ≢ j → get_or (set xs i v) j 0 ≡ get_or xs j 0
get_or-set_ne [] i j v h = refl
get_or-set_ne (x ∷ xs) zero zero v h = absurd (h refl)
get_or-set_ne (x ∷ xs) zero (suc j) v h = refl
get_or-set_ne (x ∷ xs) (suc i) zero v h = refl
get_or-set_ne (x ∷ xs) (suc i) (suc j) v h = get_or-set_ne xs i j v (λ e. h (ap suc e))

-- A write behind the run leaves it alone.
pub bytes-set :
    (buf : List ℕ) (v n i k : ℕ)
    → n ≤ k
    → k < input_buf
    → bytes (set buf ((i + k) % input_buf) v) i n ≡ bytes buf i n
bytes-set buf v zero i k h l = refl
bytes-set buf v (suc n) i k h l =
    ap₂ ◌∷◌ (get_or-set_ne buf ((i + k) % input_buf) (i % input_buf) v (omega arith)) (
      ap (λ j. bytes (set buf j v) (uint (i + 1)) n) {x = (i + k) % input_buf}
        {y = (uint (i + 1) + (k - 1)) % input_buf} (omega arith)
      ∙ bytes-set buf v n (uint (i + 1)) (k - 1) (omega arith) (omega arith))

-- Two runs, one behind the other.
pub bytes-append :
    (buf : List ℕ) (m n i : ℕ)
    → i < 2 ^ 32
    → bytes buf i (m + n) ≡ bytes buf i m ++ bytes buf (uint (i + m)) n
bytes-append buf zero n i h =
    ap₂ (λ j k. bytes buf j k) {x = i} {y = uint (i + 0)} {u = 0 + n} {v = n} (omega arith)
      (omega arith)
bytes-append buf (suc m) n i h =
    ap (bytes buf i) {x = suc m + n} {y = suc (m + n)} (omega arith)
    ∙ ap (λ q. get_or buf (i % input_buf) 0 ∷ q)
        (bytes-append buf m n (uint (i + 1)) (omega arith)
          ∙ ap (λ j. bytes buf (uint (i + 1)) m ++ bytes buf j n) (omega arith))

-- The byte behind a run.
pub bytes-snoc :
    (buf : List ℕ) (n i : ℕ)
    → i < 2 ^ 32
    → bytes buf i (n + 1) ≡ bytes buf i n ++ (get_or buf ((i + n) % input_buf) 0 ∷ [])
bytes-snoc buf n i h =
    bytes-append buf n 1 i h ∙ ap (λ j. bytes buf i n ++ (get_or buf j 0 ∷ [])) (omega arith)
