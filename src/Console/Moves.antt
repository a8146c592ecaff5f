-- ===== src/Console/Moves.antt =====
-- What a byte put at the end of the ring, one taken back and the end of a line do to its two runs.
use computer_system.Prelude.{
  ℕ, zero, suc, ◌+◌, ◌%◌, ◌<◌, ◌≡◌, ◌≢◌, refl, ◌∙◌, sym, ap, ap₂, List, [], ◌∷◌, ◌++◌, All, length,
  set, get_or, arith,
}
use mathlib.Core.Path.{subst}
use computer_system.Console.{Cons, input_buf, uint, minus, put}
use computer_system.Console.Ring.{
  bytes, ready, edited, IsRing, OneLine, IsValid, bytes-set, bytes-append, bytes-snoc,
  get_or-set_self,
}

pub length-bytes : (buf : List ℕ) (i n : ℕ) → length (bytes buf i n) ≡ n
length-bytes buf i zero = refl
length-bytes buf i (suc n) = ap suc (length-bytes buf (uint (i + 1)) n)

abbrev pub drop_last : List ℕ → List ℕ
drop_last [] = []
drop_last (x ∷ []) = []
drop_last (x ∷ y ∷ xs) = x ∷ drop_last (y ∷ xs)

pub drop_last-snoc : (xs : List ℕ) (x : ℕ) → drop_last (xs ++ (x ∷ [])) ≡ xs
drop_last-snoc [] x = refl
drop_last-snoc (y ∷ []) x = refl
drop_last-snoc (y ∷ z ∷ xs) x = ap (λ q. y ∷ q) (drop_last-snoc (z ∷ xs) x)

pub All-snoc : (P : ℕ → Type 0) (xs : List ℕ) (x : ℕ) → All P (xs ++ (x ∷ [])) → All P xs × P x
All-snoc P [] x h = (tt, h.0)
All-snoc P (y ∷ xs) x h = let (a, b) = All-snoc P xs x h.1 in ((h.0, a), b)

module _ (c : Cons) (v : IsRing c) where
  pub length-lines : length (ready c) + length (edited c) ≡ minus c.e c.r
  length-lines = omega (
    arith,
    length-bytes c.buf c.r (minus c.w c.r),
    length-bytes c.buf c.w (minus c.e c.w),
    v.r_fits,
    v.w_fits,
    v.e_fits,
    v.bounded,
  )

  module _ (ch : ℕ) (room : minus c.e c.r < input_buf) where
    pub ready-put : ready (put c ch) ≡ ready c
    unfolding put
    ready-put =
        ap (λ j. bytes (set c.buf j ch) c.r (minus c.w c.r)) {x = c.e % input_buf}
          {y = (c.r + minus c.e c.r) % input_buf} (omega (arith, v.r_fits, v.e_fits))
        ∙ bytes-set c.buf ch (minus c.w c.r) c.r (minus c.e c.r)
            (omega (arith, v.r_fits, v.w_fits, v.e_fits, v.bounded)) room

    pub edited-put : edited (put c ch) ≡ edited c ++ (ch ∷ [])
    unfolding put
    edited-put =
        ap (bytes (set c.buf (c.e % input_buf) ch) c.w) {y = minus c.e c.w + 1}
          (omega (arith, v.r_fits, v.w_fits, v.e_fits, v.bounded))
        ∙ bytes-snoc (set c.buf (c.e % input_buf) ch) (minus c.e c.w) c.w v.w_fits
        ∙ ap₂ (λ q b. q ++ (b ∷ [])) same last
      where
        here : c.e % input_buf ≡ (c.w + minus c.e c.w) % input_buf
        here = omega (arith, v.w_fits, v.e_fits)

        same :
            bytes (set c.buf (c.e % input_buf) ch) c.w (minus c.e c.w)
            ≡ bytes c.buf c.w (minus c.e c.w)
        same =
            ap (λ j. bytes (set c.buf j ch) c.w (minus c.e c.w)) here
            ∙ bytes-set c.buf ch (minus c.e c.w) c.w (minus c.e c.w) (omega arith)
                (omega (arith, v.r_fits, v.w_fits, v.e_fits, v.bounded))

        last : get_or (set c.buf (c.e % input_buf) ch) ((c.w + minus c.e c.w) % input_buf) 0 ≡ ch
        last =
            ap (λ j. get_or (set c.buf (c.e % input_buf) ch) j 0) (sym here)
            ∙ get_or-set_self c.buf (c.e % input_buf) ch (omega (arith, v.whole))

  -- One byte back, where there is one.
  pub edited-back :
      c.e ≢ c.w
      → edited c
        ≡ edited (record c { e = minus c.e 1 }) ++ (get_or c.buf (minus c.e 1 % input_buf) 0 ∷ [])
  edited-back ne =
      ap (bytes c.buf c.w) {y = minus (minus c.e 1) c.w + 1} (omega (arith, v.w_fits, v.e_fits))
      ∙ bytes-snoc c.buf (minus (minus c.e 1) c.w) c.w v.w_fits
      ∙ ap (λ j. bytes c.buf c.w (minus (minus c.e 1) c.w) ++ (get_or c.buf j 0 ∷ []))
          (omega (arith, v.w_fits, v.e_fits))

  pub back-IsValid : c.e ≢ c.w → OneLine (edited c) → IsValid (record c { e = minus c.e 1 })
  back-IsValid ne o = record {
    ring = record {
      whole = v.whole;
      r_fits = v.r_fits;
      w_fits = v.w_fits;
      e_fits = omega arith;
      bounded = omega (arith, v.r_fits, v.w_fits, v.e_fits, v.bounded);
    };
    one_line = (All-snoc (λ b. b ≢ b'\n') _ _ (subst OneLine (edited-back ne) o)).0;
  }

  pub last_byte : c.e ≢ c.w → OneLine (edited c) → get_or c.buf (minus c.e 1 % input_buf) 0 ≢ b'\n'
  last_byte ne o = (All-snoc (λ b. b ≢ b'\n') _ _ (subst OneLine (edited-back ne) o)).1

  pub ready-commit : ready (record c { w = c.e }) ≡ ready c ++ edited c
  ready-commit =
      ap (bytes c.buf c.r) {y = minus c.w c.r + minus c.e c.w}
        (omega (arith, v.r_fits, v.w_fits, v.e_fits, v.bounded))
      ∙ bytes-append c.buf (minus c.w c.r) (minus c.e c.w) c.r v.r_fits
      ∙ ap (λ j. ready c ++ bytes c.buf j (minus c.e c.w)) (omega (arith, v.r_fits, v.w_fits))

  pub edited-commit : edited (record c { w = c.e }) ≡ []
  edited-commit = ap (bytes c.buf c.e) {y = 0} (omega (arith, v.e_fits))
