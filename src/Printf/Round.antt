-- ===== src/Printf/Round.antt =====
-- printint: it keeps within buf, and atoi reads back what it prints.
use computer_system.Prelude.{
  ℕ, zero, suc, ◌+◌, ◌-◌, ◌*◌, ◌/◌, ◌%◌, ◌^◌, ◌≤◌, ◌<◌, ◌≡◌, refl, ◌∙◌, sym, ap, ◌⊎◌, inl, inr,
  Bool, true, false, ◌&&◌, Option, none, some, some-injective, List, [], ◌∷◌, ltb, leb, ◌==◌,
  ==_iff, Bool-cases, length, arith,
}
use mathlib.Core.Path.{subst}
use computer_system.Prelude.Int.{ℤ, pos, negsuc}
use computer_system.Printf.{
  digit, buf_size, cons_to, fill_buf, put_back, magnitude, put_sign, printint, atoi_from, atoi,
}

-- 10^k
abbrev ten_pow : ℕ → ℕ
ten_pow zero = 1
ten_pow (suc k) = 10 * ten_pow k

abbrev IsBase : ℕ → Type 0
IsBase base = (base ≡ 10) ⊎ (base ≡ 16)

quotient : (x base t : ℕ) → IsBase base → x < 10 * t → x / base < t
quotient x base t (inl e) h = subst (λ b. x / b < t) (sym e) (omega arith)
quotient x base t (inr e) h = subst (λ b. x / b < t) (sym e) (omega arith)

abbrev Fits : ℕ → Option (List ℕ) → Type 0
Fits k none = ⊥
Fits k (some ds) = length ds ≤ k

cons_to-Fits : (k d : ℕ) (o : Option (List ℕ)) → Fits k o → Fits (suc k) (cons_to d o)
cons_to-Fits k d none h = h
cons_to-Fits k d (some ds) h = omega arith

fill_buf-Fits :
    (k left x base : ℕ)
    → IsBase base
    → x < ten_pow (suc k)
    → k < left
    → Fits (suc k) (fill_buf left x base)
unfolding fill_buf
fill_buf-Fits k zero x base b h room = absurd (omega arith)
fill_buf-Fits zero (suc left) x base b h room =
    let z : (x / base == 0) ≡ true = ground (arith, quotient x base 1 b h) in rw z (omega arith)
fill_buf-Fits (suc k) (suc left) x base b h room = elim (Bool-cases (x / base == 0)) [
  | inl z ↦ rw z (omega arith)
  | inr nz ↦ rw nz (
      cons_to-Fits (suc k) (digit (x % base)) _ (
        fill_buf-Fits k left (x / base) base b (quotient x base (ten_pow (suc k)) b h)
          (omega arith)))
]

length-put_back : (ds out : List ℕ) → length (put_back ds out) ≡ length ds + length out
length-put_back [] out = omega arith
length-put_back (d ∷ ds) out = omega (arith, length-put_back ds (d ∷ out))

-- The values of an int.
abbrev pub IsInt : ℤ → Type 0
IsInt (pos n) = n < 2 ^ 31
IsInt (negsuc n) = n < 2 ^ 31

small_magnitude : (xx : ℤ) (sgn : Bool) → IsInt xx → (magnitude xx sgn).0 < ten_pow 10
small_magnitude (pos n) true h = omega arith
small_magnitude (pos n) false h = omega arith
small_magnitude (negsuc n) true h = omega arith
small_magnitude (negsuc n) false h = omega arith

-- printint of an int, in base 10 or 16, never writes past its buffer: it puts at most 11 bytes.
pub printint-IsBounded :
    (xx : ℤ) (base : ℕ) (sgn : Bool)
    → IsInt xx
    → (base ≡ 10) ⊎ (base ≡ 16)
    → (out : List ℕ) × (printint xx base sgn ≡ some out) × (length out ≤ 11)
unfolding printint
printint-IsBounded xx base sgn h b =
    go (fill_buf buf_size (magnitude xx sgn).0 base)
      (fill_buf-Fits 9 buf_size ((magnitude xx sgn).0) base b (small_magnitude xx sgn h)
        (omega arith))
      ((magnitude xx sgn).1)
  where
    go :
        (o : Option (List ℕ))
        → Fits 10 o
        → (neg : Bool)
        → (out : List ℕ) × ((elim o [ none ↦ none | some ds ↦ put_sign neg ds ]) ≡ some out)
          × (length out ≤ 11)
    go none fits neg = absurd fits
    go (some ds) fits false = (put_back ds [], refl, omega (arith, length-put_back ds []))
    go (some ds) fits true =
        let room : ltb (length ds) buf_size ≡ true = ground arith in
        (45 ∷ put_back ds [], rw room refl, omega (arith, length-put_back ds []))

-- A decimal digit, read after the number before it.
atoi_from-digit :
    (x : ℕ) (out : List ℕ) → atoi_from (x / 10) (digit (x % 10) ∷ out) ≡ atoi_from x out
unfolding atoi_from
atoi_from-digit x out =
    let low : digit (x % 10) ≡ 48 + x % 10 = ground arith in
    let test : (leb 48 (48 + x % 10) && leb (48 + x % 10) 57) ≡ true = ground arith in
    let value : x / 10 * 10 + (48 + x % 10) - 48 ≡ x = omega arith in rw (low, test, value) refl

cons_to-some :
    (d : ℕ) (o : Option (List ℕ)) (ds : List ℕ)
    → cons_to d o ≡ some ds
    → (ds' : List ℕ) × (o ≡ some ds') × (ds ≡ d ∷ ds')
cons_to-some d none ds e = absurd (ground (arith, e))
cons_to-some d (some ds') ds e = (ds', refl, sym (some-injective _ _ e))

atoi_from-fill_buf :
    (left x : ℕ) (ds out : List ℕ)
    → fill_buf left x 10 ≡ some ds
    → atoi_from 0 (put_back ds out) ≡ atoi_from x out
unfolding fill_buf
atoi_from-fill_buf zero x ds out e = absurd (ground (arith, e))
atoi_from-fill_buf (suc left) x ds out e = elim (Bool-cases (x / 10 == 0)) [
  | inl z ↦
      let one : ds ≡ digit (x % 10) ∷ [] = sym (some-injective _ _ (sym (last z) ∙ e)) in
      ap (λ q. atoi_from 0 (put_back q out)) one
      ∙ ap (λ q. atoi_from q (digit (x % 10) ∷ out)) (sym ((==_iff _ _).0 z))
      ∙ atoi_from-digit x out
  | inr nz ↦
      let (ds', e', split) =
        cons_to-some (digit (x % 10)) (fill_buf left (x / 10) 10) ds (sym (more nz) ∙ e) in
      ap (λ q. atoi_from 0 (put_back q out)) split
      ∙ atoi_from-fill_buf left (x / 10) ds' (digit (x % 10) ∷ out) e'
      ∙ atoi_from-digit x out
]
  where
    last : (x / 10 == 0) ≡ true → fill_buf (suc left) x 10 ≡ some (digit (x % 10) ∷ [])
    last z = rw z refl

    more :
        (x / 10 == 0) ≡ false
        → fill_buf (suc left) x 10 ≡ cons_to (digit (x % 10)) (fill_buf left (x / 10) 10)
    more nz = rw nz refl

-- atoi reads back the decimal digits of an int that is not negative.
pub atoi-printint : (n : ℕ) (s : List ℕ) → printint (pos n) 10 true ≡ some s → atoi s ≡ n
unfolding printint atoi atoi_from
atoi-printint n s e = go (fill_buf buf_size n 10) refl e
  where
    go :
        (o : Option (List ℕ))
        → fill_buf buf_size n 10 ≡ o
        → (elim o [ none ↦ none | some ds ↦ put_sign false ds ]) ≡ some s
        → atoi_from 0 s ≡ n
    go none f e' = absurd (ground (arith, e'))
    go (some ds) f e' =
        ap (atoi_from 0) (sym (some-injective _ _ e')) ∙ atoi_from-fill_buf buf_size n ds [] f
