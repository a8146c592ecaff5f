-- ===== src/Pipe/Queue.antt =====
-- A pipe's buffer as the queue of the bytes in it, with counters that wrap at 2^32.
use computer_system.Prelude.{
  ℕ, zero, suc, ◌+◌, ◌-◌, ◌%◌, ◌^◌, ◌≤◌, ◌<◌, ◌≡◌, refl, ◌∙◌, ap, ap₂, ◌≢◌, true, false, List, [],
  ◌∷◌, ◌++◌, length, length-set, set, get_or, arith,
}
use native.Mathlib.Nat.{add-zero}
use computer_system.Pipe.{Pipe, pipe_size, uint, is_full, put, front, drop_front, fresh}

-- nwrite - nread, as a uint.
abbrev pub count : Pipe → ℕ
count pi = (pi.nwrite + 2 ^ 32 - pi.nread) % 2 ^ 32

pub record IsValid (pi : Pipe) : Type 0 where
  pub whole : length pi.buf ≡ pipe_size
  pub nread_fits : pi.nread < 2 ^ 32
  pub nwrite_fits : pi.nwrite < 2 ^ 32
  pub bounded : count pi ≤ pipe_size

-- `n` bytes of the buffer from counter `r` on.
abbrev pub window : List ℕ → ℕ → ℕ → List ℕ
window buf r zero = []
window buf r (suc n) = get_or buf (r % pipe_size) 0 ∷ window buf (uint (r + 1)) n

-- The bytes in the pipe, the oldest first.
abbrev pub contents : Pipe → List ℕ
contents pi = window pi.buf pi.nread (count pi)

get_or-set_self : (xs : List ℕ) (i : ℕ) (v : ℕ) → i < length xs → get_or (set xs i v) i 0 ≡ v
get_or-set_self [] i v h = absurd (omega arith)
get_or-set_self (x ∷ xs) zero v h = refl
get_or-set_self (x ∷ xs) (suc i) v h = get_or-set_self xs i v (omega arith)

get_or-set_ne : (xs : List ℕ) (i j : ℕ) (v : ℕ) → i ≢ j → get_or (set xs i v) j 0 ≡ get_or xs j 0
get_or-set_ne [] i j v h = refl
get_or-set_ne (x ∷ xs) zero zero v h = absurd (h refl)
get_or-set_ne (x ∷ xs) zero (suc j) v h = refl
get_or-set_ne (x ∷ xs) (suc i) zero v h = refl
get_or-set_ne (x ∷ xs) (suc i) (suc j) v h = get_or-set_ne xs i j v (λ e. h (ap suc e))

pub length-window : (buf : List ℕ) (r n : ℕ) → length (window buf r n) ≡ n
length-window buf r zero = refl
length-window buf r (suc n) = ap suc (length-window buf (uint (r + 1)) n)

-- A write just past the window extends it.
window-set :
    (buf : List ℕ) (ch n r i : ℕ)
    → length buf ≡ pipe_size
    → n < pipe_size
    → i ≡ (r + n) % pipe_size
    → window (set buf i ch) r (suc n) ≡ window buf r n ++ (ch ∷ [])
window-set buf ch zero r i whole small e =
    ap (λ b. b ∷ []) (rw e (rw add-zero (get_or-set_self buf (r % pipe_size) ch (omega arith))))
window-set buf ch (suc n) r i whole small e =
    ap₂ ◌∷◌ (get_or-set_ne buf i (r % pipe_size) ch (omega arith))
      (window-set buf ch n (uint (r + 1)) i whole (omega arith) (omega arith))

window-ne_zero :
    (buf : List ℕ) (r n : ℕ)
    → n ≢ 0
    → window buf r n ≡ get_or buf (r % pipe_size) 0 ∷ window buf (uint (r + 1)) (n - 1)
window-ne_zero buf r zero h = absurd (h refl)
window-ne_zero buf r (suc n) h = ap (λ k. window buf r (suc k)) (omega arith)

module _ {pi : Pipe} (v : IsValid pi) where
  pub length-contents : length (contents pi) ≡ count pi
  length-contents = length-window pi.buf pi.nread (count pi)

  -- The test of the code for a full pipe is exact, though the counters wrap.
  pub is_full_iff :
      (is_full pi ≡ true → count pi ≡ pipe_size) × (is_full pi ≡ false → count pi < pipe_size)
  is_full_iff = (
    λ e. ground (arith, v.nread_fits, v.nwrite_fits),
    λ e. ground (arith, v.nread_fits, v.nwrite_fits, v.bounded),
  )

  pub put-IsValid : (ch : ℕ) → count pi < pipe_size → IsValid (put pi ch)
  unfolding put
  put-IsValid ch h = record {
    whole = length-set pi.buf (pi.nwrite % pipe_size) ch ∙ v.whole;
    nread_fits = v.nread_fits;
    nwrite_fits = omega arith;
    bounded = omega (arith, v.nread_fits, v.nwrite_fits);
  }

  pub contents-put :
      (ch : ℕ) → count pi < pipe_size → contents (put pi ch) ≡ contents pi ++ (ch ∷ [])
  unfolding put
  contents-put ch h =
      ap (window (set pi.buf (pi.nwrite % pipe_size) ch) pi.nread) {y = suc (count pi)}
        (omega (arith, v.nread_fits, v.nwrite_fits))
      ∙ window-set pi.buf ch (count pi) pi.nread (pi.nwrite % pipe_size) v.whole h
          (omega (arith, v.nread_fits, v.nwrite_fits))

  pub drop_front-IsValid : pi.nread ≢ pi.nwrite → IsValid (drop_front pi)
  unfolding drop_front
  drop_front-IsValid h = record {
    whole = v.whole;
    nread_fits = omega arith;
    nwrite_fits = v.nwrite_fits;
    bounded = omega (arith, v.nread_fits, v.nwrite_fits, v.bounded);
  }

  pub contents-drop_front : pi.nread ≢ pi.nwrite → contents pi ≡ front pi ∷ contents (drop_front pi)
  unfolding front drop_front
  contents-drop_front h =
      window-ne_zero pi.buf pi.nread (count pi) (omega (arith, v.nread_fits, v.nwrite_fits))
      ∙ ap (λ n. get_or pi.buf (pi.nread % pipe_size) 0 ∷ window pi.buf (uint (pi.nread + 1)) n)
          (omega (arith, v.nread_fits, v.nwrite_fits))

  pub contents-empty : pi.nread ≡ pi.nwrite → contents pi ≡ []
  contents-empty h = ap (window pi.buf pi.nread) {y = 0} (omega (arith, v.nread_fits))

pub fresh-IsValid : (junk : List ℕ) → length junk ≡ pipe_size → IsValid (fresh junk)
unfolding fresh
fresh-IsValid junk h = omega arith
