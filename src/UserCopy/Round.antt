-- ===== src/UserCopy/Round.antt =====
-- copyin after copyout.
use computer_system.Prelude.{
  ℕ, suc, ◌+◌, ◌/◌, ◌%◌, ◌<◌, ◌≡◌, ◌≢◌, refl, ◌∙◌, sym, ap, inl, inr, true, false, List, [], ◌∷◌,
  ◌==◌, Bool-cases, arith, update, length,
}
use mathlib.Core.Path.{subst}
use computer_system.Kalloc.{page_size}
use computer_system.Vm.{Memory, page_round_down, ok}
use computer_system.UserCopy.{copyin, copyout}
use computer_system.UserCopy.Bytes.{user_at, load, copyin_lem}
use computer_system.UserCopy.Out.{with_bytes, store_bytes, walkaddr-with_bytes, copyout_lem}

ok-injective : {A : Type 0} {a b : A} → ok a ≡ ok b → a ≡ b
ok-injective {A} {a} {b} e = ground (arith, e)

suc-injective : {i j : ℕ} → suc i ≡ suc j → i ≡ j
suc-injective e = omega arith

user_at-with_bytes :
    (m : Memory) (byte : ℕ → ℕ) (pt va : ℕ) → user_at (with_bytes m byte) pt va ≡ user_at m pt va
user_at-with_bytes m byte pt va = rw (walkaddr-with_bytes m byte pt (page_round_down va)) refl

-- No two of the first n addresses from va on share a byte.
abbrev pub Apart : Memory → ℕ → ℕ → ℕ → Type 0
Apart m pt va n = (i j : ℕ) → i < n → j < n → user_at m pt (va + i) ≡ user_at m pt (va + j) → i ≡ j

user_at-store_bytes :
    (m : Memory) (pt va : ℕ) (bs : List ℕ) (q : ℕ)
    → user_at ((store_bytes m pt va bs).0) pt q ≡ user_at m pt q
unfolding store_bytes
user_at-store_bytes m pt va [] q = refl
user_at-store_bytes m pt va (b ∷ bs) q = elim (Bool-cases (user_at m pt va == 0)) [
  | inl z ↦ rw z refl
  | inr nz ↦
      rw nz (user_at-store_bytes (with_bytes m _) pt (va + 1) bs q ∙ user_at-with_bytes m _ pt q)
]

store_elsewhere :
    (m : Memory) (pt va : ℕ) (bs : List ℕ) (a : ℕ)
    → ((i : ℕ) → i < length bs → user_at m pt (va + i) ≢ a)
    → ((store_bytes m pt va bs).0).byte a ≡ m.byte a
unfolding store_bytes
store_elsewhere m pt va [] a h = refl
store_elsewhere m pt va (b ∷ bs) a h = elim (Bool-cases (user_at m pt va == 0)) [
  | inl z ↦ rw z refl
  | inr nz ↦
      let here : user_at m pt va ≢ a =
        subst (λ x. user_at m pt x ≢ a) {x = va + 0} {y = va} (omega arith) (h 0 (omega arith)) in
      rw nz (
        store_elsewhere (with_bytes m _) pt (va + 1) bs a (λ i lt e.
          h (suc i) (omega arith)
            (ap (user_at m pt) (omega arith) ∙ sym (user_at-with_bytes m _ pt (va + 1 + i)) ∙ e))
        ∙ ground arith)
]

store_step :
    (m : Memory) (pt va b : ℕ) (bs : List ℕ)
    → (store_bytes m pt va (b ∷ bs)).1 ≡ true
    → (user_at m pt va ≢ 0)
      × (store_bytes m pt va (b ∷ bs)
          ≡ store_bytes (with_bytes m (update m.byte (user_at m pt va) b)) pt (va + 1) bs)
unfolding store_bytes
store_step m pt va b bs e = elim (Bool-cases (user_at m pt va == 0)) [
  | inl z ↦
      let stop : store_bytes m pt va (b ∷ bs) ≡ (m, false) = rw z refl in
      absurd (ground (arith, sym (ap (λ r. r.1) stop) ∙ e))
  | inr nz ↦ (ground arith, rw nz refl)
]

Apart-step :
    (m : Memory) (byte : ℕ → ℕ) (pt va n : ℕ)
    → Apart m pt va (suc n)
    → Apart (with_bytes m byte) pt (va + 1) n
Apart-step m byte pt va n d i j lt lt' e = suc-injective (
    d (suc i) (suc j) (omega arith) (omega arith) (
      ap (user_at m pt) (omega arith)
      ∙ sym (user_at-with_bytes m byte pt (va + 1 + i))
      ∙ e
      ∙ user_at-with_bytes m byte pt (va + 1 + j)
      ∙ ap (user_at m pt) (omega arith)))

load-store_bytes :
    (m : Memory) (pt va : ℕ) (src : List ℕ)
    → Apart m pt va (length src)
    → (store_bytes m pt va src).1 ≡ true
    → load ((store_bytes m pt va src).0) pt va (length src) ≡ (src, true)
unfolding load
load-store_bytes m pt va [] d e = refl
load-store_bytes m pt va (b ∷ bs) d e =
    let step = store_step m pt va b bs e in
    let m1 : Memory = with_bytes m (update m.byte (user_at m pt va) b) in
    let rest =
      load-store_bytes m1 pt (va + 1) bs (Apart-step m _ pt va (length bs) d)
        (ap (λ r. r.1) (sym (step.1)) ∙ e) in
    let here : user_at ((store_bytes m1 pt (va + 1) bs).0) pt va ≡ user_at m pt va =
      user_at-store_bytes m1 pt (va + 1) bs va ∙ user_at-with_bytes m _ pt va in
    let apart : (i : ℕ) → i < length bs → user_at m1 pt (va + 1 + i) ≢ user_at m pt va = λ i lt q.
      absurd (
        omega (
          arith,
          d (suc i) 0 (omega arith) (omega arith) (
              ap (user_at m pt) (omega arith)
              ∙ sym (user_at-with_bytes m _ pt (va + 1 + i))
              ∙ q
              ∙ ap (user_at m pt) (omega arith)),
        )) in
    let byte : ((store_bytes m1 pt (va + 1) bs).0).byte (user_at m pt va) ≡ b =
      store_elsewhere m1 pt (va + 1) bs (user_at m pt va) apart ∙ ground arith in
    let nz : (user_at m pt va == 0) ≡ false = ground (arith, step.0) in
    subst (λ r. load (r.0) pt va (suc (length bs)) ≡ (b ∷ bs, true)) (sym (step.1))
      (rw (here, nz, byte, rest) refl)

-- What copyout stored, copyin reads back, where no two addresses of the range share a byte.
pub copyin-copyout :
    (fuel : ℕ) (m m' : Memory) (pt va : ℕ) (src : List ℕ)
    → (va % page_size + length src + 4095) / page_size < fuel
    → Apart m pt va (length src)
    → copyout fuel m pt va src ≡ ok (m', true)
    → copyin fuel m' pt va (length src) ≡ ok (src, true)
copyin-copyout fuel m m' pt va src h d e =
    let s : store_bytes m pt va src ≡ (m', true) =
      ok-injective (sym (copyout_lem fuel m pt va src h) ∙ e) in
    copyin_lem fuel m' pt va (length src) h
    ∙ ap ok (
        ap (λ r. load (r.0) pt va (length src)) (sym s)
        ∙ load-store_bytes m pt va src d (ap (λ r. r.1) s))
