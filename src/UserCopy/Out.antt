-- ===== src/UserCopy/Out.antt =====
-- copyout, against storing a byte at a time, and what copyin reads after it.
use computer_system.Prelude.{
  ℕ, zero, suc, ◌+◌, ◌-◌, ◌/◌, ◌%◌, ◌^◌, ◌≤◌, ◌<◌, ◌≡◌, ◌≢◌, ◌⊎◌, min, refl, ◌∙◌, sym, ap, inl, inr,
  Bool, true, false, List, [], ◌∷◌, ◌++◌, ◌==◌, if◌then◌else◌, Bool-cases, arith, update, length,
  take, drop, take-append-drop, length-take, length-drop,
}
use mathlib.Core.Path.{subst, ap₂}
use computer_system.Kalloc.{page_size}
use computer_system.Vm.{Memory, page_round_down, max_va, walkaddr, ok}
use computer_system.Vm.Map.{walkaddr_lem}
use computer_system.Vm.Tree.{leaf}
use computer_system.UserCopy.{write_bytes, copyout}
use computer_system.UserCopy.Bytes.{user_at, user_at_page, walkaddr_high, round-fuel}

abbrev pub with_bytes : Memory → (ℕ → ℕ) → Memory
with_bytes m byte = record m { byte = byte }

-- Storing a byte at a time, up to the first byte whose page is not the user's.
unfoldable pub store_bytes : Memory → ℕ → ℕ → List ℕ → Memory × Bool
store_bytes m pt va [] = (m, true)
store_bytes m pt va (b ∷ bs) =
    let rest = store_bytes (with_bytes m (update m.byte (user_at m pt va) b)) pt (va + 1) bs in
    if user_at m pt va == 0 then (m, false) else rest

pub walkaddr-with_bytes :
    (m : Memory) (byte : ℕ → ℕ) (pt va : ℕ) → walkaddr (with_bytes m byte) pt va ≡ walkaddr m pt va
unfolding leaf
walkaddr-with_bytes m byte pt va =
    walkaddr_lem (with_bytes m byte) pt va ∙ sym (walkaddr_lem m pt va)

store_page :
    (m : Memory) (pt pa0 va0 : ℕ)
    → walkaddr m pt va0 ≡ pa0
    → pa0 ≢ 0
    → va0 % page_size ≡ 0
    → (bs cs : List ℕ) (o : ℕ) → o + length bs ≤ page_size
    → store_bytes m pt (va0 + o) (bs ++ cs)
      ≡ store_bytes (with_bytes m (write_bytes m.byte (pa0 + o) bs)) pt (va0 + (o + length bs)) cs
unfolding store_bytes
store_page m pt pa0 va0 e ne aligned [] cs o h = ap (λ a. store_bytes m pt a cs) (omega arith)
store_page m pt pa0 va0 e ne aligned (b ∷ bs) cs o h =
    let nz : (pa0 + o == 0) ≡ false = ground (arith, ne) in
    let p : va0 + o + 1 ≡ va0 + (o + 1) = omega arith in
    let q : va0 + (o + 1 + length bs) ≡ va0 + (o + suc (length bs)) = omega arith in
    let q' : pa0 + (o + 1) ≡ pa0 + o + 1 = omega arith in
    let m' : Memory = with_bytes m (update m.byte (pa0 + o) b) in
    rw
      (
        user_at_page m pt pa0 va0 e ne aligned o (omega arith),
        nz,
        p,
        store_page m' pt pa0 va0 (walkaddr-with_bytes m _ pt va0 ∙ e) ne aligned bs cs (o + 1)
            (omega arith),
        q,
        q',
      )
      refl

-- Where nothing is left, the address does not matter.
store_next :
    (m : Memory) (pt u v : ℕ) (bs : List ℕ)
    → (length bs ≡ 0) ⊎ (u ≡ v)
    → store_bytes m pt u bs ≡ store_bytes m pt v bs
unfolding store_bytes
store_next m pt u v [] e = refl
store_next m pt u v (b ∷ bs) (inl e) = absurd (omega arith)
store_next m pt u v (b ∷ bs) (inr e) = ap (λ a. store_bytes m pt a (b ∷ bs)) e

store_none :
    (m : Memory) (pt va : ℕ) (bs : List ℕ)
    → walkaddr m pt (page_round_down va) ≡ 0
    → length bs ≢ 0
    → store_bytes m pt va bs ≡ (m, false)
unfolding store_bytes
store_none m pt va [] z h = absurd (h refl)
store_none m pt va (b ∷ bs) z h = rw z refl

store_nil :
    (m : Memory) (pt va : ℕ) (bs : List ℕ) → length bs ≡ 0 → store_bytes m pt va bs ≡ (m, true)
unfolding store_bytes
store_nil m pt va [] h = refl
store_nil m pt va (b ∷ bs) h = absurd (omega arith)

store_chunk :
    (m : Memory) (pt va : ℕ) (src : List ℕ)
    → walkaddr m pt (page_round_down va) ≢ 0
    → store_bytes m pt va src
      ≡ store_bytes
          (with_bytes m (
            write_bytes m.byte
              (walkaddr m pt (page_round_down va) + (va - page_round_down va))
              (take (min (page_size - (va - page_round_down va)) (length src)) src)))
          pt
          ((page_round_down va + page_size) % 2 ^ 64)
          (drop (min (page_size - (va - page_round_down va)) (length src)) src)
store_chunk m pt va src ne =
    let o : ℕ = va - page_round_down va in
    let n : ℕ = min (page_size - o) (length src) in
    let low : page_round_down va < max_va =
      ground (arith, ne, walkaddr_high m pt (page_round_down va)) in
    let p : va ≡ page_round_down va + o = omega arith in
    let t : length (take n src) ≡ n = omega (arith, length-take n src) in
    let d : length (drop n src) ≡ length src - n = length-drop n src in
    ap₂ (store_bytes m pt) p (sym (take-append-drop n src))
    ∙ store_page m pt _ (page_round_down va) refl ne (omega arith) (take n src) (drop n src) o
        (omega arith)
    ∙ store_next _ pt _ _ (drop n src) (ground arith)

-- copyout stores the bytes of src just as a store of one byte after the other does.
-- With fuel above the number of pages that the array touches, it ends.
pub copyout_lem :
    (fuel : ℕ) (m : Memory) (pt dstva : ℕ) (src : List ℕ)
    → (dstva % page_size + length src + 4095) / page_size < fuel
    → copyout fuel m pt dstva src ≡ ok (store_bytes m pt dstva src)
unfolding copyout
copyout_lem zero m pt va src h = absurd (omega arith)
copyout_lem (suc fuel) m pt va src h = elim (Bool-cases (length src == 0)) [
  | inl z ↦ rw (z, store_nil m pt va src (ground arith)) refl
  | inr more ↦ rw more (elim (Bool-cases (walkaddr m pt (page_round_down va) == 0)) [
    | inl z ↦ rw (z, store_none m pt va src (ground arith) (ground arith)) refl
    | inr nz ↦
        let n : ℕ = min (page_size - (va - page_round_down va)) (length src) in
        let left : length (drop n src) ≡ length src - n = length-drop n src in
        rw nz (
          copyout_lem fuel _ pt ((page_round_down va + page_size) % 2 ^ 64) (drop n src) (
            subst
              (λ l.
                ((page_round_down va + page_size) % 2 ^ 64 % page_size + l + 4095) / page_size
                < fuel)
              (sym left) (round-fuel fuel va (length src) (ground arith) h))
          ∙ ap ok (sym (store_chunk m pt va src (ground arith))))
  ])
]
