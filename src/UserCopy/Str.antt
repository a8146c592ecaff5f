-- ===== src/UserCopy/Str.antt =====
-- copyinstr, against reading a byte at a time up to the NUL.
use computer_system.Prelude.{
  ℕ, zero, suc, ◌+◌, ◌-◌, ◌/◌, ◌%◌, ◌^◌, ◌≤◌, ◌<◌, ◌≡◌, ◌≢◌, ◌⊎◌, min, refl, ◌∙◌, sym, ap, inl, inr,
  Bool, true, false, List, [], ◌∷◌, ◌==◌, if◌then◌else◌, Bool-cases, arith,
}
use mathlib.Core.Path.{ap₂}
use computer_system.Kalloc.{page_size}
use computer_system.Vm.{Memory, page_round_down, max_va, walkaddr, ok}
use computer_system.UserCopy.{scan_page, then_scan, copyinstr}
use computer_system.UserCopy.Bytes.{
  user_at, cons_byte, append_to, append_to_nil, user_at_page, walkaddr_high, round-fuel,
}

-- At most n bytes, up to the NUL, with whether it came; a byte whose page is not the user's ends it.
unfoldable pub load_str : Memory → ℕ → ℕ → ℕ → List ℕ × Bool
load_str m pt va zero = ([], false)
load_str m pt va (suc n) =
    let rest = cons_byte (m.byte (user_at m pt va)) (load_str m pt (va + 1) n) in
    if user_at m pt va == 0
    then ([], false)
    else if m.byte (user_at m pt va) == 0
    then (0 ∷ [], true)
    else rest

-- What follows a scan of one page.
abbrev join : List ℕ × Bool → List ℕ × Bool → List ℕ × Bool
join (bs, true) rest = (bs, true)
join (bs, false) rest = append_to bs rest

cons-join :
    (b : ℕ) (s : List ℕ × Bool) (r : List ℕ × Bool)
    → cons_byte b (join s r) ≡ join (cons_byte b s) r
cons-join b (bs, true) r = refl
cons-join b (bs, false) r = refl

then_scan_ok : (s : List ℕ × Bool) (r : List ℕ × Bool) → then_scan s (ok r) ≡ ok (join s r)
then_scan_ok (bs, true) r = refl
then_scan_ok (bs, false) r = refl

load_str_page :
    (m : Memory) (pt pa0 va0 : ℕ)
    → walkaddr m pt va0 ≡ pa0
    → pa0 ≢ 0
    → va0 % page_size ≡ 0
    → (n k o : ℕ) → o + n ≤ page_size
    → load_str m pt (va0 + o) (n + k)
      ≡ join (scan_page m.byte (pa0 + o) n) (load_str m pt (va0 + (o + n)) k)
unfolding load_str scan_page
load_str_page m pt pa0 va0 e ne aligned zero k o h =
    let z : 0 + k ≡ k = omega arith in
    let p : va0 + (o + 0) ≡ va0 + o = omega arith in
    rw (z, p, append_to_nil (load_str m pt (va0 + o) k)) refl
load_str_page m pt pa0 va0 e ne aligned (suc n) k o h =
    let s : suc n + k ≡ suc (n + k) = omega arith in
    let nz : (pa0 + o == 0) ≡ false = ground (arith, ne) in
    let p : va0 + o + 1 ≡ va0 + (o + 1) = omega arith in
    let q : va0 + (o + 1 + n) ≡ va0 + (o + suc n) = omega arith in
    let q' : pa0 + (o + 1) ≡ pa0 + o + 1 = omega arith in
    ap (load_str m pt (va0 + o)) s
    ∙ rw
        (
          user_at_page m pt pa0 va0 e ne aligned o (omega arith),
          nz,
          p,
          load_str_page m pt pa0 va0 e ne aligned n k (o + 1) (omega arith),
          q,
          q',
        )
        (elim (Bool-cases (m.byte (pa0 + o) == 0)) [
          | inl nul ↦ rw nul refl
          | inr b ↦ rw b (
              cons-join (m.byte (pa0 + o)) (scan_page m.byte (pa0 + o + 1) n)
                (load_str m pt (va0 + (o + suc n)) k))
        ])

-- Where nothing is left, the address does not matter.
load_str_next :
    (m : Memory) (pt u v k : ℕ) → (k ≡ 0) ⊎ (u ≡ v) → load_str m pt u k ≡ load_str m pt v k
unfolding load_str
load_str_next m pt u v k (inl e) = rw e refl
load_str_next m pt u v k (inr e) = rw e refl

load_str_none :
    (m : Memory) (pt va max : ℕ)
    → (walkaddr m pt (page_round_down va) ≡ 0) ⊎ (max ≡ 0)
    → load_str m pt va max ≡ ([], false)
unfolding load_str
load_str_none m pt va zero z = refl
load_str_none m pt va (suc max) (inl z) = rw z refl
load_str_none m pt va (suc max) (inr z) = absurd (omega arith)

load_str_chunk :
    (m : Memory) (pt va max : ℕ)
    → walkaddr m pt (page_round_down va) ≢ 0
    → load_str m pt va max
      ≡ join
          (scan_page m.byte
            (walkaddr m pt (page_round_down va) + (va - page_round_down va))
            (min (page_size - (va - page_round_down va)) max))
          (load_str m pt
            ((page_round_down va + page_size) % 2 ^ 64)
            (max - min (page_size - (va - page_round_down va)) max))
load_str_chunk m pt va max ne =
    let o : ℕ = va - page_round_down va in
    let n : ℕ = min (page_size - o) max in
    let low : page_round_down va < max_va =
      ground (arith, ne, walkaddr_high m pt (page_round_down va)) in
    let p : va ≡ page_round_down va + o = omega arith in
    let t : max ≡ n + (max - n) = omega arith in
    ap₂ (load_str m pt) p t
    ∙ load_str_page m pt _ (page_round_down va) refl ne (omega arith) n (max - n) o (omega arith)
    ∙ ap (join (scan_page m.byte (walkaddr m pt (page_round_down va) + o) n))
        (load_str_next m pt _ _ (max - n) (ground arith))

-- copyinstr stores to dst just the bytes that reading a byte at a time up to the NUL gives, and
-- returns 0 when the NUL is among the first max bytes and every byte up to it is the user's.
-- With fuel above the number of pages that the array touches, it ends.
pub copyinstr_lem :
    (fuel : ℕ) (m : Memory) (pt srcva max : ℕ)
    → (srcva % page_size + max + 4095) / page_size < fuel
    → copyinstr fuel m pt srcva max ≡ ok (load_str m pt srcva max)
unfolding copyinstr
copyinstr_lem zero m pt va max h = absurd (omega arith)
copyinstr_lem (suc fuel) m pt va max h = elim (Bool-cases (max == 0)) [
  | inl z ↦ rw (z, load_str_none m pt va max (inr (ground arith))) refl
  | inr more ↦ rw more (elim (Bool-cases (walkaddr m pt (page_round_down va) == 0)) [
    | inl z ↦ rw (z, load_str_none m pt va max (inl (ground arith))) refl
    | inr nz ↦
        let o : ℕ = va - page_round_down va in
        let n : ℕ = min (page_size - o) max in
        rw
          (
            nz,
            copyinstr_lem fuel m pt ((page_round_down va + page_size) % 2 ^ 64) (max - n)
                (round-fuel fuel va max (ground arith) h),
          )
          (then_scan_ok (scan_page m.byte (walkaddr m pt (page_round_down va) + o) n)
              (load_str m pt ((page_round_down va + page_size) % 2 ^ 64) (max - n))
            ∙ ap ok (sym (load_str_chunk m pt va max (ground arith))))
  ])
]
