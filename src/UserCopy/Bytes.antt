-- ===== src/UserCopy/Bytes.antt =====
-- copyin, copyout and copyinstr go by chunks of at most a page; here they are against the same
-- copies done a byte at a time, each byte through the page table.
use computer_system.Prelude.{
  ℕ, zero, suc, ◌+◌, ◌-◌, ◌/◌, ◌%◌, ◌^◌, ◌≤◌, ◌<◌, ◌≡◌, ◌≢◌, min, refl, ◌∙◌, sym, ap, inl, inr, ◌⊎◌,
  Bool, true, false, List, [], ◌∷◌, ◌++◌, ◌==◌, if◌then◌else◌, Bool-cases, arith,
}
use mathlib.Core.Path.{subst}
use computer_system.Kalloc.{page_size}
use computer_system.Vm.{Memory, page_round_down, max_va, walkaddr, ok}
use computer_system.UserCopy.{bytes_from, copyin}

-- The physical address of a user's byte, or 0.
abbrev pub user_at : Memory → ℕ → ℕ → ℕ
user_at m pt va =
    let pa0 = walkaddr m pt (page_round_down va) in if pa0 == 0 then 0 else pa0 + va % page_size

abbrev pub cons_byte : ℕ → List ℕ × Bool → List ℕ × Bool
cons_byte b (bs, done) = (b ∷ bs, done)

-- Reading a byte at a time, up to the first byte whose page is not the user's.
unfoldable pub load : Memory → ℕ → ℕ → ℕ → List ℕ × Bool
load m pt va zero = ([], true)
load m pt va (suc n) =
    let rest = cons_byte (m.byte (user_at m pt va)) (load m pt (va + 1) n) in
    if user_at m pt va == 0 then ([], false) else rest

abbrev pub append_to : List ℕ → List ℕ × Bool → List ℕ × Bool
append_to bs (cs, done) = (bs ++ cs, done)

pub cons-append_to :
    (b : ℕ) (bs : List ℕ) (r : List ℕ × Bool) → cons_byte b (append_to bs r) ≡ append_to (b ∷ bs) r
cons-append_to b bs (cs, done) = refl

pub append_to_nil : (r : List ℕ × Bool) → append_to [] r ≡ r
append_to_nil (cs, done) = refl

-- Addresses of one page lie one after the other.
module _ (m : Memory) (pt pa0 va0 : ℕ) (e : walkaddr m pt va0 ≡ pa0) (ne : pa0 ≢ 0)
    (aligned : va0 % page_size ≡ 0) where
  pub user_at_page : (o : ℕ) → o < page_size → user_at m pt (va0 + o) ≡ pa0 + o
  user_at_page o h =
      let down : page_round_down (va0 + o) ≡ va0 = omega arith in
      let off : (va0 + o) % page_size ≡ o = omega arith in rw (down, e, off) (ground arith)

  load_page :
      (n k o : ℕ)
      → o + n ≤ page_size
      → load m pt (va0 + o) (n + k)
        ≡ append_to (bytes_from m.byte (pa0 + o) n) (load m pt (va0 + (o + n)) k)
  unfolding load
  load_page zero k o h =
      let z : 0 + k ≡ k = omega arith in
      let p : va0 + (o + 0) ≡ va0 + o = omega arith in
      rw (z, p, append_to_nil (load m pt (va0 + o) k)) refl
  load_page (suc n) k o h =
      let s : suc n + k ≡ suc (n + k) = omega arith in
      let nz : (pa0 + o == 0) ≡ false = ground (arith, ne) in
      let p : va0 + o + 1 ≡ va0 + (o + 1) = omega arith in
      let q : va0 + (o + 1 + n) ≡ va0 + (o + suc n) = omega arith in
      let q' : pa0 + (o + 1) ≡ pa0 + o + 1 = omega arith in
      ap (load m pt (va0 + o)) s
      ∙ rw (user_at_page o (omega arith), nz, p, load_page n k (o + 1) (omega arith), q, q')
          (cons-append_to (m.byte (pa0 + o)) (bytes_from m.byte (pa0 + o + 1) n)
            (load m pt (va0 + (o + suc n)) k))

pub walkaddr_high : (m : Memory) (pt va : ℕ) → max_va ≤ va → walkaddr m pt va ≡ 0
unfolding walkaddr
walkaddr_high m pt va h = ground arith

-- Where nothing is left, the address does not matter.
load_next : (m : Memory) (pt u v k : ℕ) → (k ≡ 0) ⊎ (u ≡ v) → load m pt u k ≡ load m pt v k
unfolding load
load_next m pt u v k (inl e) = rw e refl
load_next m pt u v k (inr e) = rw e refl

load_none :
    (m : Memory) (pt va len : ℕ)
    → walkaddr m pt (page_round_down va) ≡ 0
    → 0 < len
    → load m pt va len ≡ ([], false)
unfolding load
load_none m pt va zero z h = absurd (omega arith)
load_none m pt va (suc len) z h = rw z refl

load_zero : (m : Memory) (pt va : ℕ) → load m pt va 0 ≡ ([], true)
unfolding load
load_zero m pt va = refl

load_chunk :
    (m : Memory) (pt va len : ℕ)
    → walkaddr m pt (page_round_down va) ≢ 0
    → load m pt va len
      ≡ append_to
          (bytes_from m.byte
            (walkaddr m pt (page_round_down va) + (va - page_round_down va))
            (min (page_size - (va - page_round_down va)) len))
          (load m pt
            ((page_round_down va + page_size) % 2 ^ 64)
            (len - min (page_size - (va - page_round_down va)) len))
load_chunk m pt va len ne =
    let o : ℕ = va - page_round_down va in
    let n : ℕ = min (page_size - o) len in
    let low : page_round_down va < max_va =
      ground (arith, ne, walkaddr_high m pt (page_round_down va)) in
    let p : page_round_down va + o ≡ va = omega arith in
    let t : n + (len - n) ≡ len = omega arith in
    subst
      (λ x.
        load m pt x len
        ≡ append_to (bytes_from m.byte (walkaddr m pt (page_round_down va) + o) n)
            (load m pt ((page_round_down va + page_size) % 2 ^ 64) (len - n)))
      p
      (subst
        (λ x.
          load m pt (page_round_down va + o) x
          ≡ append_to (bytes_from m.byte (walkaddr m pt (page_round_down va) + o) n)
              (load m pt ((page_round_down va + page_size) % 2 ^ 64) (len - n)))
        t
        (load_page m pt _ (page_round_down va) refl ne (omega arith) n (len - n) o (omega arith)
          ∙ ap (append_to (bytes_from m.byte (walkaddr m pt (page_round_down va) + o) n))
              (load_next m pt _ _ (len - n) (ground arith))))

-- A round takes off one page.
pub round-fuel :
    (fuel va len : ℕ)
    → 0 < len
    → (va % page_size + len + 4095) / page_size < suc fuel
    → ((page_round_down va + page_size) % 2 ^ 64 % page_size
          + (len - min (page_size - (va - page_round_down va)) len)
          + 4095)
        / page_size
      < fuel
round-fuel fuel va len pos h = omega arith

-- copyin stores to dst just the bytes that reading a byte at a time gives.
pub copyin_lem :
    (fuel : ℕ) (m : Memory) (pt srcva len : ℕ)
    → (srcva % page_size + len + 4095) / page_size < fuel
    → copyin fuel m pt srcva len ≡ ok (load m pt srcva len)
unfolding copyin
copyin_lem zero m pt va len h = absurd (omega arith)
copyin_lem (suc fuel) m pt va len h = elim (Bool-cases (len == 0)) [
  | inl z ↦ let e : len ≡ 0 = ground arith in rw e (sym (ap ok (load_zero m pt va)))
  | inr more ↦ rw more (elim (Bool-cases (walkaddr m pt (page_round_down va) == 0)) [
    | inl z ↦ rw (z, load_none m pt va len (ground arith) (ground arith)) refl
    | inr nz ↦
        let o : ℕ = va - page_round_down va in
        let n : ℕ = min (page_size - o) len in
        rw
          (
            nz,
            copyin_lem fuel m pt ((page_round_down va + page_size) % 2 ^ 64) (len - n)
                (round-fuel fuel va len (ground arith) h),
          )
          (ap ok (sym (load_chunk m pt va len (ground arith))))
  ])
]
