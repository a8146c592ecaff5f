-- ===== src/Kalloc/Init.antt =====
-- kinit: every whole page between the kernel and the end of memory becomes free.
use computer_system.Prelude.{
  ℕ, zero, suc, ◌+◌, ◌-◌, ◌*◌, ◌/◌, ◌%◌, ◌≤◌, ◌<◌, ◌≡◌, Option, some, List, [], ◌∷◌, arith,
}
use mathlib.Core.Path.{subst}
use computer_system.Kalloc.{page_size, phys_stop, page_round_up, Kmem, free_pages, kinit}
use computer_system.Kalloc.Chain.{NotIn, IsFree, kfree-IsFree}

-- n pages from p on, the highest first.
abbrev pub pages_from : ℕ → ℕ → List ℕ
pages_from p zero = []
pages_from p (suc n) = (p + n * page_size) ∷ pages_from p n

NotIn-pages_from : (p a n : ℕ) → p + n * page_size ≤ a → NotIn a (pages_from p n)
NotIn-pages_from p a zero h = tt
NotIn-pages_from p a (suc n) h = (omega arith, NotIn-pages_from p a n (omega arith))

-- The number of pages that the loop frees.
abbrev pub page_count : ℕ → ℕ → ℕ
page_count p stop = (stop - p) / page_size

-- What a call that frees n pages from p on returns.
abbrev pub Frees : ℕ → ℕ → ℕ → Option Kmem → Type 0
Frees end p n r = (k' : Kmem) × (r ≡ some k') × IsFree end k' (pages_from p n)

module _ (end p : ℕ) (aligned : p % page_size ≡ 0) (low : end ≤ p) where
  free_pages_lem :
      (fuel m left : ℕ) (k : Kmem)
      → p + (m + left) * page_size ≤ phys_stop
      → phys_stop < p + (m + left + 1) * page_size
      → left < fuel
      → IsFree end k (pages_from p m)
      → Frees end p (m + left) (free_pages fuel end k (p + m * page_size) phys_stop)
  unfolding free_pages
  free_pages_lem zero m left k h g f v = absurd (omega arith)
  free_pages_lem (suc fuel) m zero k h g f v =
      (k, ground arith, subst (λ n. IsFree end k (pages_from p n)) (omega arith) v)
  free_pages_lem (suc fuel) m (suc left) k h g f v =
      let (k1, freed, v1, _) =
        kfree-IsFree end k (pages_from p m) (p + m * page_size) v
          (omega arith, omega arith, omega arith)
          (NotIn-pages_from p (p + m * page_size) m (omega arith)) in
      let (k', e, v') =
        free_pages_lem fuel (suc m) left k1 (omega arith) (omega arith) (omega arith) v1 in
      (
        k',
        ground (arith, freed, e),
        subst (λ n. IsFree end k' (pages_from p n)) {x = suc m + left} {y = m + suc left}
            (omega arith) v',
      )

-- kinit never panics and leaves free exactly the whole pages from the first one at or above the
-- kernel's end to the end of memory, each once, if the kernel ends between address 0 and the end
-- of memory and the free list is empty before; fuel above their number is enough.
pub kinit-Frees_all :
    (fuel end : ℕ) (k : Kmem)
    → 0 < end
    → page_round_up end ≤ phys_stop
    → k.freelist ≡ 0
    → page_count (page_round_up end) phys_stop < fuel
    → Frees end (page_round_up end) (page_count (page_round_up end) phys_stop) (kinit fuel end k)
unfolding kinit
kinit-Frees_all fuel end k pos fits empty enough =
    subst (λ q. Frees end p n (free_pages fuel end k q phys_stop)) {x = p + 0 * page_size} {y = p}
      (omega arith)
      (subst (λ c. Frees end p c (free_pages fuel end k (p + 0 * page_size) phys_stop)) {x = 0 + n}
        {y = n} (omega arith)
        (free_pages_lem end p (omega arith) (omega arith) fuel 0 n k (omega arith) (omega arith)
          enough (record { above = pos; chain = empty; valid = tt; once = tt })))
  where
    p : ℕ
    p = page_round_up end

    n : ℕ
    n = page_count p phys_stop
