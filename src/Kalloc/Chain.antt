-- ===== src/Kalloc/Chain.antt =====
-- The free list as a list of pages, and what kfree and kalloc do to it.
use computer_system.Prelude.{
  ℕ, ◌*◌, ◌%◌, ◌≤◌, ◌<◌, ◌≡◌, ◌≢◌, refl, ◌⊎◌, inl, inr, none, some, false, List, [], ◌∷◌, All,
  update, ◌==◌, arith,
}
use mathlib.Core.Path.{subst}
use computer_system.Kalloc.{page_size, phys_stop, Kmem, kfree, kalloc}

-- The pages that the words `next` thread from `p` on, up to the null pointer.
abbrev pub Chain : (ℕ → ℕ) → ℕ → List ℕ → Type 0
Chain next p [] = p ≡ 0
Chain next p (a ∷ rest) = (p ≡ a) × (a ≢ 0) × Chain next (next a) rest

-- A whole page between the kernel and the end of memory.
abbrev pub IsPage : ℕ → ℕ → Type 0
IsPage end a = (a % page_size ≡ 0) × (end ≤ a) × (a < phys_stop)

abbrev pub NotIn : ℕ → List ℕ → Type 0
NotIn a xs = All (λ x. x ≢ a) xs

abbrev pub Distinct : List ℕ → Type 0
Distinct [] = Unit
Distinct (a ∷ rest) = NotIn a rest × Distinct rest

-- The free list holds these pages: valid ones, none twice. The kernel ends above address 0.
pub record IsFree (end : ℕ) (k : Kmem) (pages : List ℕ) : Type 0 where
  pub above : 0 < end
  pub chain : Chain k.next k.freelist pages
  pub valid : All (IsPage end) pages
  pub once : Distinct pages

pub Chain-update :
    (next : ℕ → ℕ) (a v p : ℕ) (rest : List ℕ)
    → NotIn a rest
    → Chain next p rest
    → Chain (update next a v) p rest
Chain-update next a v p [] h c = c
Chain-update next a v p (x ∷ rest) h c = (
  c.0,
  c.1,
  subst (λ q. Chain (update next a v) q rest) (ground (arith, h.0))
      (Chain-update next a v (next x) rest h.1 c.2),
)

-- kfree of a page that is not free puts it at the head of the free list, and keeps the list one of
-- distinct valid pages.
pub kfree-IsFree :
    (end : ℕ) (k : Kmem) (pages : List ℕ) (pa : ℕ)
    → IsFree end k pages
    → IsPage end pa
    → NotIn pa pages
    → (k' : Kmem) × (kfree end k pa ≡ some k') × IsFree end k' (pa ∷ pages) × (k'.fill pa ≡ 1)
unfolding kfree
kfree-IsFree end k pages pa v page new = (
  record k {
    freelist = pa;
    next = update (update k.next pa (1 * 0x0101010101010101)) pa k.freelist;
    fill = update k.fill pa 1;
  },
  ground (arith, page),
  record {
    above = v.above;
    chain = (refl, ground (arith, v.above, page), below);
    valid = (page, v.valid);
    once = (new, v.once);
  },
  ground arith,
)
  where
    below :
        Chain
          (update (update k.next pa (1 * 0x0101010101010101)) pa k.freelist)
          (update (update k.next pa (1 * 0x0101010101010101)) pa k.freelist pa)
          pages
    below =
        subst
          (λ q. Chain (update (update k.next pa (1 * 0x0101010101010101)) pa k.freelist) q pages)
          (ground arith)
          (Chain-update (update k.next pa (1 * 0x0101010101010101)) pa k.freelist k.freelist pages
            new (Chain-update k.next pa (1 * 0x0101010101010101) k.freelist pages new v.chain))

-- kfree panics exactly for an address that is not a page's, lies in the kernel or behind memory.
pub kfree_panic_iff :
    (end : ℕ) (k : Kmem) (pa : ℕ)
    → (kfree end k pa ≡ none → (pa % page_size ≢ 0) ⊎ ((pa < end) ⊎ (phys_stop ≤ pa)))
      × ((pa % page_size ≢ 0) ⊎ ((pa < end) ⊎ (phys_stop ≤ pa)) → kfree end k pa ≡ none)
unfolding kfree
kfree_panic_iff end k pa = (λ e. ground arith, λ h. ground arith)

-- kalloc takes the page at the head of the free list, fills it with junk, and keeps the rest of the
-- list as it was; it returns the null pointer exactly when no page is free, and then changes
-- nothing.
pub kalloc_takes :
    (end : ℕ) (k : Kmem) (pages : List ℕ)
    → IsFree end k pages
    → let (r, k') = kalloc k in
      ((pages ≡ []) × (r ≡ 0) × (k' ≡ k))
      ⊎ ((rest : List ℕ) × (pages ≡ r ∷ rest) × IsPage end r × IsFree end k' rest × (k'.fill r ≡ 5))
unfolding kalloc
kalloc_takes end k [] v = inl (refl, v.chain, ground (arith, v.chain))
kalloc_takes end k (a ∷ rest) v =
    rw (v.chain.0, taken)
      (inr (
        rest,
        refl,
        v.valid.0,
        record {
          above = v.above;
          chain = Chain-update k.next a (5 * 0x0101010101010101) (k.next a) rest v.once.0 v.chain.2;
          valid = v.valid.1;
          once = v.once.1;
        },
        ground arith,
      ))
  where
    taken : (a == 0) ≡ false
    taken = ground (arith, v.chain.1)
