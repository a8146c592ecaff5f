-- ===== src/Kalloc/Tests.antt =====
-- Runs of kernel/kalloc.c's operations on small free lists, and the allocator theorems at them.
use computer_system.Prelude.{ℕ, ◌≡◌, refl, none, List, [], ◌∷◌, arith}
use computer_system.Kalloc.{phys_stop, Kmem, kfree, kalloc, kinit, page_round_up}
use computer_system.Kalloc.Chain.{IsFree}
use computer_system.Kalloc.Init.{Frees, page_count, kinit-Frees_all}

-- A kernel that ends 3 pages and a bit below the end of memory.
abbrev end : ℕ
end = 0x87ffc123

abbrev none_free : Kmem
none_free = record { freelist = 0; next = λ a. 0; fill = λ a. 0 }

abbrev one_free : Kmem
one_free = record { freelist = 0x87ffd000; next = λ a. 0; fill = λ a. 1 }

abbrev one_page : List ℕ
one_page = 0x87ffd000 ∷ []

one_free-IsFree : IsFree end one_free one_page
one_free-IsFree = record {
  above = omega arith;
  chain = (refl, omega arith, refl);
  valid = ((refl, omega arith, omega arith), tt);
  once = (tt, tt);
}

kinit-Frees_all_example :
    Frees end (page_round_up end) (page_count (page_round_up end) phys_stop) (kinit 4 end none_free)
kinit-Frees_all_example =
    kinit-Frees_all 4 end none_free (omega arith) (omega arith) refl (omega arith)

kalloc_returns_head : (kalloc one_free).0 ≡ 0x87ffd000
unfolding kalloc
kalloc_returns_head = refl

kfree_refuses : kfree end one_free 0x87ffe010 ≡ none
unfolding kfree
kfree_refuses = refl
