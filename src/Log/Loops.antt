-- ===== src/Log/Loops.antt =====
-- The loops of write_log and install_trans: what they write, and what a crash inside them finds.
use computer_system.Prelude.{
  ℕ, ◌+◌, ◌≤◌, ◌<◌, ◌≡◌, refl, ◌∙◌, sym, ◌⊎◌, inl, inr, true, false, List, [], ◌∷◌, All, length,
  update, ◌==◌, ◌||◌, Bool-cases, arith, ◌≢◌, All-map,
}
use computer_system.Buffers.{Block, Disk, Buffers, contents}
use computer_system.Log.{log_block, write_log_from, install_block, install_from, logged}
use computer_system.Log.Blocks.{Writes, log_block-Writes, install_block-Writes}

-- The blocks from `from` on hold what `C` has for the listed blocks.
abbrev pub Holds : (ℕ → Block) → (ℕ → Block) → ℕ → List ℕ → Type 0
Holds C d from [] = Unit
Holds C d from (b ∷ bs) = (d from ≡ C b) × Holds C d (from + 1) bs

pub Holds-cong :
    (C C' : ℕ → Block) (d d' : ℕ → Block) (from : ℕ) (bs : List ℕ)
    → All (λ b. C' b ≡ C b) bs
    → ((c : ℕ) → from ≤ c → c < from + length bs → d' c ≡ d c)
    → Holds C d from bs
    → Holds C' d' from bs
Holds-cong C C' d d' from [] e f h = tt
Holds-cong C C' d d' from (b ∷ bs) e f h = (
  f from (omega arith) (omega arith) ∙ h.0 ∙ sym e.0,
  Holds-cong C C' d d' (from + 1) bs e.1 (λ c p q. f c (omega arith) (omega arith)) h.1,
)

-- Not among the blocks lo .. hi - 1.
abbrev pub Away : ℕ → ℕ → ℕ → Type 0
Away lo hi c = (c < lo) ⊎ (hi ≤ c)

pub Away-ne_start : {lo hi c : ℕ} → Away lo hi c → lo < hi → lo ≢ c
Away-ne_start a p = omega arith

-- write_log from block `from` on, every log block below `hi`.
pub record Logs (hi : ℕ) (m : Buffers) (from : ℕ) (bs : List ℕ) (m' : Buffers) : Type 1 where
  pub disk_away : (c : ℕ) → Away from hi c → m'.disk c ≡ m.disk c
  pub contents_away : (c : ℕ) → Away from hi c → contents m' c ≡ contents m c
  pub on_disk : Holds (contents m) m'.disk from bs
  pub in_buffers : Holds (contents m) (contents m') from bs
  pub past_all :
      (P : Disk → Type 0)
      → ((d : Disk) → ((c : ℕ) → Away from hi c → d c ≡ m.disk c) → P d)
      → All P m.past
      → All P m'.past

-- One round and the rounds after it.
module _ {hi : ℕ} {m m1 : Buffers} (from b : ℕ) (bs : List ℕ) where
  Logs-cons :
      {m' : Buffers}
      → Writes m from (contents m b) m1
      → from < hi
      → All (Away from hi) bs
      → Logs hi m1 (from + 1) bs m'
      → Logs hi m from (b ∷ bs) m'
  Logs-cons w low away rest = record {
    disk_away = λ c a. rest.disk_away c (wider c a) ∙ first_disk c a;
    contents_away = λ c a. rest.contents_away c (wider c a) ∙ first_contents c a;
    on_disk = (
      rest.disk_away from (inl (omega arith)) ∙ w.disk_at from ∙ ground arith,
      Holds-cong _ _ _ _ (from + 1) bs same (λ c p q. refl) rest.on_disk,
    );
    in_buffers = (
      rest.contents_away from (inl (omega arith)) ∙ w.contents_at from ∙ ground arith,
      Holds-cong _ _ _ _ (from + 1) bs same (λ c p q. refl) rest.in_buffers,
    );
    past_all = λ P keep h.
        rest.past_all P (λ d e. keep d (λ c a. e c (wider c a) ∙ first_disk c a))
          (rw w.past_is (keep m1.disk first_disk, h));
  }
    where
      wider : (c : ℕ) → Away from hi c → Away (from + 1) hi c
      wider c a = omega arith

      first_disk : (c : ℕ) → Away from hi c → m1.disk c ≡ m.disk c
      first_disk c a = w.disk_at c ∙ ground arith

      first_contents : (c : ℕ) → Away from hi c → contents m1 c ≡ contents m c
      first_contents c a = w.contents_at c ∙ ground arith

      same : All (λ x. contents m x ≡ contents m1 x) bs
      same = All-map (λ x a. sym (first_contents x a)) bs away

pub write_log_from-Logs :
    (hi : ℕ) (m : Buffers) (from : ℕ) (bs : List ℕ)
    → from + length bs ≤ hi
    → All (Away from hi) bs
    → Logs hi m from bs (write_log_from m from bs)
unfolding write_log_from
write_log_from-Logs hi m from [] fits away = record {
  disk_away = λ c a. refl;
  contents_away = λ c a. refl;
  on_disk = tt;
  in_buffers = tt;
  past_all = λ P keep h. h;
}
write_log_from-Logs hi m from (b ∷ bs) fits away =
    Logs-cons from b bs (log_block-Writes m from b) (omega arith) away.1 (
      write_log_from-Logs hi (log_block m from b) (from + 1) bs (omega arith)
        (All-map (λ c a. omega arith) bs away.1))

-- install_trans from log block `from` on; the log takes the blocks lo .. hi - 1.
pub record Installs (C : ℕ → Block) (lo hi : ℕ) (m : Buffers) (bs : List ℕ) (m' : Buffers)
    : Type 1 where
  pub disk_log : (c : ℕ) → lo ≤ c → c < hi → m'.disk c ≡ m.disk c
  pub contents_log : (c : ℕ) → lo ≤ c → c < hi → contents m' c ≡ contents m c
  pub other : (c : ℕ) → logged c bs ≡ false → m'.disk c ≡ m.disk c
  pub home : (c : ℕ) → logged c bs ≡ true → m'.disk c ≡ C c
  pub past_all :
      (P : Disk → Type 0)
      → ((d : Disk)
          → ((c : ℕ) → lo ≤ c → c < hi → d c ≡ m.disk c)
          → ((c : ℕ) → logged c bs ≡ false → d c ≡ m.disk c)
          → P d)
      → All P m.past
      → All P m'.past

module _ {C : ℕ → Block} {lo hi : ℕ} {m m1 : Buffers} (from b : ℕ) (bs : List ℕ) where
  Installs-cons :
      {m' : Buffers}
      → Writes m b (contents m from) m1
      → contents m from ≡ C b
      → Away lo hi b
      → Installs C lo hi m1 bs m'
      → Installs C lo hi m (b ∷ bs) m'
  unfolding logged
  Installs-cons w held away rest = record {
    disk_log = λ c p q. rest.disk_log c p q ∙ first_disk c p q;
    contents_log = λ c p q. rest.contents_log c p q ∙ w.contents_at c ∙ ground arith;
    other = λ c e. rest.other c (tail_false c e) ∙ first_other c e;
    home = λ c e. elim (Bool-cases (logged c bs)) [
      | inl t ↦ rest.home c t
      | inr f ↦ rest.other c f ∙ w.disk_at c ∙ last c e f
    ];
    past_all = λ P keep h.
        rest.past_all P
          (λ d e o.
            keep d (λ c p q. e c p q ∙ first_disk c p q)
              (λ c f. o c (tail_false c f) ∙ first_other c f))
          (rw w.past_is (keep m1.disk first_disk first_other, h));
  }
    where
      first_disk : (c : ℕ) → lo ≤ c → c < hi → m1.disk c ≡ m.disk c
      first_disk c p q = w.disk_at c ∙ ground arith

      tail_false : (c : ℕ) → (b == c || logged c bs) ≡ false → logged c bs ≡ false
      tail_false c e = ground arith

      first_other : (c : ℕ) → (b == c || logged c bs) ≡ false → m1.disk c ≡ m.disk c
      first_other c e = w.disk_at c ∙ ground arith

      last :
          (c : ℕ)
          → (b == c || logged c bs) ≡ true
          → logged c bs ≡ false
          → update m.disk b (contents m from) c ≡ C c
      last c e f = ground arith

pub install_from-Installs :
    (C : ℕ → Block) (lo hi : ℕ) (m : Buffers) (from : ℕ) (bs : List ℕ)
    → lo ≤ from
    → from + length bs ≤ hi
    → All (Away lo hi) bs
    → Holds C (contents m) from bs
    → Installs C lo hi m bs (install_from m from bs)
unfolding install_from logged
install_from-Installs C lo hi m from [] low fits away holds = record {
  disk_log = λ c p q. refl;
  contents_log = λ c p q. refl;
  other = λ c e. refl;
  home = λ c e. cc;
  past_all = λ P keep h. h;
}
install_from-Installs C lo hi m from (b ∷ bs) low fits away holds =
    Installs-cons from b bs w holds.0 away.0 (
      install_from-Installs C lo hi (install_block m from b) (from + 1) bs (omega arith)
        (omega arith) away.1
        (Holds-cong C C (contents m) (contents (install_block m from b)) (from + 1) bs
          (All-map (λ x a. refl) bs away.1) (λ c p q. w.contents_at c ∙ ground (arith, away.0))
          holds.1))
  where
    w : Writes m b (contents m from) (install_block m from b)
    w = install_block-Writes m from b
