-- ===== src/Pipe/Read.antt =====
-- What a turn of piperead does, on each of its ways out; opening and closing.
use computer_system.Prelude.{
  ℕ, zero, suc, ◌+◌, ◌≤◌, ◌<◌, ◌≡◌, refl, sym, ◌∙◌, ap, ◌≢◌, ◌⊎◌, inl, inr, Bool, true, false, ◌&&◌,
  List, [], ◌∷◌, ◌++◌, length, arith, Bool-cases, ==_iff, ◌==◌,
}
use mathlib.Core.Path.{subst}
use computer_system.Pipe.{
  Pipe, address, front, drop_front, nwrite, Call, returns, failed, asleep, Turn, read_loop,
  piperead,
}
use computer_system.Pipe.Queue.{
  IsValid, contents, drop_front-IsValid, contents-drop_front, contents-empty,
}

-- How the copying loop may end that has copied `i` bytes, is to copy `left` more and copies `n`.
-- `lost` is taken from the pipe but not stored.
abbrev pub LoopEnds : (ℕ → Bool) → ℕ → ℕ → ℕ → ℕ → List ℕ → Turn → Type 0
LoopEnds user addr i left n [] t =
    (t.call ≡ returns (i + n)) × (n ≤ left) × ((n ≡ left) ⊎ (contents t.pipe ≡ []))
LoopEnds user addr i left n (b ∷ lost) t =
    (t.call ≡ returns (i + n)) × (n < left) × (user (address addr (i + n)) ≡ false) × (lost ≡ [])

pub record Copies (user : ℕ → Bool) (addr : ℕ) (pi : Pipe) (i left : ℕ) (t : Turn) : Type 0 where
  pub lost : List ℕ
  pub queued : contents pi ≡ t.out ++ (lost ++ contents t.pipe)
  pub valid : IsValid t.pipe
  pub woken : t.woken ≡ nwrite ∷ []
  pub ends : LoopEnds user addr i left (length t.out) lost t

module _ (user : ℕ → Bool) (addr : ℕ) where
  Copies-cons :
      {pi : Pipe} {t : Turn} (i left : ℕ)
      → IsValid pi
      → pi.nread ≢ pi.nwrite
      → Copies user addr (drop_front pi) (i + 1) left t
      → Copies user addr pi i (suc left) (record t { out = front pi ∷ t.out })
  Copies-cons {pi} {t} i left v h c = record {
    lost = c.lost;
    queued = contents-drop_front v h ∙ ap (λ q. front pi ∷ q) c.queued;
    valid = c.valid;
    woken = c.woken;
    ends = shift c.lost c.ends;
  }
    where
      shift :
          (lost : List ℕ)
          → LoopEnds user addr (i + 1) left (length t.out) lost t
          → LoopEnds user addr i
              (suc left)
              (suc (length t.out))
              lost
              (record t { out = front pi ∷ t.out })
      shift [] e = (e.0 ∙ ap returns (omega arith), omega arith, ground (arith, e.2))
      shift (b ∷ lost) e = (
        e.0 ∙ ap returns (omega arith),
        omega arith,
        ap (λ n. user (address addr n)) (omega arith) ∙ e.2,
        e.3,
      )

  read_loop-Copies :
      (pi : Pipe) (i left : ℕ)
      → IsValid pi
      → Copies user addr pi i left (read_loop user addr pi i left)
  unfolding read_loop
  read_loop-Copies pi i zero v = record {
    lost = [];
    queued = refl;
    valid = v;
    woken = refl;
    ends = (ap returns (omega arith), omega arith, inl refl);
  }
  read_loop-Copies pi i (suc left) v = elim (Bool-cases (pi.nread == pi.nwrite)) [
    | inl e ↦ rw e (record {
      lost = [];
      queued = refl;
      valid = v;
      woken = refl;
      ends = (
        ap returns (omega arith),
        omega arith,
        inr (contents-empty v ((==_iff pi.nread pi.nwrite).0 e)),
      );
    })
    | inr ne ↦ rw ne (elim (Bool-cases (user (address addr i))) [
      | inl stored ↦ rw stored (
          Copies-cons i left v (differ ne)
            (read_loop-Copies (drop_front pi) (i + 1) left (drop_front-IsValid v (differ ne))))
      | inr fault ↦ rw fault (record {
        lost = front pi ∷ [];
        queued = contents-drop_front v (differ ne);
        valid = drop_front-IsValid v (differ ne);
        woken = refl;
        ends = (
          ap returns (omega arith),
          omega arith,
          ap (λ n. user (address addr n)) (omega arith) ∙ fault,
          refl,
        );
      })
    ])
  ]
    where
      differ : (pi.nread == pi.nwrite) ≡ false → pi.nread ≢ pi.nwrite
      differ e = ground arith

-- A turn of piperead: asleep or failed it leaves the pipe alone.
abbrev pub Reads : Bool → (ℕ → Bool) → ℕ → Pipe → ℕ → Turn → Call → Type 0
Reads killed user addr pi n t (returns r) =
    Copies user addr pi 0 n t × ((contents pi ≢ []) ⊎ (pi.writeopen ≡ false))
Reads killed user addr pi n t failed =
    (t.pipe ≡ pi) × (contents pi ≡ []) × (pi.writeopen ≡ true) × (killed ≡ true)
Reads killed user addr pi n t (asleep j k) =
    (t.pipe ≡ pi) × (contents pi ≡ []) × (pi.writeopen ≡ true) × (killed ≡ false) × (k ≡ n)

-- A turn of piperead, from its start or from a wake-up. If it returns r, the queue was the r bytes
-- stored in user memory, in order, then at most one byte that is lost because its address could
-- not be written, then the queue now; r is short of what was asked only there or at the empty
-- queue, writers are woken, and the queue held a byte or no writer was left. If it fails or sleeps
-- the pipe is unchanged, empty and open for writing; it fails for a killed process and sleeps for
-- another. The pipe must be well formed, and is afterwards.
pub piperead_takes :
    (killed : Bool) (user : ℕ → Bool) (addr : ℕ) (pi : Pipe) (n : ℕ)
    → IsValid pi
    → let t = piperead killed user addr pi n in
      Reads killed user addr pi n t t.call × IsValid t.pipe
unfolding piperead
piperead_takes killed user addr pi n v = elim (Bool-cases (pi.nread == pi.nwrite && pi.writeopen)) [
  | inl wait ↦ rw wait (elim (Bool-cases killed) [
    | inl k ↦ rw k ((refl, none_left wait, ground arith, refl), v)
    | inr k ↦ rw k ((refl, none_left wait, ground arith, refl, refl), v)
  ])
  | inr go ↦ rw go (done (read_loop user addr pi 0 n) (read_loop-Copies user addr pi 0 n v) go)
]
  where
    none_left : (pi.nread == pi.nwrite && pi.writeopen) ≡ true → contents pi ≡ []
    none_left wait = contents-empty v (ground arith)

    cause :
        (pi.nread == pi.nwrite && pi.writeopen) ≡ false
        → (contents pi ≢ []) ⊎ (pi.writeopen ≡ false)
    cause go = elim (Bool-cases (pi.nread == pi.nwrite)) [
      | inl e ↦ inr (ground arith)
      | inr ne ↦ inl (λ e. cc (contents-drop_front v (ground arith)))
    ]

    done :
        (t : Turn)
        → Copies user addr pi 0 n t
        → (pi.nread == pi.nwrite && pi.writeopen) ≡ false
        → Reads killed user addr pi n t t.call × IsValid t.pipe
    done t c go =
        (subst (Reads killed user addr pi n t) (sym (by_lost c.lost c.ends)) (c, cause go), c.valid)
      where
        by_lost :
            (lost : List ℕ)
            → LoopEnds user addr 0 n (length t.out) lost t
            → t.call ≡ returns (0 + length t.out)
        by_lost [] e = e.0
        by_lost (b ∷ lost) e = e.0
