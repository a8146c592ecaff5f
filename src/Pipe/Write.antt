-- ===== src/Pipe/Write.antt =====
-- What a turn of pipewrite does, on each of its ways out.
use computer_system.Prelude.{
  ℕ, ◌+◌, ◌<◌, ◌≡◌, ◌⊎◌, Bool, true, false, Option, none, some, List, [], ◌∷◌, ◌++◌, length,
}
use computer_system.Pipe.{Pipe, pipe_size, address, nread, Call, returns, failed, asleep, Turn}
use computer_system.Pipe.Queue.{IsValid, count, contents}

-- The bytes of user memory from byte `i` of the call on.
abbrev pub Copied : (ℕ → Option ℕ) → ℕ → ℕ → List ℕ → Type 0
Copied user addr i [] = Unit
Copied user addr i (b ∷ bs) = (user (address addr i) ≡ some b) × Copied user addr (i + 1) bs

-- How a turn that had `i` bytes written and `left` not, and has now written `n` more, may end.
abbrev pub Ends : Bool → (ℕ → Option ℕ) → ℕ → ℕ → ℕ → ℕ → Turn → Call → Type 0
Ends killed user addr i left n t (returns r) =
    (r ≡ i + n)
    × ((n ≡ left) ⊎ ((n < left) × (user (address addr r) ≡ none)))
    × (t.woken ≡ nread ∷ [])
Ends killed user addr i left n t failed =
    (count t.pipe ≡ pipe_size) × ((t.pipe.readopen ≡ false) ⊎ (killed ≡ true))
Ends killed user addr i left n t (asleep j k) =
    (j ≡ i + n)
    × (k + n ≡ left)
    × (count t.pipe ≡ pipe_size)
    × (t.pipe.readopen ≡ true)
    × (t.woken ≡ nread ∷ [])

-- `bytes` are the bytes that the turn adds to the pipe.
pub record Wrote (killed : Bool) (user : ℕ → Option ℕ) (addr : ℕ) (pi : Pipe) (i left : ℕ)
    (t : Turn) : Type 0 where
  pub bytes : List ℕ
  pub copied : Copied user addr i bytes
  pub queued : contents t.pipe ≡ contents pi ++ bytes
  pub valid : IsValid t.pipe
  pub ends : Ends killed user addr i left (length bytes) t t.call
