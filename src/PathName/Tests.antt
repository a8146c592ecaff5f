-- ===== src/PathName/Tests.antt =====
-- Paths taken apart, and a walk down one.
use computer_system.Prelude.{ℕ, ◌+◌, ◌≡◌, true, false, none, some, [], ◌∷◌, refl}
use computer_system.PathName.{Inodes, skipelem, namex, ended}
use computer_system.PathName.Elements.{Splits, skipelem-Splits}

-- skipelem("///a//bb", name) = "bb", setting name = "a"
slashes_first : skipelem (47 ∷ 47 ∷ 97 ∷ 47 ∷ 47 ∷ 98 ∷ 98 ∷ []) ≡ some (98 ∷ 98 ∷ [], 97 ∷ [])
unfolding skipelem
slashes_first = refl

-- skipelem("////", name) = 0
only_slashes : skipelem (47 ∷ 47 ∷ 47 ∷ 47 ∷ []) ≡ none
unfolding skipelem
only_slashes = refl

skipelem-Splits_example : Splits (97 ∷ 47 ∷ 98 ∷ []) (skipelem (97 ∷ 47 ∷ 98 ∷ []))
skipelem-Splits_example = skipelem-Splits (97 ∷ 47 ∷ 98 ∷ [])

-- Directories all the way down: the state counts the lookups.
abbrev downward : Inodes ℕ
downward = record {
  root = λ s. some (1, s);
  cwd = λ s. some (2, s);
  ilock = λ s ip. some s;
  iunlock = λ s ip. some s;
  iput = λ s ip. some s;
  is_dir = λ s ip. true;
  dirlookup = λ s ip name. some (some (ip + 10), s + 1);
}

walks_down : namex 9 downward 0 (47 ∷ 97 ∷ 47 ∷ 98 ∷ []) false [] ≡ ended (some 21) (98 ∷ []) 2
unfolding namex
walks_down = refl
