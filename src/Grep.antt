-- ===== src/Grep.antt =====
-- The matcher of user/grep.c, over the bytes of a pattern and of a line before their nul.
pub mod Matches
mod Tests
use computer_system.Prelude.{ℕ, Bool, true, false, ◌||◌, List, [], ◌∷◌, ◌==◌, if◌then◌else◌}

abbrev pub is_nil : List ℕ → Bool
is_nil [] = true
is_nil (x ∷ xs) = false

-- matchstar, given matchhere of the rest of the pattern.
unfoldable pub match_star : (List ℕ → Bool) → ℕ → List ℕ → Bool
match_star here c [] = here []
match_star here c (x ∷ text) =
    let rest = match_star here c text in
    if here (x ∷ text) then true else if x == c || c == b'.' then rest else false

-- The last two tests of matchhere, given matchhere of the pattern behind `c`.
unfoldable pub match_char : (List ℕ → Bool) → ℕ → List ℕ → Bool
match_char here c [] = false
match_char here c (x ∷ text) = if c == b'.' || c == x then here text else false

unfoldable pub match_here : List ℕ → List ℕ → Bool
unfolding match_star match_char
match_here [] text = true
match_here (c ∷ []) text = if c == b'$' then is_nil text else match_char (match_here []) c text
match_here (c ∷ d ∷ re) text =
    if d == b'*' then match_star (match_here re) c text else match_char (match_here (d ∷ re)) c text

-- The loop of match.
unfoldable pub match_any : List ℕ → List ℕ → Bool
match_any re [] = match_here re []
match_any re (x ∷ text) =
    let rest = match_any re text in if match_here re (x ∷ text) then true else rest

unfoldable pub match : List ℕ → List ℕ → Bool
match [] text = match_any [] text
match (c ∷ re) text = if c == b'^' then match_here re text else match_any (c ∷ re) text
