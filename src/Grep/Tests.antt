-- ===== src/Grep/Tests.antt =====
-- Runs of grep's matcher.
use computer_system.Prelude.{◌≡◌, refl, true, false, [], ◌∷◌}
use computer_system.Grep.{match, match_any, match_here, match_star, match_char}
use computer_system.Grep.Matches.{Finds, match_decides}

-- a*b$ and xaab
match_decides_example :
    (match (97 ∷ 42 ∷ 98 ∷ 36 ∷ []) (120 ∷ 97 ∷ 97 ∷ 98 ∷ []) ≡ true
      → Finds (97 ∷ 42 ∷ 98 ∷ 36 ∷ []) (120 ∷ 97 ∷ 97 ∷ 98 ∷ []))
    × (Finds (97 ∷ 42 ∷ 98 ∷ 36 ∷ []) (120 ∷ 97 ∷ 97 ∷ 98 ∷ [])
        → match (97 ∷ 42 ∷ 98 ∷ 36 ∷ []) (120 ∷ 97 ∷ 97 ∷ 98 ∷ []) ≡ true)
match_decides_example = match_decides (97 ∷ 42 ∷ 98 ∷ 36 ∷ []) (120 ∷ 97 ∷ 97 ∷ 98 ∷ [])

star_and_end : match (97 ∷ 42 ∷ 98 ∷ 36 ∷ []) (120 ∷ 97 ∷ 97 ∷ 98 ∷ []) ≡ true
unfolding match match_any match_here match_star match_char
star_and_end = refl

anchored : match (94 ∷ 97 ∷ []) (120 ∷ 97 ∷ []) ≡ false
unfolding match match_any match_here match_star match_char
anchored = refl
