-- ===== src/Printf/Tests.antt =====
-- Numbers printed and read back.
use computer_system.Prelude.{
  ℕ, ◌≡◌, ◌≤◌, ◌-◌, ◌^◌, inl, some, true, [], List, ◌∷◌, refl, length, arith,
}
use computer_system.Prelude.Int.{negsuc, pos}
use computer_system.Printf.{printint, fill_buf, atoi, vprintf, format, word, text}
use computer_system.Printf.Round.{printint-IsBounded, atoi-printint}

-- "%d %s%%" of -42 and "ab"
a_line :
    vprintf
      (37 ∷ 100 ∷ 32 ∷ 37 ∷ 115 ∷ 37 ∷ 37 ∷ [])
      (word (2 ^ 32 - 42) ∷ text (some (97 ∷ 98 ∷ [])) ∷ [])
    ≡ some (45 ∷ 52 ∷ 50 ∷ 32 ∷ 97 ∷ 98 ∷ 37 ∷ [])
unfolding vprintf format printint fill_buf
a_line = refl

printint-IsBounded_example :
    (out : List ℕ) × (printint (negsuc 2147483647) 10 true ≡ some out) × (length out ≤ 11)
printint-IsBounded_example = printint-IsBounded (negsuc 2147483647) 10 true (omega arith) (inl refl)

prints_307 : printint (pos 307) 10 true ≡ some (51 ∷ 48 ∷ 55 ∷ [])
unfolding printint fill_buf
prints_307 = refl

atoi-printint_example : atoi (51 ∷ 48 ∷ 55 ∷ []) ≡ 307
atoi-printint_example = atoi-printint 307 (51 ∷ 48 ∷ 55 ∷ []) prints_307
