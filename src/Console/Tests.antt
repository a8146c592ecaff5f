-- ===== src/Console/Tests.antt =====
-- Runs of kernel/console.c's consoleintr on a ring whose counters are about to wrap.
use computer_system.Prelude.{
  ℕ, ◌≡◌, refl, List, [], ◌∷◌, length, length-replicate, replicate, arith,
}
use computer_system.Console.{Cons, put, consoleintr, kill_line, store}
use computer_system.Console.Ring.{ready, IsValid}
use computer_system.Console.Intr.{Shows, lines, type_byte, consoleintr-Shows}

abbrev page : List ℕ
page = replicate 128 97

length-page : length page ≡ 128
length-page = length-replicate {A = ℕ} 128 97

-- Two bytes ready, two being edited.
abbrev typing : Cons
typing = record { buf = page; r = 4294967294; w = 0; e = 2 }

typing-IsValid : IsValid typing
typing-IsValid = record {
  ring = record {
    whole = length-page;
    r_fits = omega arith;
    w_fits = omega arith;
    e_fits = omega arith;
    bounded = omega arith;
  };
  one_line = (omega arith, (omega arith, tt));
}

consoleintr-Shows_example : Shows (consoleintr typing 13).cons (type_byte (lines typing) 13)
consoleintr-Shows_example = consoleintr-Shows typing 13 typing-IsValid

return_closes_the_line : ready (consoleintr typing 13).cons ≡ 97 ∷ 97 ∷ 97 ∷ 97 ∷ 10 ∷ []
unfolding consoleintr store put
return_closes_the_line = refl

control_u_keeps_the_rest : ready (consoleintr typing 21).cons ≡ 97 ∷ 97 ∷ []
unfolding consoleintr kill_line
control_u_keeps_the_rest = refl
