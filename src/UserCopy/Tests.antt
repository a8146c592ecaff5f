-- ===== src/UserCopy/Tests.antt =====
-- Copies from and to a small user memory.
use computer_system.Prelude.{zero, suc, ◌≡◌, refl, true, false, [], ◌∷◌, arith}
use computer_system.Vm.{Memory, walkaddr, walk_from, ok}
use computer_system.Vm.Sample.{one_page}
use computer_system.UserCopy.{copyin, copyout}
use computer_system.UserCopy.Out.{store_bytes}
use computer_system.UserCopy.Round.{Apart, copyin-copyout}

-- The page after the first one is not the user's.
copyin_stops : copyin 3 one_page 0x80201000 4094 10 ≡ ok (0 ∷ 1 ∷ [], false)
unfolding copyin walkaddr walk_from
copyin_stops = refl

abbrev written : Memory
written = (store_bytes one_page 0x80201000 5 (1 ∷ 2 ∷ [])).0

two_bytes-Apart : Apart one_page 0x80201000 5 2
unfolding walkaddr walk_from
two_bytes-Apart zero zero h h' e = refl
two_bytes-Apart (suc zero) (suc zero) h h' e = refl
two_bytes-Apart zero (suc zero) h h' e = absurd (omega arith)
two_bytes-Apart (suc zero) zero h h' e = absurd (omega arith)
two_bytes-Apart (suc (suc i)) j h h' e = absurd (omega arith)
two_bytes-Apart i (suc (suc j)) h h' e = absurd (omega arith)

written_ok : copyout 3 one_page 0x80201000 5 (1 ∷ 2 ∷ []) ≡ ok (written, true)
unfolding copyout store_bytes walkaddr walk_from
written_ok = refl

copyin-copyout_example : copyin 3 written 0x80201000 5 2 ≡ ok (1 ∷ 2 ∷ [], true)
copyin-copyout_example =
    copyin-copyout 3 one_page written 0x80201000 5 (1 ∷ 2 ∷ []) (omega arith) two_bytes-Apart
      written_ok
