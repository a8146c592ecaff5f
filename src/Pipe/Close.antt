-- ===== src/Pipe/Close.antt =====
-- pipealloc's fresh pipe and pipeclose.
use computer_system.Prelude.{ℕ, ◌≡◌, refl, Bool, true, false, not, List, [], length, if◌then◌else◌}
use computer_system.Pipe.{pipe_size, nread, nwrite, fresh, pipeclose}
use computer_system.Pipe.Queue.{IsValid, contents, fresh-IsValid}

-- A pipe from pipealloc, on any page, is well formed, empty and open at both ends; closing the two
-- ends, in either order, wakes the other side each time, keeps the queue, and frees the page at the
-- second close and not at the first.
pub pipe_closes_once :
    (junk : List ℕ) (first : Bool)
    → length junk ≡ pipe_size
    → let pi = fresh junk in
      let (pi1, chan1, freed1) = pipeclose pi first in
      let (pi2, chan2, freed2) = pipeclose pi1 (not first) in
      IsValid pi
      × (contents pi ≡ [])
      × (pi.readopen ≡ true)
      × (pi.writeopen ≡ true)
      × (freed1 ≡ false)
      × (freed2 ≡ true)
      × (chan1 ≡ (if first then nread else nwrite))
      × (chan2 ≡ (if first then nwrite else nread))
      × (contents pi2 ≡ contents pi)
unfolding fresh pipeclose
pipe_closes_once junk true h =
    (fresh-IsValid junk h, refl, refl, refl, refl, refl, refl, refl, refl)
pipe_closes_once junk false h =
    (fresh-IsValid junk h, refl, refl, refl, refl, refl, refl, refl, refl)
