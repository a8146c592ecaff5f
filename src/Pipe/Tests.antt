-- ===== src/Pipe/Tests.antt =====
-- Runs of kernel/pipe.c's operations on small pipes, and the pipe theorems at them.
use computer_system.Prelude.{
  ℕ, ◌-◌, ltb, if◌then◌else◌, ◌≡◌, refl, true, false, Option, some, none, List, [], ◌∷◌, length,
  replicate, length-replicate, arith,
}
use computer_system.Pipe.{
  pipe_size, Pipe, returns, asleep, write_turn, pipewrite, piperead, read_loop, put, front,
  drop_front,
}
use computer_system.Pipe.Queue.{IsValid}
use computer_system.Pipe.Read.{Reads, piperead_takes}

abbrev page : List ℕ
page = replicate 512 5

length-page : length page ≡ pipe_size
length-page = length-replicate {A = ℕ} 512 5

-- Fresh, with a page of junk.
abbrev empty_pipe : Pipe
empty_pipe = record { buf = page; nread = 0; nwrite = 0; readopen = true; writeopen = true }

-- The counters about to wrap, two bytes in it.
abbrev wrapping : Pipe
wrapping = record { buf = page; nread = 4294967295; nwrite = 1; readopen = true; writeopen = true }

empty_pipe-IsValid : IsValid empty_pipe
empty_pipe-IsValid = omega (arith, length-page)

wrapping-IsValid : IsValid wrapping
wrapping-IsValid = omega (arith, length-page)

-- User memory that ends at address 102.
abbrev user : ℕ → Option ℕ
user a = if ltb a 102 then some (a - 35) else none

piperead_takes_example :
    let t = piperead false (λ a. true) 100 wrapping 1 in
    Reads false (λ a. true) 100 wrapping 1 t t.call × IsValid t.pipe
piperead_takes_example = piperead_takes false (λ a. true) 100 wrapping 1 wrapping-IsValid

write_stops_at_fault : (pipewrite false user 100 empty_pipe 3).call ≡ returns 2
unfolding pipewrite write_turn put
write_stops_at_fault = refl

read_of_empty_sleeps : (piperead false (λ a. true) 100 empty_pipe 3).call ≡ asleep 0 3
unfolding piperead
read_of_empty_sleeps = refl

read_round_the_wrap : (piperead false (λ a. true) 100 wrapping 9).out ≡ 5 ∷ 5 ∷ []
unfolding piperead read_loop front drop_front
read_round_the_wrap = refl
