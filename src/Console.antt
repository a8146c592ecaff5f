-- ===== src/Console.antt =====
-- kernel/console.c: the console's input ring, and consoleintr on each byte that the uart received.
pub mod Ring
pub mod Moves
pub mod Intr
mod Tests
use computer_system.Prelude.{
  ℕ, zero, suc, ◌+◌, ◌-◌, ◌%◌, ◌^◌, Bool, true, false, not, ◌&&◌, ◌||◌, List, [], ◌∷◌, ◌++◌, set,
  get_or, ltb, ◌==◌, if◌then◌else◌,
}

abbrev pub input_buf : ℕ
input_buf = 128

abbrev pub uint : ℕ → ℕ
uint n = n % 2 ^ 32

-- C(x), with the code of a capital letter
abbrev pub ctrl : ℕ → ℕ
ctrl x = x - 64

-- cons
pub record Cons : Type 0 where
  pub buf : List ℕ
  pub r : ℕ
  pub w : ℕ
  pub e : ℕ

-- a - b of two uints
abbrev pub minus : ℕ → ℕ → ℕ
minus a b = uint (a + 2 ^ 32 - b)

-- consputc(BACKSPACE)
abbrev pub rubout : List ℕ
rubout = 8 ∷ 32 ∷ 8 ∷ []

-- The new ring, what goes to the uart, and whether readers are woken.
pub record Reaction : Type 0 where
  pub cons : Cons
  pub echo : List ℕ
  pub wakes : Bool

abbrev pub quiet : Cons → Reaction
quiet c = record { cons = c; echo = []; wakes = false }

-- The loop for control-u; it runs e - w times at most, and that is the fuel.
unfoldable pub kill_line : ℕ → Cons → Reaction
kill_line zero c = quiet c
kill_line (suc n) c =
    let rest = kill_line n (record c { e = minus c.e 1 }) in
    if not (c.e == c.w) && not (get_or c.buf (minus c.e 1 % input_buf) 0 == b'\n')
    then record rest { echo = rubout ++ rest.echo }
    else quiet c

unfoldable pub backspace : Cons → Reaction
backspace c =
    if not (c.e == c.w)
    then record { cons = record c { e = minus c.e 1 }; echo = rubout; wakes = false }
    else quiet c

-- cons.buf[cons.e++ % INPUT_BUF] = c
unfoldable pub put : Cons → ℕ → Cons
put c ch = record c { buf = set c.buf (c.e % input_buf) ch; e = uint (c.e + 1) }

unfoldable pub store : Cons → ℕ → Reaction
unfolding put
store c ch =
    let c' = put c ch in
    if ch == b'\n' || ch == ctrl b'D' || c'.e == uint (c'.r + input_buf)
    then record { cons = record c' { w = c'.e }; echo = ch ∷ []; wakes = true }
    else record { cons = c'; echo = ch ∷ []; wakes = false }

-- procdump, for control-p, prints and changes nothing here.
unfoldable pub consoleintr : Cons → ℕ → Reaction
unfolding kill_line backspace store
consoleintr c ch =
    if ch == ctrl b'P'
    then quiet c
    else if ch == ctrl b'U'
    then kill_line (minus c.e c.w) c
    else if ch == ctrl b'H' || ch == 127
    then backspace c
    else if not (ch == 0) && ltb (minus c.e c.r) input_buf
    then store c (if ch == b'\r' then b'\n' else ch)
    else quiet c
