-- ===== src/Printf.antt =====
-- user/printf.c, and atoi of user/ulib.c: numbers to text and back. A string is the list of its bytes;
-- what is put to the file descriptor is the list of bytes that the calls of putc write.
pub mod Round
mod Tests
use computer_system.Prelude.{
  ℕ, zero, suc, ◌+◌, ◌-◌, ◌*◌, ◌/◌, ◌%◌, ◌^◌, Bool, true, false, not, ◌&&◌, Option, none, some,
  List, [], ◌∷◌, ◌++◌, ltb, leb, ◌==◌, if◌then◌else◌, length,
}
use computer_system.Prelude.Int.{ℤ, pos, negsuc}

-- digits[d]
abbrev pub digit : ℕ → ℕ
digit d = if ltb d 10 then 48 + d else 55 + d

-- The size of buf.
abbrev pub buf_size : ℕ
buf_size = 16

abbrev pub cons_to : ℕ → Option (List ℕ) → Option (List ℕ)
cons_to d none = none
cons_to d (some ds) = some (d ∷ ds)

-- The loop that fills buf, with the bytes of buf that are left: none where it would leave buf.
unfoldable pub fill_buf : ℕ → ℕ → ℕ → Option (List ℕ)
fill_buf zero x base = none
fill_buf (suc left) x base =
    let rest = fill_buf left (x / base) base in
    if x / base == 0 then some (digit (x % base) ∷ []) else cons_to (digit (x % base)) rest

-- while(--i >= 0) putc(fd, buf[i]); before the bytes that follow.
abbrev pub put_back : List ℕ → List ℕ → List ℕ
put_back [] out = out
put_back (c ∷ cs) out = put_back cs (c ∷ out)

-- An int as a uint.
abbrev pub to_uint : ℤ → ℕ
to_uint (pos n) = n
to_uint (negsuc n) = 2 ^ 32 - 1 - n

-- The magnitude that is printed, and neg.
abbrev pub magnitude : ℤ → Bool → ℕ × Bool
magnitude (negsuc n) true = (n + 1, true)
magnitude xx sgn = (to_uint xx, false)

-- buf[i++] = '-', where buf has room.
abbrev pub put_sign : Bool → List ℕ → Option (List ℕ)
put_sign neg ds =
    if not neg
    then some (put_back ds [])
    else if ltb (length ds) buf_size
    then some (45 ∷ put_back ds [])
    else none

unfoldable pub printint : ℤ → ℕ → Bool → Option (List ℕ)
unfolding fill_buf
printint xx base sgn =
    let (x, neg) = magnitude xx sgn in
    elim (fill_buf buf_size x base) [ none ↦ none | some ds ↦ put_sign neg ds ]

-- The loop of printptr, n digits.
unfoldable pub put_hex : ℕ → ℕ → List ℕ
put_hex zero x = []
put_hex (suc n) x = digit (x / 2 ^ 60) ∷ put_hex n (x * 16 % 2 ^ 64)

unfoldable pub printptr : ℕ → List ℕ
unfolding put_hex
printptr x = 48 ∷ 120 ∷ put_hex 16 x

-- What va_arg takes: a machine word, or a string, none for the null pointer.
pub data Arg : Type 0 where
  word : ℕ → Arg
  text : Option (List ℕ) → Arg

-- A word as an int.
abbrev pub to_int : ℕ → ℤ
to_int w = let u : ℕ = w % 2 ^ 32 in if ltb u (2 ^ 31) then pos u else negsuc (2 ^ 32 - 1 - u)

abbrev pub then_put : Option (List ℕ) → Option (List ℕ) → Option (List ℕ)
then_put none rest = none
then_put (some out) none = none
then_put (some out) (some rest) = some (out ++ rest)

-- What the byte after a % puts, of a word or a string; none where that is undefined.
abbrev pub conversion : ℕ → Arg → Option (List ℕ)
conversion c (word w) =
    if c == 100
    then printint (to_int w) 10 true
    else if c == 108
    then printint (to_int w) 10 false
    else if c == 120
    then printint (to_int w) 16 false
    else if c == 112
    then some (printptr w)
    else if c == 99
    then some (w % 256 ∷ [])
    else none
conversion c (text none) = if c == 115 then some (40 ∷ 110 ∷ 117 ∷ 108 ∷ 108 ∷ 41 ∷ []) else none
conversion c (text (some s)) = if c == 115 then some s else none

-- d, l, x, p, s and c take an argument.
abbrev pub takes_arg : ℕ → Bool
takes_arg c =
    if c == 100
    then true
    else if c == 108
    then true
    else if c == 120
    then true
    else if c == 112
    then true
    else if c == 115
    then true
    else c == 99

-- The loop of vprintf: `after` is state == '%'.
unfoldable pub format : List ℕ → Bool → List Arg → Option (List ℕ)
format [] after args = some []
format (c ∷ cs) false args =
    let text_rest = format cs false args in
    let conv_rest = format cs true args in if c == 37 then conv_rest else cons_to c text_rest
format (c ∷ cs) true [] =
    let rest = format cs false [] in
    if takes_arg c then none else if c == 37 then cons_to c rest else cons_to 37 (cons_to c rest)
format (c ∷ cs) true (a ∷ args) =
    let rest = format cs false args in
    let plain = format cs false (a ∷ args) in
    if takes_arg c
    then then_put (conversion c a) rest
    else if c == 37
    then cons_to c plain
    else cons_to 37 (cons_to c plain)

unfoldable pub vprintf : List ℕ → List Arg → Option (List ℕ)
unfolding format
vprintf fmt args = format fmt false args

-- The loop of atoi, from n. What overflows an int is undefined.
unfoldable pub atoi_from : ℕ → List ℕ → ℕ
atoi_from n [] = n
atoi_from n (c ∷ cs) =
    let rest = atoi_from (n * 10 + c - 48) cs in if leb 48 c && leb c 57 then rest else n

unfoldable pub atoi : List ℕ → ℕ
unfolding atoi_from
atoi s = atoi_from 0 s
