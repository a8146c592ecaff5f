-- ===== src/Console/Intr.antt =====
-- consoleintr refines a line editor on two lists of bytes.
use computer_system.Prelude.{
  ℕ, zero, suc, ◌+◌, ◌%◌, ◌^◌, ◌<◌, ◌≡◌, ◌≢◌, refl, ◌∙◌, sym, ap, ap₂, inl, inr, Bool, true, not,
  ◌&&◌, ◌||◌, List, [], ◌∷◌, ◌++◌, All-append, length, length-append, length-set, get_or, ltb, ◌==◌,
  ==_iff, if◌then◌else◌, Bool-cases, arith,
}
use mathlib.Core.Path.{subst}
use computer_system.Console.{
  Cons, input_buf, uint, minus, ctrl, put, kill_line, backspace, store, consoleintr,
}
use computer_system.Console.Ring.{bytes, ready, edited, IsRing, OneLine, IsValid}
use computer_system.Console.Moves.{
  back-IsValid, drop_last, drop_last-snoc, edited-back, edited-commit, edited-put, last_byte,
  length-lines, ready-commit, ready-put,
}

-- The lines ready for readers, and the line being edited.
pub record Lines : Type 0 where
  pub done : List ℕ
  pub open_line : List ℕ

abbrev pub lines : Cons → Lines
lines c = record { done = ready c; open_line = edited c }

-- A byte at the end of the open line; a line feed, a control-d or a full buffer closes the line.
abbrev pub append_byte : Lines → ℕ → Lines
append_byte l ch =
    let line = l.open_line ++ (ch ∷ []) in
    if ch == b'\n' || ch == ctrl b'D' || length l.done + length line == input_buf
    then record { done = l.done ++ line; open_line = [] }
    else record l { open_line = line }

-- What a byte from the keyboard does to the lines.
abbrev pub type_byte : Lines → ℕ → Lines
type_byte l ch =
    if ch == ctrl b'P'
    then l
    else if ch == ctrl b'U'
    then record l { open_line = [] }
    else if ch == ctrl b'H' || ch == 127
    then record l { open_line = drop_last l.open_line }
    else if not (ch == 0) && ltb (length l.done + length l.open_line) input_buf
    then append_byte l (if ch == b'\r' then b'\n' else ch)
    else l

-- The new ring is well formed and shows these lines.
abbrev pub Shows : Cons → Lines → Type 0
Shows c l = IsValid c × (lines c ≡ l)

edited-empty : (c : Cons) → c.e ≡ c.w → c.w < 2 ^ 32 → edited c ≡ []
edited-empty c e h = ap (bytes c.buf c.w) {y = 0} (omega arith)

abbrev the_lines : List ℕ → List ℕ → Lines
the_lines a b = record { done = a; open_line = b }

-- The same lines, part by part.
Lines-path : (c : Cons) (l : Lines) → ready c ≡ l.done → edited c ≡ l.open_line → lines c ≡ l
Lines-path c l p q = ap₂ the_lines p q

kill_line-Shows :
    (n : ℕ) (c : Cons)
    → IsValid c
    → minus c.e c.w ≡ n
    → Shows (kill_line n c).cons (record { done = ready c; open_line = [] })
unfolding kill_line
kill_line-Shows zero c v e = (
  v,
  Lines-path c _ refl (edited-empty c (omega (arith, v.ring.w_fits, v.ring.e_fits)) v.ring.w_fits),
)
kill_line-Shows (suc n) c v e = rw go (
    kill_line-Shows n (record c { e = minus c.e 1 }) (back-IsValid c v.ring ne v.one_line)
      (omega (arith, v.ring.w_fits, v.ring.e_fits)))
  where
    ne : c.e ≢ c.w
    ne = omega (arith, v.ring.w_fits)

    go : (not (c.e == c.w) && not (get_or c.buf (minus c.e 1 % input_buf) 0 == b'\n')) ≡ true
    go = ground (arith, ne, last_byte c v.ring ne v.one_line)

backspace-Shows :
    (c : Cons)
    → IsValid c
    → Shows (backspace c).cons (record { done = ready c; open_line = drop_last (edited c) })
unfolding backspace
backspace-Shows c v = elim (Bool-cases (c.e == c.w)) [
  | inl none_left ↦
      let empty = edited-empty c ((==_iff c.e c.w).0 none_left) v.ring.w_fits in
      rw none_left (v, Lines-path c _ refl (empty ∙ sym (ap drop_last empty)))
  | inr some_left ↦
      let ne : c.e ≢ c.w = ground arith in
      rw some_left (
        back-IsValid c v.ring ne v.one_line,
        Lines-path (record c { e = minus c.e 1 }) _ refl
            (sym (drop_last-snoc _ _) ∙ sym (ap drop_last (edited-back c v.ring ne))),
      )
]

put-IsRing : (c : Cons) (ch : ℕ) → IsRing c → minus c.e c.r < input_buf → IsRing (put c ch)
unfolding put
put-IsRing c ch v room = record {
  whole = length-set c.buf (c.e % input_buf) ch ∙ v.whole;
  r_fits = v.r_fits;
  w_fits = v.w_fits;
  e_fits = omega arith;
  bounded = omega (arith, v.r_fits, v.w_fits, v.e_fits, v.bounded);
}

commit-IsRing : (c : Cons) → IsRing c → IsRing (record c { w = c.e })
commit-IsRing c v = record {
  whole = v.whole;
  r_fits = v.r_fits;
  w_fits = v.e_fits;
  e_fits = v.e_fits;
  bounded = omega (arith, v.r_fits, v.w_fits, v.e_fits, v.bounded);
}

-- The test of the code for a full ring, by lengths.
full_lem :
    (c : Cons) (ch : ℕ)
    → IsRing c
    → minus c.e c.r < input_buf
    → ((put c ch).e == uint ((put c ch).r + input_buf))
      ≡ (length (ready c) + length (edited c ++ (ch ∷ [])) == input_buf)
unfolding put
full_lem c ch v room =
    ground (arith, length-lines c v, length-append (edited c) (ch ∷ []), v.r_fits, v.e_fits)

store-Shows :
    (c : Cons) (ch : ℕ)
    → IsValid c
    → minus c.e c.r < input_buf
    → Shows (store c ch).cons (append_byte (lines c) ch)
unfolding store
store-Shows c ch v room = elim (Bool-cases closes) [
  | inl closed ↦
      rw (same, closed)
        (
          record {
            ring = commit-IsRing (put c ch) ring;
            one_line = subst OneLine (sym (edited-commit (put c ch) ring)) tt;
          },
          Lines-path (record (put c ch) { w = (put c ch).e }) _
              (ready-commit (put c ch) ring
                ∙ ap₂ ◌++◌ (ready-put c v.ring ch room) (edited-put c v.ring ch room))
              (edited-commit (put c ch) ring),
        )
  | inr stays ↦
      rw (same, stays)
        (
          record {
            ring = ring;
            one_line =
                subst OneLine (sym (edited-put c v.ring ch room))
                  (All-append (λ b. b ≢ b'\n') (edited c) (ch ∷ []) v.one_line (ground arith, tt));
          },
          Lines-path (put c ch) _ (ready-put c v.ring ch room) (edited-put c v.ring ch room),
        )
]
  where
    closes : Bool
    closes =
        ch == b'\n'
        || ch == ctrl b'D'
        || length (ready c) + length (edited c ++ (ch ∷ [])) == input_buf

    ring : IsRing (put c ch)
    ring = put-IsRing c ch v.ring room

    same :
        (ch == b'\n' || ch == ctrl b'D' || (put c ch).e == uint ((put c ch).r + input_buf)) ≡ closes
    same = ap (λ b. ch == b'\n' || ch == ctrl b'D' || b) (full_lem c ch v.ring room)

-- consoleintr refines the line editor: after a byte from the keyboard the ring, whose counters
-- wrap, is well formed and holds the lines that the editor makes of the lines before; control-u
-- erases the open line and no more, a backspace its last byte, and a byte that finds the buffer
-- full is dropped.
pub consoleintr-Shows :
    (c : Cons) (ch : ℕ) → IsValid c → Shows (consoleintr c ch).cons (type_byte (lines c) ch)
unfolding consoleintr
consoleintr-Shows c ch v = elim (Bool-cases (ch == ctrl b'P')) [
  | inl p ↦ rw p (v, refl)
  | inr np ↦ rw np (elim (Bool-cases (ch == ctrl b'U')) [
    | inl u ↦ rw u (kill_line-Shows (minus c.e c.w) c v refl)
    | inr nu ↦ rw nu (elim (Bool-cases (ch == ctrl b'H' || ch == 127)) [
      | inl h ↦ rw h (backspace-Shows c v)
      | inr nh ↦ rw nh (elim (Bool-cases (not (ch == 0) && ltb (minus c.e c.r) input_buf)) [
        | inl fits ↦
            rw (length-lines c v.ring, fits)
              (store-Shows c (if ch == b'\r' then b'\n' else ch) v (ground arith))
        | inr dropped ↦ rw (length-lines c v.ring, dropped) (v, refl)
      ])
    ])
  ])
]
