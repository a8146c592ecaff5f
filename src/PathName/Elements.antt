-- ===== src/PathName/Elements.antt =====
-- skipelem: how it takes a path apart; and that namex ends.
use computer_system.Prelude.{
  ℕ, zero, suc, ◌<◌, ◌≡◌, ◌≢◌, refl, ◌∙◌, sym, ap, inl, inr, Bool, true, false, ◌&&◌, Option, none,
  some, List, [], ◌∷◌, ◌++◌, All, ◌==◌, ==_iff, Bool-cases, length, length-append, take, replicate,
  arith,
}
use mathlib.Core.Path.{subst, ap₂}
use computer_system.PathName.{
  dirsiz, slash, skip_slashes, split_element, element_of, skipelem, Inodes, Ending, ended, stuck,
  out_of_fuel, or_stuck, put_then, descend, visit, namex_from, start, namex,
}

-- The path does not begin with a slash.
abbrev pub NoSlash : List ℕ → Type 0
NoSlash [] = Unit
NoSlash (c ∷ cs) = c ≢ slash

skip_slashes_lem :
    (path : List ℕ)
    → (n : ℕ) × (path ≡ replicate n slash ++ skip_slashes path) × NoSlash (skip_slashes path)
unfolding skip_slashes
skip_slashes_lem [] = (0, refl, tt)
skip_slashes_lem (c ∷ cs) = elim (Bool-cases (c == slash)) [
  | inl e ↦
      let (n, split, front) = skip_slashes_lem cs in
      rw e (suc n, ap₂ (λ x xs. x ∷ xs) ((==_iff c slash).0 e) split, front)
  | inr ne ↦ rw ne (0, refl, λ e. ground arith)
]

-- What split_element leaves begins with a slash, if there is any.
abbrev AtSlash : List ℕ → Type 0
AtSlash [] = Unit
AtSlash (c ∷ cs) = c ≡ slash

split_element_lem :
    (path : List ℕ)
    → (path ≡ (split_element path).0 ++ (split_element path).1)
      × All (λ c. c ≢ slash) ((split_element path).0)
      × AtSlash ((split_element path).1)
unfolding split_element
split_element_lem [] = (refl, tt, tt)
split_element_lem (c ∷ cs) = elim (Bool-cases (c == slash)) [
  | inl e ↦ rw e (refl, tt, (==_iff c slash).0 e)
  | inr ne ↦
      let r = split_element_lem cs in rw ne (ap (λ xs. c ∷ xs) r.0, ((λ e. ground arith), r.1), r.2)
]

-- How a path is taken apart.
abbrev pub Splits : List ℕ → Option (List ℕ × List ℕ) → Type 0
Splits path none = (n : ℕ) × (path ≡ replicate n slash)
Splits path (some (rest, name)) =
    (n : ℕ) × (s : List ℕ) × (k : ℕ) × (path
      ≡ replicate n slash ++ (s ++ (replicate k slash ++ rest)))
    × (s ≢ [])
    × All (λ c. c ≢ slash) s
    × (name ≡ take dirsiz s)
    × NoSlash rest
    × ((k ≡ 0) → rest ≡ [])

append-nil : (xs : List ℕ) → xs ++ [] ≡ xs
append-nil [] = refl
append-nil (x ∷ xs) = ap (λ q. x ∷ q) (append-nil xs)

split_element-cons : (c : ℕ) (cs : List ℕ) → c ≢ slash → (split_element (c ∷ cs)).0 ≢ []
unfolding split_element
split_element-cons c cs ne e =
    let other : (c == slash) ≡ false = ground (arith, ne) in
    let head : (split_element (c ∷ cs)).0 ≡ c ∷ (split_element cs).0 = rw other refl in
    ground (arith, sym head ∙ e)

-- Between an element and the next there is a slash.
apart :
    (q rest : List ℕ) (k : ℕ)
    → AtSlash q
    → NoSlash rest
    → q ≡ replicate k slash ++ rest
    → k ≡ 0
    → rest ≡ []
apart q [] k at front e z = refl
apart q (c ∷ rest) k at front e z =
    absurd (front (subst AtSlash (e ∙ ap (λ n. replicate n slash ++ (c ∷ rest)) z) at))

element_of-Splits :
    (path : List ℕ) (n : ℕ) (q : List ℕ)
    → path ≡ replicate n slash ++ q
    → NoSlash q
    → Splits path (element_of q)
unfolding element_of
element_of-Splits path n [] e front = (n, e ∙ append-nil (replicate n slash))
element_of-Splits path n (c ∷ cs) e front =
    let r = split_element_lem (c ∷ cs) in
    let (k, split, front') = skip_slashes_lem ((split_element (c ∷ cs)).1) in
    (
      n,
      (split_element (c ∷ cs)).0,
      k,
      e ∙ ap (λ x. replicate n slash ++ x) (r.0 ∙ ap (λ x. (split_element (c ∷ cs)).0 ++ x) split),
      split_element-cons c cs front,
      r.1,
      refl,
      front',
      λ z. apart ((split_element (c ∷ cs)).1) _ k r.2 front' split z,
    )

-- skipelem takes off the slashes at the front, the bytes up to the next slash or the end, and the
-- slashes behind them, and returns the rest; the name is the first DIRSIZ of those bytes, which are
-- not none. It returns 0 just for a path of slashes alone.
pub skipelem-Splits : (path : List ℕ) → Splits path (skipelem path)
unfolding skipelem
skipelem-Splits path =
    let (n, split, front) = skip_slashes_lem path in
    element_of-Splits path n (skip_slashes path) split front

-- What is left of a path is shorter.
shorter : (path rest name : List ℕ) → Splits path (some (rest, name)) → length rest < length path
shorter path rest name (n, s, k, e, some_byte, bytes, named, front, last) =
    let l = ap length e ∙ length-append (replicate n slash) _ in
    let l' = length-append s (replicate k slash ++ rest) in
    let l'' = length-append (replicate k slash) rest in
    omega (arith, l, l', l'', positive s some_byte)
  where
    positive : (xs : List ℕ) → xs ≢ [] → 0 < length xs
    positive [] ne = absurd (ne refl)
    positive (x ∷ xs) ne = omega arith

-- It did not run out of fuel.
abbrev pub Ends : {S : Type 0} → Ending S → Type 0
Ends (ended ip name s) = Unit
Ends stuck = Unit
Ends out_of_fuel = ⊥

or_stuck-Ends :
    {S : Type 0} {A : Type 0} (o : Option A) (k : A → Ending S)
    → ((a : A) → Ends (k a))
    → Ends (or_stuck o k)
or_stuck-Ends none k h = tt
or_stuck-Ends (some a) k h = h a

module _ {S : Type 0} (f : Inodes S) where
  put_then-Ends :
      (s : S) (ip : ℕ) (k : S → Ending S) → ((s' : S) → Ends (k s')) → Ends (put_then f s ip k)
  put_then-Ends s ip k h = or_stuck-Ends (f.iunlock s ip) _ (λ s1. or_stuck-Ends (f.iput s1 ip) k h)

  descend-Ends :
      (ip : ℕ) (name : List ℕ) (rest : S → ℕ → Ending S) (r : Option ℕ × S)
      → ((s : S) (next : ℕ) → Ends (rest s next))
      → Ends (descend f ip name rest r)
  descend-Ends ip name rest (none, s) h = put_then-Ends s ip _ (λ s1. tt)
  descend-Ends ip name rest (some next, s) h = put_then-Ends s ip _ (λ s1. h s1 next)

  visit-Ends :
      (parent : Bool) (s : S) (ip : ℕ) (path name : List ℕ)
      (loop : S → ℕ → List ℕ → List ℕ → Ending S) (o : Option (List ℕ × List ℕ))
      → Splits path o
      → ((s' : S) (ip' : ℕ) (path' name' : List ℕ)
          → length path' < length path
          → Ends (loop s' ip' path' name'))
      → Ends (visit f parent s ip name loop o)
  visit-Ends true s ip path name loop none split h = or_stuck-Ends (f.iput s ip) _ (λ s1. tt)
  visit-Ends false s ip path name loop none split h = tt
  visit-Ends parent s ip path name loop (some (rest, elem)) split h =
      or_stuck-Ends (f.ilock s ip) _ (λ s1. elim (Bool-cases (f.is_dir s1 ip)) [
        | inr file ↦ rw file (put_then-Ends s1 ip _ (λ s2. tt))
        | inl dir ↦ rw dir (elim (Bool-cases (parent && (length rest == 0))) [
          | inl stop ↦ rw stop (or_stuck-Ends (f.iunlock s1 ip) _ (λ s2. tt))
          | inr more ↦ rw more (
              or_stuck-Ends (f.dirlookup s1 ip elem) _ (λ r.
                descend-Ends ip elem _ r
                  (λ s2 next. h s2 next rest elem (shorter path rest elem split))))
        ])
      ])

  namex_from-Ends :
      (fuel : ℕ) (parent : Bool) (s : S) (ip : ℕ) (path name : List ℕ)
      → length path < fuel
      → Ends (namex_from fuel f parent s ip path name)
  unfolding namex_from
  namex_from-Ends zero parent s ip path name h = absurd (omega arith)
  namex_from-Ends (suc fuel) parent s ip path name h =
      visit-Ends parent s ip path name _ (skipelem path) (skipelem-Splits path)
        (λ s' ip' path' name' lt. namex_from-Ends fuel parent s' ip' path' name' (omega arith))

-- namex ends for every path, with more fuel than the path has bytes, whatever the inode operations do,
-- as long as they return.
pub namex-Ends :
    {S : Type 0} (fuel : ℕ) (f : Inodes S) (s : S) (path : List ℕ) (parent : Bool) (name : List ℕ)
    → length path < fuel
    → Ends (namex fuel f s path parent name)
unfolding namex
namex-Ends fuel f s path parent name h =
    or_stuck-Ends (start f s path) _ (λ r. namex_from-Ends f fuel parent r.1 r.0 path name h)
