-- ===== src/Files/Refs.antt =====
-- The reference count of an open file is the number of its handles.
use computer_system.Prelude.{
  ℕ, ◌+◌, ◌-◌, ◌<◌, ◌≡◌, ◌≢◌, inl, inr, some, List, [], ◌∷◌, ◌++◌, get_elem?, get_elem?-set,
  get_elem?-set_at, get_elem?-set_ne, sym, ◌∙◌, ==_iff, ap, ltb, set, ◌==◌, if◌then◌else◌, arith,
  Bool-cases, Option-cases,
}
use mathlib.Core.Path.{subst}
use computer_system.Files.{File, fd_none, filealloc, filedup, fileclose, Release, release, nothing}

-- How many of the handles are of slot s.
abbrev pub count : ℕ → List ℕ → ℕ
count s [] = 0
count s (x ∷ xs) = (if x == s then 1 else 0) + count s xs

pub count-append : (s : ℕ) (xs ys : List ℕ) → count s (xs ++ ys) ≡ count s xs + count s ys
count-append s [] ys = omega arith
count-append s (x ∷ xs) ys = omega (arith, count-append s xs ys)

-- The handles, the file descriptors of all processes, are of slots of the table, and their number
-- is the slot's count.
pub record IsCounted (fs : List File) (handles : List ℕ) : Type 0 where
  pub counted : (s : ℕ) (f : File) → get_elem? fs s ≡ some f → f.ref ≡ count s handles
  pub there : (s : ℕ) → 0 < count s handles → (f : File) × (get_elem? fs s ≡ some f)

filealloc_lem :
    (fs fs' : List File) (i : ℕ)
    → filealloc fs ≡ some (i, fs')
    → (f : File) × (get_elem? fs i ≡ some f) × (f.ref ≡ 0) × (fs' ≡ set fs i (record f { ref = 1 }))
unfolding filealloc
filealloc_lem [] fs' i e = cc
filealloc_lem (x ∷ fs) fs' i e = elim (Bool-cases (x.ref == 0)) [
  | inl free ↦ (x, ground arith, ground arith, ground arith)
  | inr busy ↦ elim (Option-cases (filealloc fs)) [
    | inl full ↦ absurd (ground arith)
    | inr ((j, rest), found) ↦
        let (f, g, z, s) = filealloc_lem fs rest j found in
        (f, ground (arith, g), z, ground (arith, s))
  ]
]

-- A slot gets a new value, and its handles the number that this has.
IsCounted-set :
    (fs : List File) (i : ℕ) (f f' : File) (hs hs' : List ℕ)
    → IsCounted fs hs
    → get_elem? fs i ≡ some f
    → f'.ref ≡ count i hs'
    → ((s : ℕ) → i ≢ s → count s hs' ≡ count s hs)
    → IsCounted (set fs i f') hs'
IsCounted-set fs i f f' hs hs' v g r o = record { counted = now; there = still }
  where
    now : (s : ℕ) (q : File) → get_elem? (set fs i f') s ≡ some q → q.ref ≡ count s hs'
    now s q e = elim (get_elem?-set fs i s f' q e) [
      | inl (p, same) ↦ ground (arith, r)
      | inr (p, old) ↦ omega (arith, v.counted s q old, o s p)
    ]

    still : (s : ℕ) → 0 < count s hs' → (q : File) × (get_elem? (set fs i f') s ≡ some q)
    still s p = elim (Bool-cases (i == s)) [
      | inl e ↦ (
        f',
        subst (λ j. get_elem? (set fs i f') j ≡ some f') ((==_iff i s).0 e)
            (get_elem?-set_at fs i f' f g),
      )
      | inr ne ↦
          let (q, old) = v.there s (omega (arith, o s (ground arith))) in
          (q, get_elem?-set_ne fs f' (ground arith) ∙ old)
    ]

-- The table and the handles: a system call opens a file, passes a handle on or gives one up.
pub data Step (fs : List File) (hs : List ℕ) : List File → List ℕ → Type 0 where
  allocates : (i : ℕ) {fs' : List File} → filealloc fs ≡ some (i, fs') → Step fs hs fs' (i ∷ hs)
  dups :
      (i : ℕ) (f : File) {fs' : List File}
      → 0 < count i hs
      → get_elem? fs i ≡ some f
      → filedup fs i f ≡ some fs'
      → Step fs hs fs' (i ∷ hs)
  closes :
      (xs ys : List ℕ) (i : ℕ) (f : File) (r : Release) {fs' : List File}
      → hs ≡ xs ++ (i ∷ ys)
      → get_elem? fs i ≡ some f
      → fileclose fs i f ≡ some (fs', r)
      → Step fs hs fs' (xs ++ ys)

-- Opening, duplicating and closing files keep the reference count of every slot of the table at the
-- number of its handles.
pub Step-IsCounted :
    {fs fs' : List File} {hs hs' : List ℕ}
    → IsCounted fs hs
    → Step fs hs fs' hs'
    → IsCounted fs' hs'
unfolding filedup fileclose
Step-IsCounted {fs} {fs'} {hs} v (allocates i e) =
    let (f, g, z, s) = filealloc_lem fs fs' i e in
    subst (λ t. IsCounted t (i ∷ hs)) (sym s)
      (IsCounted-set fs i f (record f { ref = 1 }) hs (i ∷ hs) v g (ground (arith, v.counted i f g))
        (λ s ne. ground arith))
Step-IsCounted {fs} {fs'} {hs} v (dups i f held g e) =
    subst (λ t. IsCounted t (i ∷ hs)) {x = set fs i (record f { ref = f.ref + 1 })} {y = fs'}
      (ground (arith, v.counted i f g))
      (IsCounted-set fs i f (record f { ref = f.ref + 1 }) hs (i ∷ hs) v g
        (ground (arith, v.counted i f g)) (λ s ne. ground arith))
Step-IsCounted {fs} {fs'} {hs} v (closes xs ys i f r p g e) =
    elim (Bool-cases (ltb 0 (f.ref - 1))) [
      | inl more ↦
          subst (λ t. IsCounted t (xs ++ ys)) {x = set fs i (record f { ref = f.ref - 1 })}
            {y = fs'} (ground (arith, v.counted i f g))
            (IsCounted-set fs i f (record f { ref = f.ref - 1 }) hs (xs ++ ys) v g
              (ground (arith, v.counted i f g, here i)) others)
      | inr last ↦
          subst (λ t. IsCounted t (xs ++ ys)) {x = set fs i (record f { ref = 0; type = fd_none })}
            {y = fs'} (ground (arith, v.counted i f g, here i))
            (IsCounted-set fs i f (record f { ref = 0; type = fd_none }) hs (xs ++ ys) v g
              (ground (arith, v.counted i f g, here i)) others)
    ]
  where
    here : (s : ℕ) → count s hs ≡ count s (xs ++ ys) + (if i == s then 1 else 0)
    here s = omega (arith, ap (count s) p, count-append s xs (i ∷ ys), count-append s xs ys)

    others : (s : ℕ) → i ≢ s → count s (xs ++ ys) ≡ count s hs
    others s ne = ground (arith, here s)

-- A slot with a handle is in the table, and filedup and fileclose of it do not panic; fileclose
-- releases what the file stands for exactly when the handle is the last one.
pub close_releases_last :
    (fs : List File) (hs : List ℕ) (i : ℕ)
    → IsCounted fs hs
    → 0 < count i hs
    → (f : File) × (get_elem? fs i ≡ some f)
      × ((fs' : List File) × (filedup fs i f ≡ some fs'))
      × ((fs' : List File) × (fileclose fs i f
            ≡ some (fs', if count i hs == 1 then release f else nothing)))
unfolding filedup fileclose
close_releases_last fs hs i v held =
    let (f, g) = v.there i held in
    (
      f,
      g,
      (set fs i (record f { ref = f.ref + 1 }), ground (arith, v.counted i f g)),
      elim (Bool-cases (count i hs == 1)) [
        | inl last ↦
            (set fs i (record f { ref = 0; type = fd_none }), ground (arith, v.counted i f g))
        | inr more ↦ (set fs i (record f { ref = f.ref - 1 }), ground (arith, v.counted i f g))
      ],
    )
