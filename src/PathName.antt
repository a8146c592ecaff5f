-- ===== src/PathName.antt =====
-- kernel/fs.c: skipelem, namex, namei and nameiparent. A path is the bytes before its NUL; the inode
-- operations that namex calls are arguments, the state that they share being of any type.
pub mod Elements
mod Tests
use computer_system.Prelude.{
  ℕ, zero, suc, ◌+◌, Bool, true, false, not, ◌&&◌, ◌||◌, Option, none, some, List, [], ◌∷◌, ◌==◌,
  if◌then◌else◌, length, take,
}

-- DIRSIZ
abbrev pub dirsiz : ℕ
dirsiz = 14

abbrev pub slash : ℕ
slash = 47

-- while(*path == '/') path++;
unfoldable pub skip_slashes : List ℕ → List ℕ
skip_slashes [] = []
skip_slashes (c ∷ cs) = let rest = skip_slashes cs in if c == slash then rest else c ∷ cs

-- while(*path != '/' && *path != 0) path++; the bytes passed, and the path that is left.
unfoldable pub split_element : List ℕ → List ℕ × List ℕ
split_element [] = ([], [])
split_element (c ∷ cs) =
    let (s, rest) = split_element cs in if c == slash then ([], c ∷ cs) else (c ∷ s, rest)

-- The path that is left, and the name; none is `return 0`. A name of dirsiz bytes has no NUL behind it.
unfoldable pub element_of : List ℕ → Option (List ℕ × List ℕ)
unfolding split_element skip_slashes
element_of [] = none
element_of (c ∷ cs) =
    let (s, rest) = split_element (c ∷ cs) in some (skip_slashes rest, take dirsiz s)

unfoldable pub skipelem : List ℕ → Option (List ℕ × List ℕ)
unfolding skip_slashes element_of
skipelem path = element_of (skip_slashes path)

-- The inode operations that namex uses, on a state S: none where one panics or does not return.
pub record Inodes (S : Type 0) : Type 0 where
  pub root : S → Option (ℕ × S)
  pub cwd : S → Option (ℕ × S)
  pub ilock : S → ℕ → Option S
  pub iunlock : S → ℕ → Option S
  pub iput : S → ℕ → Option S
  pub is_dir : S → ℕ → Bool
  pub dirlookup : S → ℕ → List ℕ → Option (Option ℕ × S)

-- How namex ends: with the inode, or none for `return 0`, and what `name` holds; where an inode
-- operation panics or does not return; or out of fuel.
pub data Ending (S : Type 0) : Type 0 where
  ended : Option ℕ → List ℕ → S → Ending S
  stuck : Ending S
  out_of_fuel : Ending S

abbrev pub or_stuck : {S : Type 0} {A : Type 0} → Option A → (A → Ending S) → Ending S
or_stuck none k = stuck
or_stuck (some a) k = k a

-- iunlockput, and what namex does then.
abbrev pub put_then : {S : Type 0} → Inodes S → S → ℕ → (S → Ending S) → Ending S
put_then f s ip k = or_stuck (f.iunlock s ip) (λ s1. or_stuck (f.iput s1 ip) k)

-- What namex does with dirlookup's answer; the last argument is the rest of the loop.
abbrev pub descend :
    {S : Type 0} → Inodes S → ℕ → List ℕ → (S → ℕ → Ending S) → Option ℕ × S → Ending S
descend f ip name rest (none, s) = put_then f s ip (λ s1. ended none name s1)
descend f ip name rest (some next, s) = put_then f s ip (λ s1. rest s1 next)

-- A round of namex's loop, on what skipelem gives.
abbrev pub visit :
    {S : Type 0}
    → Inodes S
    → Bool
    → S
    → ℕ
    → List ℕ
    → (S → ℕ → List ℕ → List ℕ → Ending S)
    → Option (List ℕ × List ℕ)
    → Ending S
visit f parent s ip name loop none =
    if parent then or_stuck (f.iput s ip) (λ s1. ended none name s1) else ended (some ip) name s
visit f parent s ip name loop (some (path, elem)) = or_stuck (f.ilock s ip) (λ s1.
    if not (f.is_dir s1 ip)
    then put_then f s1 ip (λ s2. ended none elem s2)
    else if parent && (length path == 0)
    then or_stuck (f.iunlock s1 ip) (λ s2. ended (some ip) elem s2)
    else or_stuck (f.dirlookup s1 ip elem) (descend f ip elem (λ s2 next. loop s2 next path elem)))

unfoldable pub namex_from : {S : Type 0} → ℕ → Inodes S → Bool → S → ℕ → List ℕ → List ℕ → Ending S
unfolding skipelem
namex_from zero f parent s ip path name = out_of_fuel
namex_from (suc fuel) f parent s ip path name =
    visit f parent s ip name (λ s' ip' path' name'. namex_from fuel f parent s' ip' path' name')
      (skipelem path)

-- iget(ROOTDEV, ROOTINO), or idup(myproc()->cwd)
abbrev pub start : {S : Type 0} → Inodes S → S → List ℕ → Option (ℕ × S)
start f s [] = f.cwd s
start f s (c ∷ cs) = if c == slash then f.root s else f.cwd s

unfoldable pub namex : {S : Type 0} → ℕ → Inodes S → S → List ℕ → Bool → List ℕ → Ending S
unfolding namex_from
namex fuel f s path parent name =
    or_stuck (start f s path) (λ r. namex_from fuel f parent r.1 r.0 path name)

unfoldable pub namei : {S : Type 0} → ℕ → Inodes S → S → List ℕ → Ending S
unfolding namex
namei fuel f s path = namex fuel f s path false []

unfoldable pub nameiparent : {S : Type 0} → ℕ → Inodes S → S → List ℕ → List ℕ → Ending S
unfolding namex
nameiparent fuel f s path name = namex fuel f s path true name
