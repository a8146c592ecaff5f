-- ===== src/Directory/Linked.antt =====
-- A directory with a new entry, and the name that it has then.
use computer_system.Prelude.{
  ℕ, ◌+◌, ◌*◌, ◌/◌, ◌%◌, ◌^◌, ◌≤◌, ◌<◌, ◌≡◌, ◌≢◌, ◌⊎◌, ◌∙◌, sym, ap, ap₂, inl, inr, true, false,
  not, ◌&&◌, none, some, List, ltb, ◌==◌, Bool-cases, ==_iff, length, arith,
}
use mathlib.Core.Path.{subst}
use computer_system.Bitmap.{bsize}
use computer_system.Inode.{Fs, ok, and_then, iget}
use computer_system.FileData.Read.{file_bytes}
use computer_system.FileData.Owned.{maxfile, Owns}
use computer_system.FileData.Wrote.{file_bytes_same}
use computer_system.FileData.Close.{Written}
use computer_system.FileData.Round.{whole_done, whole-Wrote, NoHoles-Written}
use computer_system.Directory.{
  dirent_size, t_dir, dirent_inum, dirent_name, namecmp, dirlookup, new_dirent,
}
use computer_system.Directory.Lookup.{IsDirectory, entry, matches, taken, dirlookup-Looks}
use computer_system.Directory.Empty.{
  IsRoom, length-new_dirent, is_string, namecmp-new_dirent, dirent_inum-new_dirent,
}

-- No entry in use has the name.
abbrev pub HasNot : Fs → ℕ → List ℕ → Type 0
HasNot fs dp name =
    (k : ℕ)
    → 0 + k * dirent_size < ((fs.inode dp).copy).size
    → matches fs dp name (0 + k * dirent_size) ≡ false

pub lookup-HasNot :
    (fuel : ℕ) (fs : Fs) (dp : ℕ) (name : List ℕ)
    → IsDirectory fs dp
    → ((fs.inode dp).copy).type ≡ t_dir
    → ((fs.inode dp).copy).size < fuel * dirent_size
    → HasNot fs dp name
    → dirlookup fuel fs dp name ≡ some (ok (none, fs))
lookup-HasNot fuel fs dp name d dir enough h = elim (dirlookup-Looks fuel fs dp name d enough) [
  | inr (file, e) ↦ absurd (file dir)
  | inl (t, inl (all, e)) ↦ e
  | inl (t, inr (k, lt, here, before, e)) ↦ ground (arith, here, h k lt)
]

-- A directory after the entry is stored at an offset, which was of no entry in use.
pub record Linked (fs fs' : Fs) (dp : ℕ) (name : List ℕ) (inum off : ℕ) : Type 0 where
  pub directory : IsDirectory fs' dp
  pub owns : Owns fs' dp
  pub dir : ((fs'.inode dp).copy).type ≡ t_dir
  pub dev : (fs'.inode dp).dev ≡ (fs.inode dp).dev
  pub room : IsRoom fs dp off
  pub aligned : off % dirent_size ≡ 0
  pub inside : off < ((fs'.inode dp).copy).size
  pub stored : entry fs' dp off ≡ new_dirent name inum
  pub others :
      (k : ℕ)
      → k * dirent_size < ((fs'.inode dp).copy).size
      → k * dirent_size ≢ off
      → (k * dirent_size < ((fs.inode dp).copy).size)
        × (entry fs' dp (k * dirent_size) ≡ entry fs dp (k * dirent_size))

-- Another entry's bytes.
outside :
    (off len k o : ℕ)
    → off % dirent_size ≡ 0
    → k * dirent_size ≢ off
    → k * dirent_size ≤ o
    → o < k * dirent_size + 16
    → len ≡ 16
    → (o < off) ⊎ (off + len ≤ o)
outside off len k o al ne le lt n = elim (Bool-cases (ltb o off)) [
  | inl b ↦ inl (ground (arith, b))
  | inr b ↦ let ge : off ≤ o = ground (arith, b) in inr (omega arith)
]

-- What writei did is to store the entry.
pub Written-Linked :
    (fs fs' : Fs) (dp : ℕ) (name : List ℕ) (inum off : ℕ)
    → IsDirectory fs dp
    → ((fs.inode dp).copy).type ≡ t_dir
    → ((fs.inode dp).copy).size + dirent_size ≤ maxfile * bsize
    → IsRoom fs dp off
    → Written fs fs' dp off (new_dirent name inum) (λ t. none)
    → Linked fs fs' dp name inum off
Written-Linked fs fs' dp name inum off d dir fits room w =
    let done : w.done ≡ new_dirent name inum =
      (whole_done fs fs' dp off (new_dirent name inum) w).0 in
    let wrote = whole-Wrote fs fs' dp off (new_dirent name inum) w in
    let sixteen : length (new_dirent name inum) ≡ 16 = length-new_dirent name inum in
    let len : length (w.done) ≡ 16 = ap length done ∙ sixteen in
    let grown = w.size in
    let al = room.aligned in
    let le = room.inside in
    let whole_entries = d.entries in
    record {
      directory = record {
        file = (wrote.owns).file;
        entries = omega arith;
        small = omega arith;
        whole = NoHoles-Written fs fs' dp off (new_dirent name inum) d.whole le (omega arith) w;
      };
      owns = wrote.owns;
      dir = w.type ∙ dir;
      dev = w.dev;
      room = room;
      aligned = al;
      inside = omega arith;
      stored = ap (file_bytes fs' dp off) (sym sixteen) ∙ wrote.bytes;
      others = λ k lt ne.
          let old : k * dirent_size < ((fs.inode dp).copy).size = omega arith in
          (
            old,
            file_bytes_same fs fs' dp (k * dirent_size) 16 (λ o l r.
                wrote.others o (omega arith) (d.whole (o / bsize) (omega arith)).1
                  (outside off (length (new_dirent name inum)) k o al ne l r sixteen)),
          );
    }

matches-new_dirent :
    (name : List ℕ) (inum : ℕ)
    → inum ≢ 0
    → inum < 2 ^ 16
    → is_string name ≡ true
    → (not (dirent_inum (new_dirent name inum) == 0)
        && namecmp name (dirent_name (new_dirent name inum)))
      ≡ true
matches-new_dirent name inum there small string =
    let used : (inum == 0) ≡ false = ground (arith, there) in
    ap₂ (λ a b. not a && b) (ap (λ q. q == 0) (dirent_inum-new_dirent name inum small) ∙ used)
      (namecmp-new_dirent name inum string)

differ : (a b : ℕ) → (a == b) ≡ false → a ≢ b
differ a b h = ground (arith, h)

-- The name is found there, and only there.
pub Linked-lookup :
    (fs fs' : Fs) (dp : ℕ) (name : List ℕ) (inum off : ℕ)
    → HasNot fs dp name
    → inum ≢ 0
    → inum < 2 ^ 16
    → is_string name ≡ true
    → Linked fs fs' dp name inum off
    → (fuel : ℕ) → ((fs'.inode dp).copy).size < fuel * dirent_size
    → dirlookup fuel fs' dp name
      ≡ some (and_then (iget fs' ((fs'.inode dp).dev) inum) (λ r. ok (some (off, r.0), r.1)))
Linked-lookup fs fs' dp name inum off h there small string l fuel enough =
    let found : matches fs' dp name off ≡ true =
      ap (λ de. not (dirent_inum de == 0) && namecmp name (dirent_name de)) l.stored
      ∙ matches-new_dirent name inum there small string in
    elim (dirlookup-Looks fuel fs' dp name l.directory enough) [
      | inr (file, e) ↦ absurd (file l.dir)
      | inl (t, inl (all, e)) ↦
          let al = l.aligned in
          let at : 0 + off / dirent_size * dirent_size ≡ off = omega arith in
          let inside : 0 + off / dirent_size * dirent_size < ((fs'.inode dp).copy).size =
            subst (λ q. q < ((fs'.inode dp).copy).size) (sym at) l.inside in
          let other = all (off / dirent_size) inside in
          absurd (ground (arith, found, ap (matches fs' dp name) (sym at) ∙ other))
      | inl (t, inr (k, lt, here, before, e)) ↦
          let al = l.aligned in
          elim (Bool-cases (k * dirent_size == off)) [
            | inr n ↦
                let (old, same) = l.others k (omega arith) (differ (k * dirent_size) off n) in
                let z : 0 + k * dirent_size ≡ k * dirent_size = omega arith in
                let not_there : matches fs' dp name (k * dirent_size) ≡ false =
                  ap (λ de. not (dirent_inum de == 0) && namecmp name (dirent_name de)) same
                  ∙ ap (matches fs dp name) (sym z)
                  ∙ h k (omega arith) in
                absurd (ground (arith, sym here ∙ ap (matches fs' dp name) z ∙ not_there))
            | inl q ↦
                let at : 0 + k * dirent_size ≡ off = omega (arith, (==_iff _ _).0 q) in
                e
                ∙ ap (taken fs' dp) at
                ∙ ap
                    (λ n.
                      some (
                        and_then (iget fs' ((fs'.inode dp).dev) n)
                          (λ r. ok (some (off, r.0), r.1))))
                    (ap dirent_inum l.stored ∙ dirent_inum-new_dirent name inum small)
          ]
    ]
