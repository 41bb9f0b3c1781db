-- ===== src/Kvfs/Doubled.antt =====
-- A rename of hw4/kvfs.c to a name that a node has already.
use os_assignments.Base.{
  ℕ, ◌+◌, ◌<◌, ◌≡◌, refl, inl, inr, true, false, some, List, [], ◌∷◌, length, length-set, set,
  arith, pos, Bool-cases, Bytes, str_eq, str_eq_iff, if◌then◌else◌, All-set,
}
use os_assignments.Kvfs.State.{Fnode, Fs, done, name_size}
use os_assignments.Kvfs.Handlers.{kvfs_unlink, kvfs_rename, kvfs_open}
use os_assignments.Kvfs.Find.{find, remove_at, IsFirst, here, there}
use os_assignments.Kvfs.Invariant.{IsNode, IsValid, Hit, lookup-Hit, IsNode-first}
use os_assignments.Kvfs.Names.{saved, saved-IsValid, unlink-Hit, rename-Hit}

-- How many nodes have this name.
unfoldable pub named : Bytes → List Fnode → ℕ
named name [] = 0
named name (f ∷ fs) = (if str_eq f.name name then 1 else 0) + named name fs

named-find :
    (name : Bytes) (xs : List Fnode) {f : Fnode} → find name xs ≡ some f → 0 < named name xs
unfolding named find
named-find name [] e = cc
named-find name (x ∷ xs) e = elim (Bool-cases (str_eq x.name name)) [
  | inl hit ↦ rw hit (omega arith)
  | inr miss ↦ let later = named-find name xs (simp miss at e) in rw miss (omega arith)
]

find_behind :
    (name : Bytes) (x : Fnode) (xs : List Fnode) {f : Fnode}
    → str_eq x.name name ≡ false
    → find name xs ≡ some f
    → find name (x ∷ xs) ≡ some f
unfolding find
find_behind name x xs miss e = rw miss e

find-named :
    (name : Bytes) (xs : List Fnode) → 0 < named name xs → (f : Fnode) × (find name xs ≡ some f)
unfolding named find
find-named name [] h = absurd (omega arith)
find-named name (x ∷ xs) h = elim (Bool-cases (str_eq x.name name)) [
  | inl hit ↦ (x, rw hit refl)
  | inr miss ↦
      let more : 0 < named name xs = omega (arith, simp miss at h) in
      let (f, e) = find-named name xs more in (f, find_behind name x xs miss e)
]

named-set :
    {name : Bytes} {xs : List Fnode} {j : ℕ} {f : Fnode} (newname : Bytes) (g : Fnode)
    → IsFirst name xs j f
    → g.name ≡ newname
    → str_eq name newname ≡ false
    → named newname (set xs j g) ≡ named newname xs + 1
unfolding named
named-set {name} newname g (here {f} e) same other =
    let old : f.name ≡ name = (str_eq_iff f.name name).0 e in
    let new : str_eq g.name newname ≡ true = (str_eq_iff g.name newname).1 same in
    rw (new, old, other) (omega arith)
named-set newname g (there e r) same other =
    let later = named-set newname g r same other in omega arith

named-remove_at :
    {name : Bytes} {xs : List Fnode} {j : ℕ} {f : Fnode}
    → IsFirst name xs j f
    → named name (remove_at j xs) + 1 ≡ named name xs
unfolding named remove_at
named-remove_at (here e) = rw e (omega arith)
named-remove_at (there e r) = let later = named-remove_at r in omega arith

open-Hit :
    {name : Bytes} {f : Fnode} (s : Fs) → Hit name s.kvfs f → kvfs_open name s ≡ done (pos 0) s
unfolding kvfs_open
open-Hit s hit = rw (kvfs_open, hit.looked_up)

-- Renaming a file to the name of another one, in a well-formed state, succeeds and keeps both
-- nodes, and the name then stands for one of them even after it was unlinked: the call succeeds, and
-- opening the name does too.
pub rename-unlink_stays :
    {s : Fs} {f g : Fnode} (name newname : Bytes)
    → IsValid s
    → find name s.kvfs.nodes ≡ some f
    → find newname s.kvfs.nodes ≡ some g
    → str_eq name newname ≡ false
    → length newname < name_size
    → (t : Fs) × (u : Fs) × (kvfs_rename name newname s ≡ done (pos 0) t)
      × (t.kvfs.size ≡ s.kvfs.size)
      × (kvfs_unlink newname t ≡ done (pos 0) u)
      × (kvfs_open newname u ≡ done (pos 0) u)
rename-unlink_stays {s} {f} {g} name newname v present target other fits =
    let hit = lookup-Hit s.kvfs v.sized name present in
    let node = record f { name = newname } in
    let xs = set s.kvfs.nodes hit.index node in
    let old = IsNode-first hit.first v.nodes in
    let long = length-set s.kvfs.nodes hit.index node in
    let valid : IsValid (saved xs) = saved-IsValid xs (omega (arith, v.sized, v.small, long)) (
      All-set IsNode s.kvfs.nodes hit.index v.nodes
        (record { name_fits = fits; full = old.full; within = old.within })) in
    let one = named-find newname s.kvfs.nodes target in
    let two = named-set newname node hit.first refl other in
    let (h, found) = find-named newname xs (omega arith) in
    let again = lookup-Hit (saved xs).kvfs refl newname found in
    let left = remove_at again.index xs in
    let three = named-remove_at again.first in
    let (k, still) = find-named newname left (omega arith) in
    let last = lookup-Hit (saved left).kvfs refl newname still in
    (
      saved xs,
      saved left,
      rename-Hit newname hit v fits,
      omega (arith, v.sized, long),
      unlink-Hit again valid,
      open-Hit (saved left) last,
    )
