-- ===== src/Kvfs/Invariant.antt =====
-- The well-formed states of hw4/kvfs.c.
use os_assignments.Base.{
  ℕ, ◌<◌, ◌≤◌, ◌≡◌, none, some, List, length, take, arith, Bytes, All, take_all, ◌∙◌, ap,
}
use os_assignments.Kvfs.State.{
  max_files, Fnode, Kvfs, Fs, Superblock, lookup, max_content, name_size, done, node_at,
}
use os_assignments.Kvfs.Find.{
  find, IsFirst, here, there, find-Found, lookup_from-none, get_elem?-first,
}

pub record IsNode (f : Fnode) : Type 0 where
  pub name_fits : length f.name < name_size
  pub full : length f.content ≡ max_content
  pub within : f.stat.st_size ≤ max_content

-- The counter is the length of the array and can be logged, every node is well formed, and the
-- superblock file is there.
pub record IsValid (s : Fs) : Type 0 where
  pub sized : s.kvfs.size ≡ length s.kvfs.nodes
  pub small : s.kvfs.size < max_files
  pub nodes : All IsNode s.kvfs.nodes
  pub file : Superblock
  pub stored : s.superblock ≡ some file

-- What `lookup` gives, with the node at that index.
pub record Hit (name : Bytes) (k : Kvfs) (f : Fnode) : Type 0 where
  pub index : ℕ
  pub looked_up : lookup name k ≡ some index
  pub first : IsFirst name k.nodes index f

module _ (k : Kvfs) (sized : k.size ≡ length k.nodes) where
  entries : take k.size k.nodes ≡ k.nodes
  entries = take_all k.size k.nodes (omega arith)

  pub lookup-Hit : (name : Bytes) {f : Fnode} → find name k.nodes ≡ some f → Hit name k f
  unfolding lookup
  lookup-Hit name h =
      let r = find-Found 0 name k.nodes h in
      record {
        index = r.place;
        looked_up = rw (entries, lookup) (r.looked_up ∙ ap some (omega arith));
        first = r.first;
      }

  pub lookup_missing : (name : Bytes) → find name k.nodes ≡ none → lookup name k ≡ none
  unfolding lookup
  lookup_missing name h = rw (entries, lookup) (lookup_from-none 0 name k.nodes h)

pub IsNode-first :
    {name : Bytes} {xs : List Fnode} {j : ℕ} {f : Fnode}
    → IsFirst name xs j f
    → All IsNode xs
    → IsNode f
IsNode-first (here e) h = h.0
IsNode-first (there e r) h = IsNode-first r h.1

pub place-lt :
    {name : Bytes} {xs : List Fnode} {j : ℕ} {f : Fnode} → IsFirst name xs j f → j < length xs
place-lt (here e) = omega arith
place-lt (there e r) = omega (arith, place-lt r)

pub node_at-first :
    {name : Bytes} {j : ℕ} {f : Fnode} (s : Fs)
    → IsFirst name s.kvfs.nodes j f
    → node_at j s ≡ done f s
unfolding node_at
node_at-first s r = rw (get_elem?-first r, node_at)
