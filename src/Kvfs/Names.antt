-- ===== src/Kvfs/Names.antt =====
-- The handlers of hw4/kvfs.c that change which names there are: mknod, unlink, rename.
use os_assignments.Base.{
  ℕ, zero, suc, ◌+◌, ◌-◌, ◌<◌, ◌≡◌, refl, inl, inr, false, none, some, List, [], ◌∷◌, ◌++◌, length,
  length-append, length-set, set, arith, ◌∙◌, ap, leb, if◌then◌else◌, pos, sym, Bool-cases, Bytes,
  str_eq, str_eq_iff, All, All-append, All-set,
}
use os_assignments.Kvfs.State.{
  max_files, Fnode, Fs, done, node_at, set_node, copy_name, name_size, max_content,
}
use os_assignments.Kvfs.Handlers.{
  remove_node, kvfs_unlink, kvfs_rename, kvfs_mknod, new_node, Surroundings,
}
use os_assignments.Kvfs.Find.{find, remove_at, find-append, find-remove_at, get_elem?-first}
use os_assignments.Kvfs.Distinct.{
  Distinct, find-remove_at_self, Distinct-remove_at, Distinct-append, find-rename, Distinct-rename,
}
use os_assignments.Kvfs.Invariant.{IsNode, IsValid, Hit, lookup-Hit, place-lt, IsNode-first}
use os_assignments.Kvfs.RoundTrip.{image, rewrite-image}
use os_assignments.Kvfs.Shift.{shift_loop-remove_at}

-- A handler's new nodes, once they are in the superblock too.
abbrev pub saved : List Fnode → Fs
saved xs = record { kvfs = record { size = length xs; nodes = xs }; superblock = some (image xs) }

pub saved-IsValid : (xs : List Fnode) → length xs < max_files → All IsNode xs → IsValid (saved xs)
saved-IsValid xs h n = record { sized = refl; small = h; nodes = n; file = image xs; stored = refl }

length-remove_at :
    (i : ℕ) (xs : List Fnode) → i < length xs → length (remove_at i xs) + 1 ≡ length xs
unfolding remove_at
length-remove_at i [] h = absurd (omega arith)
length-remove_at zero (x ∷ xs) h = omega arith
length-remove_at (suc i) (x ∷ xs) h = omega (arith, length-remove_at i xs)

All-remove_at : (i : ℕ) (xs : List Fnode) → All IsNode xs → All IsNode (remove_at i xs)
unfolding remove_at
All-remove_at i [] h = h
All-remove_at zero (x ∷ xs) h = h.1
All-remove_at (suc i) (x ∷ xs) h = (h.0, All-remove_at i xs h.1)

remove_node_lem :
    (i : ℕ) {s : Fs}
    → IsValid s
    → i < length s.kvfs.nodes
    → remove_node i s
      ≡ done tt (record s {
        kvfs = record {
          size = length (remove_at i s.kvfs.nodes);
          nodes = remove_at i s.kvfs.nodes;
        };
      })
unfolding remove_node
remove_node_lem i {s} v h =
    let e : length s.kvfs.nodes - 1 ≡ length (remove_at i s.kvfs.nodes) =
      omega (arith, length-remove_at i s.kvfs.nodes h) in
    let kept = shift_loop-remove_at i s.kvfs.nodes h in rw (v.sized, kept, e)

pub unlink-Hit :
    {name : Bytes} {f : Fnode} {s : Fs} (hit : Hit name s.kvfs f)
    → IsValid s
    → kvfs_unlink name s ≡ done (pos 0) (saved (remove_at hit.index s.kvfs.nodes))
unfolding kvfs_unlink
unlink-Hit {s} hit v =
    let left = remove_at hit.index s.kvfs.nodes in
    rw (kvfs_unlink, hit.looked_up, remove_node_lem hit.index v (place-lt hit.first))
      (rewrite-image
        (record { kvfs = record { size = length left; nodes = left }; superblock = s.superblock })
        refl v.stored)

-- Unlinking a file that is there, in a well-formed state with distinct names, succeeds. The name
-- is gone, every other name keeps its node, one node less is counted, the superblock holds exactly
-- the nodes left, and the state is again well formed with distinct names.
pub unlink-erase :
    {s : Fs} {f : Fnode} (name : Bytes)
    → IsValid s
    → Distinct s.kvfs.nodes
    → find name s.kvfs.nodes ≡ some f
    → (s' : Fs) × (kvfs_unlink name s ≡ done (pos 0) s')
      × ((m : Bytes) → find m s'.kvfs.nodes ≡ (if str_eq name m then none else find m s.kvfs.nodes))
      × (s'.kvfs.size + 1 ≡ s.kvfs.size)
      × (s'.superblock ≡ some (image s'.kvfs.nodes))
      × IsValid s'
      × Distinct s'.kvfs.nodes
unlink-erase {s} name v d present =
    let hit = lookup-Hit s.kvfs v.sized name present in
    let left = remove_at hit.index s.kvfs.nodes in
    let short = length-remove_at hit.index s.kvfs.nodes (place-lt hit.first) in
    (
      saved left,
      unlink-Hit hit v,
      λ m. elim (Bool-cases (str_eq name m)) [
        | inl same ↦ rw (same, ← (str_eq_iff name m).0 same) (find-remove_at_self hit.first d)
        | inr other ↦ rw other (find-remove_at m hit.first other)
      ],
      omega (arith, v.sized),
      refl,
      saved-IsValid left (omega (arith, v.sized, v.small))
          (All-remove_at hit.index s.kvfs.nodes v.nodes),
      Distinct-remove_at hit.index s.kvfs.nodes d,
    )

-- Making a node of a name that no node has, in a well-formed state with distinct names and room for
-- one more, succeeds if the name fits its array. That name then has the new, empty node, every other
-- name keeps its own, one node more is counted, and the state is again well formed with distinct
-- names; the superblock is not written.
pub mknod-insert :
    {s : Fs} (e : Surroundings) (name : Bytes) (mode dev : ℕ)
    → IsValid s
    → Distinct s.kvfs.nodes
    → find name s.kvfs.nodes ≡ none
    → length name < name_size
    → length e.stack ≡ max_content
    → s.kvfs.size + 1 < max_files
    → (s' : Fs) × (kvfs_mknod e name mode dev s ≡ done (pos 0) s')
      × ((m : Bytes)
          → find m s'.kvfs.nodes
            ≡ (if str_eq name m then some (new_node e name mode dev) else find m s.kvfs.nodes))
      × (s'.kvfs.size ≡ s.kvfs.size + 1)
      × (s'.superblock ≡ s.superblock)
      × IsValid s'
      × Distinct s'.kvfs.nodes
unfolding kvfs_mknod
mknod-insert {s} e name mode dev v d absent fits full room =
    let g = new_node e name mode dev in
    let more = s.kvfs.nodes ++ (g ∷ []) in
    let n : IsNode g = record { name_fits = fits; full = full; within = omega arith } in
    (
      record s { kvfs = record { size = s.kvfs.size + 1; nodes = more } },
      ground arith,
      λ m. ground (arith, find-append m s.kvfs.nodes g, str_eq_iff name m),
      refl,
      refl,
      record {
        sized = omega (arith, v.sized, length-append s.kvfs.nodes (g ∷ []));
        small = room;
        nodes = All-append IsNode s.kvfs.nodes (g ∷ []) v.nodes (n, tt);
        file = v.file;
        stored = v.stored;
      },
      Distinct-append s.kvfs.nodes g d absent,
    )

pub rename-Hit :
    {name : Bytes} {f : Fnode} {s : Fs} (newname : Bytes) (hit : Hit name s.kvfs f)
    → IsValid s
    → length newname < name_size
    → kvfs_rename name newname s
      ≡ done (pos 0) (saved (set s.kvfs.nodes hit.index (record f { name = newname })))
unfolding kvfs_rename
rename-Hit {f} {s} newname hit v fits =
    let left = set s.kvfs.nodes hit.index (record f { name = newname }) in
    let long = length-set s.kvfs.nodes hit.index (record f { name = newname }) in
    let last =
      rewrite-image
        (record { kvfs = record { size = s.kvfs.size; nodes = left }; superblock = s.superblock })
        (v.sized ∙ sym long) v.stored in
    let n : s.kvfs.size ≡ length left = v.sized ∙ sym long in
    let fit : leb name_size (length newname) ≡ false = ground arith in
    rw (kvfs_rename, hit.looked_up, node_at, get_elem?-first hit.first, copy_name, set_node, fit)
      (last
        ∙ ap
            (λ (k : ℕ).
              done (pos 0) (record {
                kvfs = record { size = k; nodes = left };
                superblock = some (image left);
              }))
            n)

-- Renaming a file that is there to a name that no node has and that fits its array, in a well-formed
-- state with distinct names, succeeds. The node is then found under the new name with all else
-- unchanged, the old name is gone, other names keep their nodes, as many are counted, the superblock
-- holds exactly the nodes, and the state is again well formed with distinct names.
pub rename-move :
    {s : Fs} {f : Fnode} (name newname : Bytes)
    → IsValid s
    → Distinct s.kvfs.nodes
    → find name s.kvfs.nodes ≡ some f
    → find newname s.kvfs.nodes ≡ none
    → length newname < name_size
    → (s' : Fs) × (kvfs_rename name newname s ≡ done (pos 0) s')
      × ((m : Bytes)
          → find m s'.kvfs.nodes ≡ (
              if str_eq newname m
              then some (record f { name = newname })
              else if str_eq name m
              then none
              else find m s.kvfs.nodes))
      × (s'.kvfs.size ≡ s.kvfs.size)
      × (s'.superblock ≡ some (image s'.kvfs.nodes))
      × IsValid s'
      × Distinct s'.kvfs.nodes
rename-move {s} {f} name newname v d present absent fits =
    let hit = lookup-Hit s.kvfs v.sized name present in
    let g = record f { name = newname } in
    let xs = set s.kvfs.nodes hit.index g in
    let old = IsNode-first hit.first v.nodes in
    (
      saved xs,
      rename-Hit newname hit v fits,
      λ m. find-rename g m hit.first d absent,
      omega (arith, v.sized, length-set s.kvfs.nodes hit.index g),
      refl,
      saved-IsValid xs (omega (arith, v.sized, v.small, length-set s.kvfs.nodes hit.index g)) (
          All-set IsNode s.kvfs.nodes hit.index v.nodes
            (record { name_fits = fits; full = old.full; within = old.within })),
      Distinct-rename g hit.index s.kvfs.nodes d absent,
    )
