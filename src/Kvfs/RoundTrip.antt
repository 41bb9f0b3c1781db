-- ===== src/Kvfs/RoundTrip.antt =====
-- The superblock of hw4/kvfs.c: what is flushed is what a new process reads.
use os_assignments.Base.{
  true, ℕ, suc, ◌+◌, ◌*◌, ◌^◌, ◌%◌, ◌<◌, ◌≡◌, refl, some, List, [], ◌∷◌, ◌++◌, length,
  length-append, get_elem?, take, drop, arith, take_all, ◌∙◌, ap, append_assoc, append-nil, max,
  pos, le→ltb, sym, drop_all,
}
use os_assignments.Kvfs.State.{max_files, Fnode, Kvfs, Fs, Superblock, done, fnode_size, ◌>>◌, pure}
use os_assignments.Kvfs.Superblock.{
  empty_file, read_record, read_loop, rounds, log_fits, read_nodes, read_superblock, overwrite,
  write_superblock, clear_superblock, kvfs_flush, kvfs_init,
}
use os_assignments.Kvfs.Invariant.{IsValid}

get_elem?-middle {ℓ} :
    {A : Type ℓ} (xs ys : List A) (y : A) → get_elem? (xs ++ (y ∷ ys)) (length xs) ≡ some y
get_elem?-middle [] ys y = refl
get_elem?-middle (x ∷ xs) ys y = get_elem?-middle xs ys y

-- A file that holds exactly these fnodes.
abbrev pub image : List Fnode → Superblock
image xs = record { file_size = 4 + fnode_size * length xs; num_files = length xs; records = xs }

-- The fnode that the loop reads with `xs` behind it and `y ∷ ys` before it.
read_record-image :
    (xs ys zs : List Fnode) (y : Fnode) (i : ℕ)
    → i ≡ length xs
    → xs ++ (y ∷ ys) ≡ zs
    → read_record (image zs) i ≡ some y
unfolding read_record
read_record-image xs ys zs y i e split =
    let at_y : get_elem? zs i ≡ some y = rw (← split, e) (get_elem?-middle xs ys y) in
    let long : length zs ≡ length xs + suc (length ys) = rw (← split) (length-append xs (y ∷ ys)) in
    rw (at_y, le→ltb (4 + fnode_size * length zs) (4 + fnode_size * (i + 1)) (omega arith))

read_loop-image :
    (ys xs zs : List Fnode) (i : ℕ)
    → i ≡ length xs
    → xs ++ ys ≡ zs
    → length zs < 2 ^ 32
    → read_loop (length ys) i (image zs) (record { size = i; nodes = xs })
      ≡ some (record { size = length zs; nodes = zs })
unfolding read_loop
read_loop-image [] xs zs i e split h =
    let same : xs ≡ zs = sym (append-nil xs) ∙ split in rw (← same, e)
read_loop-image (y ∷ ys) xs zs i e split h =
    let long : length zs ≡ length xs + suc (length ys) = rw (← split) (length-append xs (y ∷ ys)) in
    let next : i + 1 ≡ length (xs ++ (y ∷ [])) = omega (arith, length-append xs (y ∷ [])) in
    let kept : (i + 1) % 2 ^ 32 ≡ i + 1 = omega arith in
    rw (read_record-image xs ys zs y i e split, read_loop, kept)
      (read_loop-image ys (xs ++ (y ∷ [])) zs (i + 1) next (append_assoc xs (y ∷ []) ys ∙ split) h)

overwrite-image : (k : Kvfs) → k.size ≡ length k.nodes → overwrite k empty_file ≡ image k.nodes
unfolding overwrite
overwrite-image k sized =
    let kept : take k.size k.nodes ≡ k.nodes = take_all k.size k.nodes (omega arith) in
    let gone : ◌≡◌ {A = List Fnode} (drop k.size []) [] = drop_all k.size [] (omega arith) in
    let low : max 0 (4 + fnode_size * length k.nodes) ≡ 4 + fnode_size * length k.nodes =
      omega arith in
    rw (gone, append-nil, kept, sized, low) refl

-- `clear_superblock` and `write_superblock` in a row leave exactly the nodes in the file.
pub rewrite-image :
    (s : Fs) {file : Superblock}
    → s.kvfs.size ≡ length s.kvfs.nodes
    → s.superblock ≡ some file
    → (do clear_superblock; write_superblock; pure (pos 0)) s
      ≡ done (pos 0) (record s { superblock = some (image s.kvfs.nodes) })
unfolding clear_superblock write_superblock
rewrite-image s sized stored =
    rw (stored, clear_superblock, write_superblock)
      (ap (λ (sb : Superblock). done (pos 0) (record s { superblock = some sb }))
        (overwrite-image s.kvfs sized))

pub rounds-image : (xs : List Fnode) → length xs < max_files → rounds (image xs) ≡ length xs
unfolding rounds
rounds-image xs h = ground arith

log_fits-image : (xs : List Fnode) → length xs < max_files → log_fits (image xs) ≡ true
unfolding log_fits
log_fits-image xs h = ground arith

pub kvfs_init-image :
    (xs : List Fnode)
    → length xs < max_files
    → kvfs_init (some (image xs))
      ≡ done tt
          (record { kvfs = record { size = length xs; nodes = xs }; superblock = some (image xs) })
unfolding kvfs_init read_superblock
kvfs_init-image xs h =
    let loaded = read_loop-image xs [] xs 0 refl refl (omega arith) in
    rw (kvfs_init, read_superblock, log_fits-image xs h, read_nodes, rounds-image xs h, loaded)

-- Flushing a well-formed state succeeds, whatever the superblock held before, and a process that
-- starts on that superblock has the same files in memory, in the same order.
pub flush-init :
    {s : Fs}
    → IsValid s
    → (s' : Fs) × (kvfs_flush s ≡ done (pos 0) s')
      × (kvfs_init s'.superblock ≡ done tt s')
      × (s'.kvfs ≡ s.kvfs)
unfolding kvfs_flush
flush-init {s} v = (
  record s { superblock = some (image s.kvfs.nodes) },
  rw (v.stored, clear_superblock, write_superblock, overwrite-image s.kvfs v.sized),
  rw (kvfs_init-image s.kvfs.nodes (omega (arith, v.sized))) (ground arith),
  refl,
)
