-- ===== src/Kvfs/ReadWrite.antt =====
-- `kvfs_write` and `kvfs_read` of hw4/kvfs.c on a file that is there.
use os_assignments.Base.{
  ℕ, ◌+◌, ◌≤◌, ◌≡◌, refl, some, ◌++◌, length, set, take, drop, arith, Bytes, str_eq, str_eq_refl,
  ◌∙◌, sym, if◌then◌else◌, pos, length-append, length-take, length-drop, take-append, drop-append,
  min, length-set, All-set,
}
use os_assignments.Kvfs.State.{Fnode, Fs, max_content, done, node_at, set_node}
use os_assignments.Kvfs.Handlers.{kvfs_write, kvfs_read, write_node, patch}
use os_assignments.Kvfs.Find.{find, get_elem?-first, find-set, name_of_first}
use os_assignments.Kvfs.Invariant.{IsNode, IsValid, Hit, lookup-Hit, IsNode-first}

-- The node after a write.
abbrev pub written : Fnode → Bytes → ℕ → Fnode
written f buf off = record f {
  stat = record f.stat { st_size = off + length buf };
  content = take off f.content ++ (buf ++ drop (off + length buf) f.content);
}

abbrev pub with_node : Fs → ℕ → Fnode → Fs
with_node s i f = record s { kvfs = record s.kvfs { nodes = set s.kvfs.nodes i f } }

pub take-patch :
    (c buf : Bytes) (off : ℕ)
    → off + length buf ≤ length c
    → take (length buf) (drop off (take off c ++ (buf ++ drop (off + length buf) c))) ≡ buf
take-patch c buf off h =
    rw
      (drop-append off (take off c) (buf ++ drop (off + length buf) c)
        (omega (arith, length-take off c)))
      (take-append (length buf) buf _ refl)

pub length-patch :
    (c buf : Bytes) (off : ℕ)
    → off + length buf ≤ length c
    → length (take off c ++ (buf ++ drop (off + length buf) c)) ≡ length c
length-patch c buf off h = omega (
  arith,
  length-append (take off c) (buf ++ drop (off + length buf) c),
  length-append buf (drop (off + length buf) c),
  length-take off c,
  length-drop (off + length buf) c,
)

pub written-IsNode :
    {f : Fnode} (buf : Bytes) (off : ℕ)
    → IsNode f
    → off + length buf ≤ max_content
    → IsNode (written f buf off)
written-IsNode {f} buf off n fits = record {
  name_fits = n.name_fits;
  full = length-patch f.content buf off (omega arith) ∙ n.full;
  within = fits;
}

-- The guard passes exactly for what fits, if the sum does not wrap.
pub kvfs_write-present :
    {name : Bytes} {f : Fnode} (buf : Bytes) (off : ℕ) (s : Fs) (hit : Hit name s.kvfs f)
    → off + length buf ≤ max_content
    → kvfs_write name buf off s
      ≡ done (pos (length buf)) (with_node s hit.index (written f buf off))
unfolding kvfs_write patch set_node node_at write_node
kvfs_write-present {f} buf off s hit fits = ground (arith, get_elem?-first hit.first)

pub kvfs_read-present :
    {name : Bytes} {f : Fnode} (size off : ℕ) (s : Fs) (hit : Hit name s.kvfs f)
    → off + size ≤ max_content
    → kvfs_read name size off s
      ≡ done (pos (min f.stat.st_size size), take (min f.stat.st_size size) (drop off f.content)) s
unfolding kvfs_read
kvfs_read-present {f} size off s hit fits = ground (arith, get_elem?-first hit.first)

-- Replacing the node found keeps the state well formed.
pub with_node-IsValid :
    {name : Bytes} {f : Fnode} (g : Fnode) {s : Fs} (hit : Hit name s.kvfs f)
    → IsValid s
    → IsNode g
    → IsValid (with_node s hit.index g)
with_node-IsValid g {s} hit v n = record {
  sized = v.sized ∙ sym (length-set s.kvfs.nodes hit.index g);
  small = v.small;
  nodes = All-set IsNode s.kvfs.nodes hit.index v.nodes n;
  file = v.file;
  stored = v.stored;
}

-- In a well-formed state, a write of bytes that fit a file which is there returns their number;
-- a read of as many bytes at the same offset then returns exactly those bytes. The state stays
-- well formed, and the dictionary of nodes changes at that name only: there the new bytes are
-- patched into the content, and the size becomes the end of what was written.
pub write-read :
    {s : Fs} {f : Fnode} (name buf : Bytes) (off : ℕ)
    → IsValid s
    → find name s.kvfs.nodes ≡ some f
    → off + length buf ≤ max_content
    → (s' : Fs) × (kvfs_write name buf off s ≡ done (pos (length buf)) s')
      × (kvfs_read name (length buf) off s' ≡ done (pos (length buf), buf) s')
      × IsValid s'
      × ((m : Bytes)
          → find m s'.kvfs.nodes
            ≡ (if str_eq name m then some (written f buf off) else find m s.kvfs.nodes))
write-read {s} {f} name buf off v there fits =
    let hit = lookup-Hit s.kvfs v.sized name there in
    let g = written f buf off in
    let n : IsNode f = IsNode-first hit.first v.nodes in
    let v' = with_node-IsValid g hit v (written-IsNode buf off n fits) in
    let view = λ (m : Bytes). find-set g m hit.first (name_of_first hit.first) in
    let hit' =
      lookup-Hit (with_node s hit.index g).kvfs v'.sized name {f = g}
        (view name ∙ rw (str_eq_refl name)) in
    let all : min (off + length buf) (length buf) ≡ length buf = omega arith in
    (
      with_node s hit.index g,
      kvfs_write-present buf off s hit fits,
      kvfs_read-present (length buf) off (with_node s hit.index g) hit' fits
          ∙ rw (all, take-patch f.content buf off (omega (arith, n.full))),
      v',
      view,
    )
