-- ===== src/Kvfs/Errors.antt =====
-- The error paths of the handlers of hw4/kvfs.c, and `kvfs_read` at and past the end of a file.
use os_assignments.Base.{
  ℕ, ◌+◌, ◌-◌, ◌<◌, ◌≤◌, ◌≡◌, false, Option, none, some, [], length, take, drop, arith, Bytes,
  codes, str_eq, ℤ, pos, min,
}
use os_assignments.Kvfs.State.{Stat, Fnode, Fs, done, fault, max_content, word}
use os_assignments.Kvfs.Handlers.{
  kvfs_open, kvfs_getattr, kvfs_write, kvfs_read, kvfs_utimens, kvfs_unlink, kvfs_rename, enoent,
  eacces,
}
use os_assignments.Kvfs.Find.{find, get_elem?-first}
use os_assignments.Kvfs.Invariant.{IsValid, lookup-Hit, lookup_missing, IsNode-first}

-- On a name that no node has, in a state whose counter is right, every handler leaves the state
-- as it is: open, unlink and rename return -EACCES, getattr of a name other than "/" returns
-- -ENOENT, utimens returns 0, and read and write return 0 with no byte read.
pub missing :
    (s : Fs) (name other buf : Bytes) (size off access modify : ℕ) (root : ℤ × Option Stat)
    → s.kvfs.size ≡ length s.kvfs.nodes
    → find name s.kvfs.nodes ≡ none
    → str_eq name (codes "/") ≡ false
    → (kvfs_open name s ≡ done eacces s)
      × (kvfs_unlink name s ≡ done eacces s)
      × (kvfs_rename name other s ≡ done eacces s)
      × (kvfs_getattr root name s ≡ done (enoent, none) s)
      × (kvfs_utimens name access modify s ≡ done (pos 0) s)
      × (kvfs_read name size off s ≡ done (pos 0, []) s)
      × (kvfs_write name buf off s ≡ done (pos 0) s)
unfolding kvfs_open kvfs_unlink kvfs_rename kvfs_getattr kvfs_utimens kvfs_read kvfs_write
missing s name other buf size off access modify root sized absent slash =
    let gone = lookup_missing s.kvfs sized name absent in
    (
      rw (kvfs_open, gone),
      rw (kvfs_unlink, gone),
      rw (kvfs_rename, gone),
      rw (slash, kvfs_getattr, gone),
      rw (kvfs_utimens, gone),
      rw (kvfs_read, gone),
      ground (arith, gone),
    )

-- A write that does not fit the content array, with no wrap of the sum, returns 0 and changes
-- nothing, whether the file is there or not.
pub write_too_long :
    (s : Fs) (name buf : Bytes) (off : ℕ)
    → max_content < off + length buf
    → off + length buf < word
    → kvfs_write name buf off s ≡ done (pos 0) s
unfolding kvfs_write
write_too_long s name buf off h w = ground arith

-- A read that starts inside the content array stays inside of it, whatever size is asked for, and
-- returns at most as many bytes as the file has: the shortest of the size asked for, the room up
-- to the end of the array, and the file's size, counted from the offset on.
pub read_inside :
    {s : Fs} {f : Fnode} (name : Bytes) (size off : ℕ)
    → IsValid s
    → find name s.kvfs.nodes ≡ some f
    → off ≤ max_content
    → off + size < word
    → let n = min f.stat.st_size (min size (max_content - off)) in
      kvfs_read name size off s ≡ done (pos n, take n (drop off f.content)) s
unfolding kvfs_read
read_inside {s} {f} name size off v present inside w =
    let hit = lookup-Hit s.kvfs v.sized name present in
    ground (arith, get_elem?-first hit.first, hit.looked_up)

-- A read that starts past the content array of a file that is not empty copies bytes from outside
-- of it.
pub read_past_array :
    {s : Fs} {f : Fnode} (name : Bytes) (size off : ℕ)
    → IsValid s
    → find name s.kvfs.nodes ≡ some f
    → max_content < off
    → off + size < word
    → 0 < f.stat.st_size
    → kvfs_read name size off s ≡ fault
unfolding kvfs_read
read_past_array {s} {f} name size off v present past w some_bytes =
    let hit = lookup-Hit s.kvfs v.sized name present in
    let n = IsNode-first hit.first v.nodes in
    ground (arith, get_elem?-first hit.first, hit.looked_up, n.within)
