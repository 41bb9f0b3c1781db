-- ===== src/Kvfs/Handlers.antt =====
-- hw4/kvfs.c: the FUSE handlers, and the table `kvfs_oper` that FUSE calls them through.
use os_assignments.Base.{
  ℕ, zero, suc, ◌+◌, ◌-◌, ◌%◌, ◌^◌, Bytes, codes, str_eq, ltb, leb, ◌==◌, if◌then◌else◌, Option,
  none, some, List, [], ◌∷◌, ◌++◌, length, get_elem?, set, take, drop, ℤ, pos, negsuc,
}
use os_assignments.Kvfs.State.{
  Stat, Fnode, done, fault, Cmd, pure, ◌>>=◌, ◌>>◌, lookup, node_at, set_node, copy_name, word,
  max_content,
}
use os_assignments.Kvfs.Superblock.{clear_superblock, write_superblock}

-- `-ENOENT`
abbrev pub enoent : ℤ
enoent = negsuc 1

-- `-EACCES`
abbrev pub eacces : ℤ
eacces = negsuc 12

unfoldable pub kvfs_open : Bytes → Cmd ℤ
kvfs_open pathname s = elim (lookup pathname s.kvfs) [
  | none ↦ done eacces s
  | some _ ↦ done (pos 0) s
]

unfoldable pub kvfs_release : Bytes → Cmd ℤ
kvfs_release pathname = pure (pos 0)

unfoldable pub kvfs_access : Bytes → ℕ → Cmd ℤ
kvfs_access pathname mode = pure (pos 0)

unfoldable pub kvfs_truncate : Bytes → ℕ → Cmd ℤ
kvfs_truncate path size = pure (pos 0)

-- The result, and what is stored through `stbuf`. `lstat_parent` is what `lstat(mountparent)`
-- returns and stores.
unfoldable pub kvfs_getattr : ℤ × Option Stat → Bytes → Cmd (ℤ × Option Stat)
kvfs_getattr lstat_parent path s =
    if str_eq path (codes "/") then done lstat_parent s else elim (lookup path s.kvfs) [
      | none ↦ done (enoent, none) s
      | some i ↦ (do f ← node_at i; pure (pos 0, some f.stat)) s
    ]

-- `memcpy(content + off, data, size)`: `none` where it leaves the array.
unfoldable pub patch : Bytes → Bytes → ℕ → Option Bytes
patch content buf off =
    if leb (off + length buf) max_content
    then some (take off content ++ (buf ++ drop (off + length buf) content))
    else none

-- The write to the node found, behind the guard.
unfoldable pub write_node : ℕ → Bytes → ℕ → Cmd ℤ
unfolding patch node_at set_node
write_node i buf off = do
  f ← node_at i
  (λ s. elim (patch f.content buf off) [
    | none ↦ fault
    | some c ↦
        (do
          set_node i (record f { stat = record f.stat { st_size = off + length buf }; content = c })
          pure (pos (length buf)))
          s
  ])

-- `off + size` is computed in 64 bits.
unfoldable pub kvfs_write : Bytes → Bytes → ℕ → Cmd ℤ
unfolding write_node
kvfs_write filename buf off s =
    if ltb max_content ((off + length buf) % word)
    then done (pos 0) s
    else elim (lookup filename s.kvfs) [ none ↦ done (pos 0) s | some i ↦ write_node i buf off s ]

-- `memcpy(buf, content + off, n)`: `none` where it leaves the array.
unfoldable pub slice : Bytes → ℕ → ℕ → Option Bytes
slice content off n =
    if leb (off + n) max_content
    then some (take n (drop off content))
    else if n == 0
    then some []
    else none

-- `copy_size` of `kvfs_read`, in 64-bit unsigned arithmetic.
unfoldable pub copy_size : ℕ → ℕ → ℕ → ℕ
copy_size st_size size off =
    let wanted =
      if ltb max_content ((off + size) % word) then (max_content + word - off) % word else size in
    if ltb st_size wanted then st_size else wanted

-- The result, and the bytes stored in the caller's buffer.
unfoldable pub kvfs_read : Bytes → ℕ → ℕ → Cmd (ℤ × Bytes)
unfolding slice copy_size node_at
kvfs_read pathname size off s = elim (lookup pathname s.kvfs) [
  | none ↦ done (pos 0, []) s
  | some i ↦
      (do
        f ← node_at i
        (λ t. elim (slice f.content off (copy_size f.stat.st_size size off)) [
          | none ↦ fault
          | some out ↦ done (pos (copy_size f.stat.st_size size off), out) t
        ]))
        s
]

-- What `kvfs_mknod` takes from outside: the caller, the clock at each call, and the bytes that
-- its local `fnode` happens to hold behind the metadata.
pub record Surroundings : Type 0 where
  pub uid : ℕ
  pub gid : ℕ
  pub atime : ℕ
  pub mtime : ℕ
  pub ctime : ℕ
  pub stack : Bytes

abbrev pub new_stat : Surroundings → ℕ → ℕ → Stat
new_stat e mode dev = record {
  st_size = 0;
  st_mode = mode;
  st_dev = dev;
  st_uid = e.uid;
  st_gid = e.gid;
  st_nlink = 1;
  st_rdev = 0;
  st_blksize = 1024;
  st_blocks = 4;
  st_atime = e.atime;
  st_mtime = e.mtime;
  st_ctime = e.ctime;
}

abbrev pub new_node : Surroundings → Bytes → ℕ → ℕ → Fnode
new_node e name mode dev = record {
  name = name;
  stat = new_stat e mode dev;
  content = e.stack;
  magic = 1;
}

-- `realloc` and the copy to the last place.
unfoldable pub append_node : Fnode → Cmd ℤ
append_node f s = done (pos 0) (record s {
  kvfs = record { size = (s.kvfs.size + 1) % 2 ^ 32; nodes = s.kvfs.nodes ++ (f ∷ []) };
})

unfoldable pub kvfs_mknod : Surroundings → Bytes → ℕ → ℕ → Cmd ℤ
unfolding copy_name append_node
kvfs_mknod e pathname mode dev = do
  name ← copy_name pathname
  append_node (new_node e name mode dev)

-- `tv[0].tv_sec` and `tv[1].tv_sec`
unfoldable pub kvfs_utimens : Bytes → ℕ → ℕ → Cmd ℤ
unfolding node_at set_node
kvfs_utimens pathname access modify s = elim (lookup pathname s.kvfs) [
  | none ↦ done (pos 0) s
  | some i ↦
      (do
        f ← node_at i
        set_node i (record f {
          stat = record f.stat { st_atime = access; st_mtime = modify; st_ctime = modify };
        })
        pure (pos 0))
        s
]

-- `for (i = index + 1; i < size; i++) data[i-1] = data[i]`, with the rounds left; `i` is the
-- place written.
unfoldable pub shift_loop : ℕ → ℕ → List Fnode → List Fnode
shift_loop zero i xs = xs
shift_loop (suc r) i xs = elim (get_elem? xs (suc i)) [
  | none ↦ xs
  | some f ↦ shift_loop r (suc i) (set xs i f)
]

-- The loop, the new size, and the `realloc` that drops the last place.
unfoldable pub remove_node : ℕ → Cmd (Unit {0})
unfolding shift_loop
remove_node i s = done tt (record s {
  kvfs = record {
    size = s.kvfs.size - 1;
    nodes = take (s.kvfs.size - 1) (shift_loop (s.kvfs.size - (i + 1)) i s.kvfs.nodes);
  };
})

unfoldable pub kvfs_unlink : Bytes → Cmd ℤ
kvfs_unlink pathname s = elim (lookup pathname s.kvfs) [
  | none ↦ done eacces s
  | some i ↦ (do remove_node i; clear_superblock; write_superblock; pure (pos 0)) s
]

-- `newname` replaces the whole `name` array.
unfoldable pub kvfs_rename : Bytes → Bytes → Cmd ℤ
unfolding node_at set_node copy_name
kvfs_rename name newname s = elim (lookup name s.kvfs) [
  | none ↦ done eacces s
  | some i ↦
      (do
        f ← node_at i
        copied ← copy_name newname
        set_node i (record f { name = copied })
        clear_superblock
        write_superblock
        pure (pos 0))
        s
]
