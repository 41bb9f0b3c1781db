-- ===== src/Kvfs/Superblock.antt =====
-- hw4/kvfs.c: `read_superblock`, `write_superblock`, `clear_superblock`, `kvfs_init`.
-- The system calls on an existing file are taken to transfer all bytes that are there.
use os_assignments.Base.{
  ℕ, zero, suc, ◌+◌, ◌*◌, ◌^◌, ◌%◌, ◌-◌, Bool, ◌||◌, max, ltb, leb, if◌then◌else◌, Option, none,
  some, [], ◌∷◌, ◌++◌, get_elem?, replicate, take, drop, ℤ, pos,
}
use os_assignments.Kvfs.State.{
  Stat, Fnode, Kvfs, Superblock, Run, done, fault, max_files, max_content, exit, Cmd, pure, ◌>>◌,
  fnode_size, superblock_size,
}

abbrev pub zero_stat : Stat
zero_stat = record {
  st_size = 0;
  st_mode = 0;
  st_dev = 0;
  st_uid = 0;
  st_gid = 0;
  st_nlink = 0;
  st_rdev = 0;
  st_blksize = 0;
  st_blocks = 0;
  st_atime = 0;
  st_mtime = 0;
  st_ctime = 0;
}

-- What a hole of the file reads as.
abbrev pub zero_fnode : Fnode
zero_fnode = record { name = []; stat = zero_stat; content = replicate max_content 0; magic = 0 }

-- `read(fd, &fnode, sizeof(fnode))`, the i-th time; `none` is a short read.
unfoldable pub read_record : Superblock → ℕ → Option Fnode
read_record sb i =
    if ltb sb.file_size (4 + fnode_size * (i + 1))
    then none
    else elim (get_elem? sb.records i) [ none ↦ some zero_fnode | some f ↦ some f ]

-- The loop of `read_superblock`, with the rounds left; `none` is `exit(1)` at a short read.
unfoldable pub read_loop : ℕ → ℕ → Superblock → Kvfs → Option Kvfs
read_loop zero i sb k = some k
read_loop (suc r) i sb k = elim (read_record sb i) [
  | none ↦ none
  | some f ↦
      read_loop r (i + 1) sb (record { size = (k.size + 1) % 2 ^ 32; nodes = k.nodes ++ (f ∷ []) })
]

-- `num_files` is an `int`: a negative one, or an empty file, makes no round.
unfoldable pub rounds : Superblock → ℕ
rounds sb = if ltb sb.file_size 4 then 0 else if leb (2 ^ 31) sb.num_files then 0 else sb.num_files

-- `sprintf(a, "p%d\n", num_files)` into ten bytes, with the NUL: seven digits fit, or a sign and six.
unfoldable pub log_fits : Superblock → Bool
log_fits sb =
    let num_files = if ltb sb.file_size 4 then 0 else sb.num_files in
    ltb num_files max_files || ltb (2 ^ 32 - 10 ^ 6) num_files

-- The file read from its start, behind the log of the count.
unfoldable pub read_nodes : Superblock → Cmd ℤ
read_nodes sb s = elim (read_loop (rounds sb) 0 sb (record { size = 0; nodes = [] })) [
  | none ↦ exit 1
  | some k ↦ done (pos 0) (record s { kvfs = k })
]

unfoldable pub read_superblock : Cmd ℤ
unfolding log_fits read_nodes
read_superblock s = elim s.superblock [
  | none ↦ exit 1
  | some sb ↦ if log_fits sb then read_nodes sb s else fault
]

-- The two `write`s, over whatever the file holds.
unfoldable pub overwrite : Kvfs → Superblock → Superblock
overwrite k sb = record {
  file_size = max sb.file_size (4 + fnode_size * k.size);
  num_files = k.size;
  records = take k.size k.nodes ++ drop k.size sb.records;
}

unfoldable pub write_superblock : Cmd ℤ
unfolding overwrite
write_superblock s = elim s.superblock [
  | none ↦ exit 1
  | some sb ↦ done (pos 0) (record s { superblock = some (overwrite s.kvfs sb) })
]

abbrev pub empty_file : Superblock
empty_file = record { file_size = 0; num_files = 0; records = [] }

-- `open` with O_TRUNC, which does not create the file.
unfoldable pub clear_superblock : Cmd (Unit {0})
clear_superblock s = elim s.superblock [
  | none ↦ done tt s
  | some _ ↦ done tt (record s { superblock = some empty_file })
]

unfoldable pub kvfs_flush : Cmd ℤ
unfolding clear_superblock write_superblock
kvfs_flush = do clear_superblock; write_superblock; pure (pos 0)

-- A write of `n` bytes at `offset`, as it changes the size of the file.
abbrev grown_by : ℕ → ℕ → Superblock → Superblock
grown_by offset n sb = record sb { file_size = max sb.file_size (offset + n) }

-- The new superblock: `write` of a zero count, and of one byte behind `lseek` to the far end.
abbrev pub fresh_superblock : Superblock
fresh_superblock =
    grown_by (superblock_size - 1) 1 (record (grown_by 0 4 empty_file) { num_files = 0 })

-- A new process: `kvfs` is empty, then read from the file or the file is made.
unfoldable pub kvfs_init : Option Superblock → Run (Unit {0})
unfolding read_superblock
kvfs_init none =
    done tt (record { kvfs = record { size = 0; nodes = [] }; superblock = some fresh_superblock })
kvfs_init (some sb) =
    (read_superblock >> pure tt)
      (record { kvfs = record { size = 0; nodes = [] }; superblock = some sb })
