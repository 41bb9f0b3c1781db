-- ===== src/Kvfs/Table.antt =====
-- The table of handlers of hw4/kvfs.c.
use os_assignments.Base.{ℕ, Bytes, Option, ℤ}
use os_assignments.Kvfs.State.{Stat, Cmd, pure, ◌>>=◌}
use os_assignments.Kvfs.Superblock.{kvfs_flush}
use os_assignments.Kvfs.Handlers.{
  Surroundings, kvfs_getattr, kvfs_mknod, kvfs_open, kvfs_read, kvfs_release, kvfs_rename,
  kvfs_truncate, kvfs_unlink, kvfs_utimens, kvfs_write,
}

-- A call that FUSE makes through `kvfs_oper`.
pub data Request : Type 0 where
  getattr : Bytes → Request
  truncate : Bytes → ℕ → Request
  open_file : Bytes → Request
  flush : Request
  release : Bytes → Request
  mknod : Surroundings → Bytes → ℕ → ℕ → Request
  utimens : Bytes → ℕ → ℕ → Request
  write : Bytes → Bytes → ℕ → Request
  read : Bytes → ℕ → ℕ → Request
  unlink : Bytes → Request
  rename : Bytes → Bytes → Request

-- The table `kvfs_oper`, without `init`: the code that each call returns.
unfoldable pub kvfs_oper : ℤ × Option Stat → Request → Cmd ℤ
kvfs_oper lstat_parent (getattr p) = do (c, _) ← kvfs_getattr lstat_parent p; pure c
kvfs_oper lstat_parent (truncate p n) = kvfs_truncate p n
kvfs_oper lstat_parent (open_file p) = kvfs_open p
kvfs_oper lstat_parent flush = kvfs_flush
kvfs_oper lstat_parent (release p) = kvfs_release p
kvfs_oper lstat_parent (mknod e p mode dev) = kvfs_mknod e p mode dev
kvfs_oper lstat_parent (utimens p a m) = kvfs_utimens p a m
kvfs_oper lstat_parent (write p buf off) = kvfs_write p buf off
kvfs_oper lstat_parent (read p n off) = do (c, _) ← kvfs_read p n off; pure c
kvfs_oper lstat_parent (unlink p) = kvfs_unlink p
kvfs_oper lstat_parent (rename p q) = kvfs_rename p q
