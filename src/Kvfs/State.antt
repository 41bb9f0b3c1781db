-- ===== src/Kvfs/State.antt =====
-- The state of hw4/kvfs.c: the file nodes in memory, the superblock file, and commands on both.
-- An fnode's `data` array is split where the code splits it: a `struct stat` in its first
-- METADATASIZE bytes, and `content` in the rest.
use os_assignments.Base.{
  ℕ, ◌+◌, ◌*◌, ◌-◌, ◌^◌, Bytes, str_eq, if◌then◌else◌, Option, none, some, List, [], ◌∷◌, length,
  get_elem?, set, take, leb,
}
use os_assignments.Base.Machine.{Outcome}
pub use os_assignments.Base.Machine.{done, fault, exit, pure, ◌>>=◌, ◌>>◌}

abbrev pub name_size : ℕ
name_size = 1024

abbrev pub data_size : ℕ
data_size = 1024

abbrev pub metadata_size : ℕ
metadata_size = 144

-- `DATA_SIZE - METADATASIZE`, the room for a file's bytes
abbrev pub max_content : ℕ
max_content = data_size - metadata_size

-- `sizeof(fnode_t)`
abbrev pub fnode_size : ℕ
fnode_size = name_size + data_size + 4

-- `10*4096*2048 + 1`
abbrev pub superblock_size : ℕ
superblock_size = 10 * 4096 * 2048 + 1

-- The first number that the buffer of `read_superblock` has no room for.
abbrev pub max_files : ℕ
max_files = 10 ^ 7

-- The fields of `struct stat` that the code assigns.
pub record Stat : Type 0 where
  pub st_size : ℕ
  pub st_mode : ℕ
  pub st_dev : ℕ
  pub st_uid : ℕ
  pub st_gid : ℕ
  pub st_nlink : ℕ
  pub st_rdev : ℕ
  pub st_blksize : ℕ
  pub st_blocks : ℕ
  pub st_atime : ℕ
  pub st_mtime : ℕ
  pub st_ctime : ℕ

pub record Fnode : Type 0 where
  pub name : Bytes
  pub stat : Stat
  pub content : Bytes
  pub magic : ℕ

-- `kvfs_t`: `nodes` is the array behind the header, as long as the last `realloc` made it.
pub record Kvfs : Type 0 where
  pub size : ℕ
  pub nodes : List Fnode

-- The file `.superblock`: its length in bytes, the `int` at its start, and the fnodes written
-- behind that. The bytes past those are a hole and read as zeros.
pub record Superblock : Type 0 where
  pub file_size : ℕ
  pub num_files : ℕ
  pub records : List Fnode

-- Memory, and the superblock file if it exists.
pub record Fs : Type 0 where
  pub kvfs : Kvfs
  pub superblock : Option Superblock

abbrev pub Run : Type 0 → Type 0
Run = Outcome Fs

abbrev pub Cmd : Type 0 → Type 0
Cmd A = Fs → Run A

-- The loop of `lookup` from index `i` on.
unfoldable pub lookup_from : ℕ → Bytes → List Fnode → Option ℕ
lookup_from i filename [] = none
lookup_from i filename (f ∷ fs) =
    if str_eq f.name filename then some i else lookup_from (i + 1) filename fs

-- `lookup`: the index of the first node of that name; `none` is the code's -1.
unfoldable pub lookup : Bytes → Kvfs → Option ℕ
unfolding lookup_from
lookup filename k = lookup_from 0 filename (take k.size k.nodes)

-- A read of `kvfs->data[index]`.
unfoldable pub node_at : ℕ → Cmd Fnode
node_at i s = elim (get_elem? s.kvfs.nodes i) [ none ↦ fault | some f ↦ done f s ]

-- A write to `kvfs->data[index]`.
unfoldable pub set_node : ℕ → Fnode → Cmd (Unit {0})
set_node i f s = done tt (record s { kvfs = record s.kvfs { nodes = set s.kvfs.nodes i f } })

-- `strcpy` into the `name` array, which has room for `name_size - 1` bytes and the NUL.
unfoldable pub copy_name : Bytes → Cmd Bytes
copy_name name s = if leb name_size (length name) then fault else done name s

-- `size_t` and `off_t` arithmetic.
abbrev pub word : ℕ
word = 2 ^ 64
