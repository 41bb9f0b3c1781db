-- ===== src/Kvfs/Model.antt =====
-- The file system of hw4/kvfs.c as its users see it: a dictionary of files, and a second one that
-- a new process finds on the disk.
use os_assignments.Base.{
  ℕ, ◌+◌, ◌-◌, ◌<◌, ◌≤◌, ◌≡◌, Bytes, codes, str_eq, ltb, if◌then◌else◌, Option, none, some, List,
  [], ◌∷◌, length, take, drop, min, ℤ, pos,
}
use os_assignments.Kvfs.State.{max_files, Stat, Fnode, name_size, max_content, word}
use os_assignments.Kvfs.Handlers.{enoent, eacces, new_node}
use os_assignments.Kvfs.Table.{
  Request, getattr, truncate, open_file, flush, release, mknod, utimens, write, read, unlink,
  rename,
}
use os_assignments.Kvfs.ReadWrite.{written}

-- What a call hands back: the code, what `stbuf` gets, and what the buffer of a read gets.
pub record Reply : Type 0 where
  pub code : ℤ
  pub stat : Option Stat
  pub bytes : Bytes

abbrev pub only : ℤ → Reply
only c = record { code = c; stat = none; bytes = [] }

-- A call through the table, or the end of the process and the start of a new one.
pub data Event : Type 0 where
  ask : Request → Event
  restart : Event

abbrev pub Dict : Type 0
Dict = Bytes → Option Fnode

-- The files with their number, and those on the disk with theirs.
pub record Model : Type 0 where
  pub files : Dict
  pub count : ℕ
  pub disk : Dict
  pub disk_count : ℕ

abbrev pub no_files : Model
no_files = record { files = λ n. none; count = 0; disk = λ n. none; disk_count = 0 }

abbrev pub update : Bytes → Option Fnode → Dict → Dict
update name f d n = if str_eq name n then f else d n

abbrev pub with_files : Dict → ℕ → Model → Model
with_files d k m = record m { files = d; count = k }

-- The files and the disk are both `d`.
abbrev pub both : Dict → ℕ → Model
both d k = record { files = d; count = k; disk = d; disk_count = k }

abbrev pub touched : Fnode → ℕ → ℕ → Fnode
touched f access modify = record f {
  stat = record f.stat { st_atime = access; st_mtime = modify; st_ctime = modify };
}

-- Each call on the file found under its name, or on none.
abbrev pub get_stat : Option Fnode → Model → Reply × Model
get_stat none m = (only enoent, m)
get_stat (some f) m = (record { code = pos 0; stat = some f.stat; bytes = [] }, m)

abbrev pub opened : Option Fnode → Model → Reply × Model
opened none m = (only eacces, m)
opened (some f) m = (only (pos 0), m)

abbrev pub timed : Bytes → ℕ → ℕ → Option Fnode → Model → Reply × Model
timed p access modify none m = (only (pos 0), m)
timed p access modify (some f) m =
    (only (pos 0), with_files (update p (some (touched f access modify)) m.files) m.count m)

abbrev pub put_bytes : Bytes → Bytes → ℕ → Option Fnode → Model → Reply × Model
put_bytes p buf off none m = (only (pos 0), m)
put_bytes p buf off (some f) m = if ltb max_content (off + length buf) then (only (pos 0), m) else (
  only (pos (length buf)),
  with_files (update p (some (written f buf off)) m.files) m.count m,
)

abbrev pub get_bytes : ℕ → ℕ → Option Fnode → Model → Reply × Model
get_bytes size off none m = (only (pos 0), m)
get_bytes size off (some f) m =
    let n = min f.stat.st_size (min size (max_content - off)) in
    (record { code = pos n; stat = none; bytes = take n (drop off f.content) }, m)

abbrev pub erased : Bytes → Option Fnode → Model → Reply × Model
erased p none m = (only eacces, m)
erased p (some f) m = (only (pos 0), both (update p none m.files) (m.count - 1))

abbrev pub moved : Bytes → Bytes → Option Fnode → Model → Reply × Model
moved p q none m = (only eacces, m)
moved p q (some f) m =
    (only (pos 0), both (update q (some (record f { name = q })) (update p none m.files)) m.count)

-- `root` is what `lstat(mountparent)` returns and stores.
unfoldable pub call : ℤ × Option Stat → Request → Model → Reply × Model
call root (getattr p) m =
    if str_eq p (codes "/")
    then (record { code = root.0; stat = root.1; bytes = [] }, m)
    else get_stat (m.files p) m
call root (truncate p n) m = (only (pos 0), m)
call root (open_file p) m = opened (m.files p) m
call root flush m = (only (pos 0), both m.files m.count)
call root (release p) m = (only (pos 0), m)
call root (mknod e p mode dev) m =
    (only (pos 0), with_files (update p (some (new_node e p mode dev)) m.files) (m.count + 1) m)
call root (utimens p access modify) m = timed p access modify (m.files p) m
call root (write p buf off) m = put_bytes p buf off (m.files p) m
call root (read p size off) m = get_bytes size off (m.files p) m
call root (unlink p) m = erased p (m.files p) m
call root (rename p q) m = moved p q (m.files p) m

unfoldable pub happen : ℤ × Option Stat → Event → Model → Reply × Model
unfolding call
happen root (ask r) m = call root r m
happen root restart m = (only (pos 0), both m.disk m.disk_count)

unfoldable pub history : ℤ × Option Stat → List Event → Model → List Reply × Model
unfolding happen
history root [] m = ([], m)
history root (e ∷ es) m =
    let (r, m') = happen root e m in let (rs, last) = history root es m' in (r ∷ rs, last)

-- What the theorem on sessions asks of a call, as `IsAllowed` for the model.
abbrev pub IsPermitted : Event → Model → Type 0
IsPermitted (ask (mknod e p mode dev)) m =
    (m.files p ≡ none)
    × (length p < name_size)
    × (length e.stack ≡ max_content)
    × (m.count + 1 < max_files)
IsPermitted (ask (write p buf off)) m = off + length buf < word
IsPermitted (ask (read p n off)) m = (off ≤ max_content) × (off + n < word)
IsPermitted (ask (rename p q)) m = (m.files q ≡ none) × (length q < name_size)
IsPermitted _ m = Unit

unfoldable pub ArePermitted : ℤ × Option Stat → List Event → Model → Type 0
unfolding happen
ArePermitted root [] m = Unit
ArePermitted root (e ∷ es) m = IsPermitted e m × ArePermitted root es (happen root e m).1
