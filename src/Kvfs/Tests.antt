-- ===== src/Kvfs/Tests.antt =====
-- Runs of the model of hw4/kvfs.c, and its theorems at concrete states.
use os_assignments.Base.{
  ℕ, ◌+◌, ◌≡◌, refl, none, some, List, [], ◌∷◌, replicate, arith, Bytes, codes, str_eq, pos,
  if◌then◌else◌,
}
use os_assignments.Kvfs.State.{Fnode, Fs, done, fault, max_content, lookup}
use os_assignments.Kvfs.Superblock.{zero_stat, fresh_superblock, kvfs_flush, kvfs_init}
use os_assignments.Kvfs.Handlers.{
  kvfs_write, kvfs_read, kvfs_unlink, kvfs_rename, kvfs_mknod, kvfs_open, Surroundings, new_node,
}
use os_assignments.Kvfs.Table.{mknod, write, read}
use os_assignments.Kvfs.Find.{find}
use os_assignments.Kvfs.Distinct.{Distinct}
use os_assignments.Kvfs.Invariant.{IsValid}
use os_assignments.Kvfs.ReadWrite.{written, write-read}
use os_assignments.Kvfs.RoundTrip.{image, flush-init}
use os_assignments.Kvfs.Names.{unlink-erase, mknod-insert, rename-move}
use os_assignments.Kvfs.Doubled.{rename-unlink_stays}
use os_assignments.Kvfs.Errors.{read_past_array}
use os_assignments.Kvfs.Good.{IsGood}
use os_assignments.Kvfs.Model.{
  ask, restart, Event, only, Reply, no_files, history, happen, ArePermitted,
}
use os_assignments.Kvfs.Model
use os_assignments.Kvfs.Sessions.{session}
use os_assignments.Kvfs.Represents.{Represents}
use os_assignments.Kvfs.Refines.{session-history}
use os_assignments.Kvfs.Fresh.{new_state, new_state-Represents}

abbrev node : Bytes → ℕ → Fnode
node name b = record {
  name = name;
  stat = record zero_stat { st_size = 2 };
  content = replicate max_content b;
  magic = 1;
}

abbrev file_a : Fnode
file_a = node (codes "/a") 7

abbrev file_b : Fnode
file_b = node (codes "/b") 9

abbrev demo : Fs
demo = record {
  kvfs = record { size = 2; nodes = file_a ∷ file_b ∷ [] };
  superblock = some fresh_superblock;
}

demo-IsValid : IsValid demo
demo-IsValid = record {
  sized = refl;
  small = omega arith;
  nodes = (
    record { name_fits = omega arith; full = refl; within = omega arith },
    (record { name_fits = omega arith; full = refl; within = omega arith }, tt),
  );
  file = fresh_superblock;
  stored = refl;
}

demo-Distinct : Distinct demo.kvfs.nodes
unfolding find str_eq
demo-Distinct = (refl, (refl, tt))

find_b : find (codes "/b") demo.kvfs.nodes ≡ some file_b
unfolding find str_eq
find_b = refl

find_a : find (codes "/a") demo.kvfs.nodes ≡ some file_a
unfolding find str_eq
find_a = refl

find_c : find (codes "/c") demo.kvfs.nodes ≡ none
unfolding find str_eq
find_c = refl

abbrev caller : Surroundings
caller = record {
  uid = 1;
  gid = 1;
  atime = 5;
  mtime = 5;
  ctime = 5;
  stack = replicate max_content 0;
}

read_b : kvfs_read (codes "/b") 4 0 demo ≡ done (pos 2, 9 ∷ 9 ∷ []) demo
unfolding kvfs_read lookup str_eq
read_b = refl

-- A read that starts at the end of the file still returns bytes.
read_b_at_end : kvfs_read (codes "/b") 4 2 demo ≡ done (pos 2, 9 ∷ 9 ∷ []) demo
unfolding kvfs_read lookup str_eq
read_b_at_end = refl

write-read_example :
    (s' : Fs) × (kvfs_write (codes "/b") (1 ∷ 2 ∷ 3 ∷ []) 1 demo ≡ done (pos 3) s')
    × (kvfs_read (codes "/b") 3 1 s' ≡ done (pos 3, 1 ∷ 2 ∷ 3 ∷ []) s')
    × IsValid s'
    × ((m : Bytes)
        → find m s'.kvfs.nodes ≡ (
            if str_eq (codes "/b") m
            then some (written file_b (1 ∷ 2 ∷ 3 ∷ []) 1)
            else find m demo.kvfs.nodes))
write-read_example = write-read (codes "/b") (1 ∷ 2 ∷ 3 ∷ []) 1 demo-IsValid find_b (omega arith)

flush-init_example :
    (s' : Fs) × (kvfs_flush demo ≡ done (pos 0) s')
    × (kvfs_init s'.superblock ≡ done tt s')
    × (s'.kvfs ≡ demo.kvfs)
flush-init_example = flush-init demo-IsValid

unlink-erase_example :
    (s' : Fs) × (kvfs_unlink (codes "/b") demo ≡ done (pos 0) s')
    × ((m : Bytes)
        → find m s'.kvfs.nodes ≡ (if str_eq (codes "/b") m then none else find m demo.kvfs.nodes))
    × (s'.kvfs.size + 1 ≡ 2)
    × (s'.superblock ≡ some (image s'.kvfs.nodes))
    × IsValid s'
    × Distinct s'.kvfs.nodes
unlink-erase_example = unlink-erase (codes "/b") demo-IsValid demo-Distinct find_b

mknod-insert_example :
    (s' : Fs) × (kvfs_mknod caller (codes "/c") 33188 0 demo ≡ done (pos 0) s')
    × ((m : Bytes)
        → find m s'.kvfs.nodes ≡ (
            if str_eq (codes "/c") m
            then some (new_node caller (codes "/c") 33188 0)
            else find m demo.kvfs.nodes))
    × (s'.kvfs.size ≡ 2 + 1)
    × (s'.superblock ≡ demo.superblock)
    × IsValid s'
    × Distinct s'.kvfs.nodes
mknod-insert_example =
    mknod-insert caller (codes "/c") 33188 0 demo-IsValid demo-Distinct find_c (omega arith) refl
      (omega arith)

rename-move_example :
    (s' : Fs) × (kvfs_rename (codes "/b") (codes "/c") demo ≡ done (pos 0) s')
    × ((m : Bytes)
        → find m s'.kvfs.nodes ≡ (
            if str_eq (codes "/c") m
            then some (record file_b { name = codes "/c" })
            else if str_eq (codes "/b") m
            then none
            else find m demo.kvfs.nodes))
    × (s'.kvfs.size ≡ 2)
    × (s'.superblock ≡ some (image s'.kvfs.nodes))
    × IsValid s'
    × Distinct s'.kvfs.nodes
rename-move_example =
    rename-move (codes "/b") (codes "/c") demo-IsValid demo-Distinct find_b find_c (omega arith)

rename-unlink_stays_example :
    (t : Fs) × (u : Fs) × (kvfs_rename (codes "/a") (codes "/b") demo ≡ done (pos 0) t)
    × (t.kvfs.size ≡ 2)
    × (kvfs_unlink (codes "/b") t ≡ done (pos 0) u)
    × (kvfs_open (codes "/b") u ≡ done (pos 0) u)
unfolding str_eq
rename-unlink_stays_example =
    rename-unlink_stays (codes "/a") (codes "/b") demo-IsValid find_a find_b refl (omega arith)

read_past_array_example : kvfs_read (codes "/b") 4 900 demo ≡ fault
read_past_array_example =
    read_past_array (codes "/b") 4 900 demo-IsValid find_b (omega arith) (omega arith) (omega arith)

demo-IsGood : IsGood demo
demo-IsGood = record { valid = demo-IsValid; distinct = demo-Distinct }

-- A file that is made, written and not saved, a restart, and a read of it.
abbrev lost_write : List Event
lost_write =
    ask (mknod caller (codes "/a") 33188 0)
    ∷ ask (write (codes "/a") (7 ∷ 8 ∷ []) 0)
    ∷ ask (read (codes "/a") 2 0)
    ∷ restart
    ∷ ask (read (codes "/a") 2 0)
    ∷ []

lost_write_replies :
    (history (pos 0, none) lost_write no_files).0
    ≡ only (pos 0)
      ∷ only (pos 2)
      ∷ record { code = pos 2; stat = none; bytes = 7 ∷ 8 ∷ [] }
      ∷ only (pos 0)
      ∷ only (pos 0)
      ∷ []
unfolding history happen Model.call str_eq
lost_write_replies = refl

lost_write-ArePermitted : ArePermitted (pos 0, none) lost_write no_files
unfolding ArePermitted happen Model.call str_eq
lost_write-ArePermitted = (
  (refl, omega arith, refl, omega arith),
  (omega arith, ((omega arith, omega arith), (tt, ((omega arith, omega arith), tt)))),
)

session-history_example :
    (t : Fs) × (session (pos 0, none) lost_write new_state
      ≡ done (history (pos 0, none) lost_write no_files).0 t)
    × Represents t (history (pos 0, none) lost_write no_files).1
session-history_example =
    session-history (pos 0, none) lost_write new_state no_files new_state-Represents
      lost_write-ArePermitted
