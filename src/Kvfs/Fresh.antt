-- ===== src/Kvfs/Fresh.antt =====
-- The first process of hw4/kvfs.c on a new superblock.
use os_assignments.Base.{refl, some, [], arith}
use os_assignments.Kvfs.State.{Fs}
use os_assignments.Kvfs.Superblock.{
  kvfs_init, fresh_superblock, read_superblock, log_fits, read_nodes, rounds, read_loop,
}
use os_assignments.Kvfs.Find.{find}
use os_assignments.Kvfs.Good.{IsGood}
use os_assignments.Kvfs.Model.{no_files}
use os_assignments.Kvfs.Represents.{started, Represents}

-- The first process on a new superblock.
abbrev pub new_state : Fs
new_state = started [] (some fresh_superblock)

pub new_state-IsGood : IsGood new_state
new_state-IsGood = record {
  valid = record {
    sized = refl;
    small = omega arith;
    nodes = tt;
    file = fresh_superblock;
    stored = refl;
  };
  distinct = tt;
}

pub new_state-Represents : Represents new_state no_files
unfolding kvfs_init find read_superblock log_fits read_nodes rounds read_loop
new_state-Represents = record {
  good = new_state-IsGood;
  same = λ n. refl;
  counted = refl;
  keeps = record {
    kept = [];
    restarts = refl;
    sound = new_state-IsGood;
    kept_same = λ n. refl;
    kept_counted = refl;
  };
}
