-- ===== src/Kvfs/Reaching.antt =====
-- The states of hw4/kvfs.c that calls lead to.
use os_assignments.Base.{◌≡◌, refl, Option, none, arith, ℤ, ◌∙◌, sym, subst}
use os_assignments.Kvfs.State.{Stat, Fs, done}
use os_assignments.Kvfs.Superblock.{kvfs_init, fresh_superblock}
use os_assignments.Kvfs.Table.{Request, kvfs_oper}
use os_assignments.Kvfs.Serving.{kvfs_oper-Serves}
use os_assignments.Kvfs.Good.{IsAllowed, IsGood}

-- The states that allowed calls lead to from a start on a new superblock.
pub data Reach (root : ℤ × Option Stat) : Fs → Type 0 where
  start : {s : Fs} → kvfs_init none ≡ done tt s → Reach root s
  call :
      {s t : Fs} {c : ℤ} (r : Request)
      → Reach root s
      → IsAllowed r s
      → kvfs_oper root r s ≡ done c t
      → Reach root t

next-done : {A : Type 0} {a b : A} {s t : Fs} → done a s ≡ done b t → s ≡ t
next-done e = cc

-- Every state that allowed calls reach from a start on a new superblock is well formed, with
-- distinct names.
pub Reach-IsGood : {root : ℤ × Option Stat} {s : Fs} → Reach root s → IsGood s
unfolding kvfs_init
Reach-IsGood (start e) = subst IsGood (next-done e) (record {
  valid = record {
    sized = refl;
    small = omega arith;
    nodes = tt;
    file = fresh_superblock;
    stored = refl;
  };
  distinct = tt;
})
Reach-IsGood {root} (call r w a e) =
    let o = kvfs_oper-Serves root r (Reach-IsGood w) a in
    subst IsGood (next-done (sym o.returns ∙ e)) o.good
