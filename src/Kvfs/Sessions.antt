-- ===== src/Kvfs/Sessions.antt =====
-- hw4/kvfs.c over any number of calls and restarts.
use os_assignments.Base.{List, [], ◌∷◌, ℤ, pos, Option, none}
use os_assignments.Kvfs.State.{Stat, Cmd, pure, ◌>>=◌, done}
use os_assignments.Base.Machine.{resume}
use os_assignments.Kvfs.Superblock.{kvfs_init}
use os_assignments.Kvfs.Handlers.{kvfs_getattr, kvfs_read}
use os_assignments.Kvfs.Table.{Request, getattr, read, kvfs_oper}
use os_assignments.Kvfs.Model.{Reply, only, Event, ask, restart}

-- A call through `kvfs_oper` with all that it hands back.
unfoldable pub answer : ℤ × Option Stat → Request → Cmd Reply
unfolding kvfs_oper
answer root (getattr p) = do
  (c, st) ← kvfs_getattr root p
  pure (record { code = c; stat = st; bytes = [] })
answer root (read p size off) = do
  (c, out) ← kvfs_read p size off
  pure (record { code = c; stat = none; bytes = out })
answer root r = do c ← kvfs_oper root r; pure (only c)

-- A restart loses the memory and keeps the superblock file.
unfoldable pub serve : ℤ × Option Stat → Event → Cmd Reply
unfolding answer
serve root (ask r) s = answer root r s
serve root restart s = resume (λ _ t. done (only (pos 0)) t) (kvfs_init s.superblock)

unfoldable pub session : ℤ × Option Stat → List Event → Cmd (List Reply)
unfolding serve
session root [] = pure []
session root (e ∷ es) = do r ← serve root e; rs ← session root es; pure (r ∷ rs)
