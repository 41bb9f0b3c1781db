-- ===== src/Kvfs/Refines.antt =====
-- hw4/kvfs.c implements the dictionaries of Kvfs.Model.
use os_assignments.Base.{
  ℕ, ◌+◌, ◌-◌, ◌<◌, ◌≤◌, ◌≡◌, refl, ◌∙◌, inl, inr, Option, none, some, List, [], ◌∷◌, length, arith,
  Bytes, false, codes, str_eq, ltb, Bool-cases, ℤ, pos, ap, if◌then◌else◌, min, take, drop,
}
use os_assignments.Kvfs.State.{Stat, Fnode, Fs, done, name_size, max_content, word, node_at}
use os_assignments.Kvfs.Superblock.{kvfs_flush}
use os_assignments.Kvfs.Handlers.{
  kvfs_getattr, kvfs_read, kvfs_open, kvfs_unlink, kvfs_rename, kvfs_utimens, kvfs_write,
  kvfs_truncate, kvfs_release, new_node, Surroundings, enoent, eacces,
}
use os_assignments.Kvfs.Table.{
  Request, getattr, truncate, open_file, flush, release, mknod, utimens, write, read, unlink,
  rename, kvfs_oper,
}
use os_assignments.Kvfs.Find.{get_elem?-first}
use os_assignments.Kvfs.Invariant.{IsNode-first}
use os_assignments.Kvfs.ReadWrite.{written, written-IsNode, kvfs_write-present}
use os_assignments.Kvfs.RoundTrip.{image, rewrite-image}
use os_assignments.Kvfs.Names.{unlink-erase, mknod-insert, rename-move}
use os_assignments.Kvfs.Errors.{write_too_long, read_inside}
use os_assignments.Kvfs.Model.{
  only, Event, ask, restart, Model, update, touched, get_stat, opened, timed, put_bytes, get_bytes,
  erased, moved, call, happen, history, IsPermitted, ArePermitted,
}
use os_assignments.Kvfs.Sessions.{answer, serve, session}
use os_assignments.Kvfs.Represents.{
  started, Represents, Gives, missing, absent, present, found, stays, moves, saves, rewrites,
}

module _ (root : ℤ × Option Stat) (s : Fs) (m : Model) (v : Represents s m) where
  gives_stat :
      (p : Bytes) (x : Option Fnode)
      → m.files p ≡ x
      → str_eq p (codes "/") ≡ false
      → Gives (answer root (getattr p) s) (get_stat x m)
  unfolding answer kvfs_getattr node_at
  gives_stat p none e other =
      stays s m v (only enoent) (rw (answer, kvfs_getattr, other, missing s m v p e))
  gives_stat p (some f) e other =
      let hit = found s m v p f e in
      stays s m v (record { code = pos 0; stat = some f.stat; bytes = [] })
        (rw (answer, kvfs_getattr, other, hit.looked_up, node_at, get_elem?-first hit.first))

  gives_open :
      (p : Bytes) (x : Option Fnode)
      → m.files p ≡ x
      → Gives (answer root (open_file p) s) (opened x m)
  unfolding answer kvfs_oper kvfs_open
  gives_open p none e =
      stays s m v (only eacces) (rw (answer, kvfs_oper, kvfs_open, missing s m v p e))
  gives_open p (some f) e =
      stays s m v (only (pos 0)) (rw (answer, kvfs_oper, kvfs_open, (found s m v p f e).looked_up))

  gives_times :
      (p : Bytes) (a c : ℕ) (x : Option Fnode)
      → m.files p ≡ x
      → Gives (answer root (utimens p a c) s) (timed p a c x m)
  unfolding answer kvfs_oper kvfs_utimens
  gives_times p a c none e =
      stays s m v (only (pos 0)) (rw (answer, kvfs_oper, kvfs_utimens, missing s m v p e))
  gives_times p a c (some f) e =
      let hit = found s m v p f e in
      let old = IsNode-first hit.first v.good.valid.nodes in
      rewrites s m v (only (pos 0)) p f (touched f a c) e refl
        (record { name_fits = old.name_fits; full = old.full; within = old.within })
        (ground (arith, hit.looked_up, get_elem?-first hit.first))

  gives_write :
      (p buf : Bytes) (off : ℕ) (x : Option Fnode)
      → m.files p ≡ x
      → off + length buf < word
      → Gives (answer root (write p buf off) s) (put_bytes p buf off x m)
  unfolding answer kvfs_oper
  gives_write p buf off none e w =
      stays s m v (only (pos 0)) (unfold kvfs_write in ground (arith, missing s m v p e))
  gives_write p buf off (some f) e w = elim (Bool-cases (ltb max_content (off + length buf))) [
    | inl long ↦ rw long (
        stays s m v (only (pos 0))
          (rw (answer, kvfs_oper, write_too_long s p buf off (ground arith) w)))
    | inr fits ↦
        let hit = found s m v p f e in
        let room : off + length buf ≤ max_content = ground arith in
        rw fits (
          rewrites s m v (only (pos (length buf))) p f (written f buf off) e refl
            (written-IsNode buf off (IsNode-first hit.first v.good.valid.nodes) room)
            (rw (answer, kvfs_oper, kvfs_write-present buf off s hit room)))
  ]

  gives_read :
      (p : Bytes) (size off : ℕ) (x : Option Fnode)
      → m.files p ≡ x
      → off ≤ max_content
      → off + size < word
      → Gives (answer root (read p size off) s) (get_bytes size off x m)
  unfolding answer kvfs_read
  gives_read p size off none e inside w =
      stays s m v (only (pos 0)) (rw (answer, kvfs_read, missing s m v p e))
  gives_read p size off (some f) e inside w =
      let n = min f.stat.st_size (min size (max_content - off)) in
      stays s m v (record { code = pos n; stat = none; bytes = take n (drop off f.content) })
        (rw (answer, read_inside p size off v.good.valid (present s m v p f e) inside w))

  gives_unlink :
      (p : Bytes) (x : Option Fnode)
      → m.files p ≡ x
      → Gives (answer root (unlink p) s) (erased p x m)
  unfolding answer kvfs_oper
  gives_unlink p none e =
      stays s m v (only eacces)
        (unfold kvfs_unlink in rw (answer, kvfs_oper, kvfs_unlink, missing s m v p e))
  gives_unlink p (some f) e =
      let (t, ran, view, fewer, out, valid, distinct) =
        unlink-erase p v.good.valid v.good.distinct (present s m v p f e) in
      saves s m v (only (pos 0)) t (update p none m.files) (m.count - 1)
        (rw (answer, kvfs_oper, ran)) out (record { valid = valid; distinct = distinct })
        (λ q. view q ∙ ap (λ x. if str_eq p q then none else x) (v.same q))
        (omega (arith, v.counted))

  gives_rename :
      (p q : Bytes) (x : Option Fnode)
      → m.files p ≡ x
      → m.files q ≡ none
      → length q < name_size
      → Gives (answer root (rename p q) s) (moved p q x m)
  unfolding answer kvfs_oper
  gives_rename p q none e fresh fits =
      stays s m v (only eacces)
        (unfold kvfs_rename in rw (answer, kvfs_oper, kvfs_rename, missing s m v p e))
  gives_rename p q (some f) e fresh fits =
      let (t, ran, view, size, out, valid, distinct) =
        rename-move p q v.good.valid v.good.distinct (present s m v p f e) (absent s m v q fresh)
          fits in
      saves s m v (only (pos 0)) t (update q (some (record f { name = q })) (update p none m.files))
        m.count (rw (answer, kvfs_oper, ran)) out (record { valid = valid; distinct = distinct })
        (λ n.
          view n
          ∙ ap
              (λ x.
                if str_eq q n then some (record f { name = q }) else if str_eq p n then none else x)
              (v.same n))
        (size ∙ v.counted)

  gives_mknod :
      (e : Surroundings) (p : Bytes) (mode dev : ℕ)
      → IsPermitted (ask (mknod e p mode dev)) m
      → Gives (answer root (mknod e p mode dev) s) (call root (mknod e p mode dev) m)
  unfolding answer kvfs_oper call
  gives_mknod e p mode dev (fresh, fits, full, room) =
      let (t, ran, view, size, untouched, valid, distinct) =
        mknod-insert e p mode dev v.good.valid v.good.distinct (absent s m v p fresh) fits full
          (omega (arith, v.counted)) in
      moves s m v (only (pos 0)) t (update p (some (new_node e p mode dev)) m.files) (m.count + 1)
        (rw (answer, kvfs_oper, ran)) untouched (record { valid = valid; distinct = distinct })
        (λ q. view q ∙ ap (λ x. if str_eq p q then some (new_node e p mode dev) else x) (v.same q))
        (size ∙ ap (λ (n : ℕ). n + 1) v.counted)

  gives_flush : Gives (answer root flush s) (call root flush m)
  unfolding answer kvfs_oper call kvfs_flush
  gives_flush =
      saves s m v (only (pos 0)) (record s { superblock = some (image s.kvfs.nodes) }) m.files
        m.count
        (rw (answer, kvfs_oper, kvfs_flush, rewrite-image s v.good.valid.sized v.good.valid.stored))
        refl
        (record {
          valid = record {
            sized = v.good.valid.sized;
            small = v.good.valid.small;
            nodes = v.good.valid.nodes;
            file = image s.kvfs.nodes;
            stored = refl;
          };
          distinct = v.good.distinct;
        })
        v.same v.counted

  gives_restart : Gives (serve root restart s) (happen root restart m)
  unfolding serve happen
  gives_restart =
      let k = v.keeps in
      (
        started k.kept s.superblock,
        rw (serve, k.restarts),
        record { good = k.sound; same = k.kept_same; counted = k.kept_counted; keeps = k },
      )

  gives_call : (r : Request) → IsPermitted (ask r) m → Gives (answer root r s) (call root r m)
  unfolding answer kvfs_oper call kvfs_truncate kvfs_release
  gives_call (getattr p) a = elim (Bool-cases (str_eq p (codes "/"))) [
    | inl slash ↦ rw slash (
        stays s m v (record { code = root.0; stat = root.1; bytes = [] })
          (unfold kvfs_getattr in rw (answer, kvfs_getattr, slash)))
    | inr other ↦ rw other (gives_stat p (m.files p) refl other)
  ]
  gives_call (truncate p n) a = stays s m v (only (pos 0)) refl
  gives_call (open_file p) a = gives_open p (m.files p) refl
  gives_call flush a = gives_flush
  gives_call (release p) a = stays s m v (only (pos 0)) refl
  gives_call (mknod e p mode dev) a = gives_mknod e p mode dev a
  gives_call (utimens p t c) a = gives_times p t c (m.files p) refl
  gives_call (write p buf off) a = gives_write p buf off (m.files p) refl a
  gives_call (read p size off) a = gives_read p size off (m.files p) refl a.0 a.1
  gives_call (unlink p) a = gives_unlink p (m.files p) refl
  gives_call (rename p q) a = gives_rename p q (m.files p) refl a.0 a.1

  gives_event : (e : Event) → IsPermitted e m → Gives (serve root e s) (happen root e m)
  unfolding serve happen
  gives_event (ask r) a = gives_call r a
  gives_event restart a = gives_restart

-- Whatever permitted calls FUSE makes, in any order and with restarts of the process in between, a
-- state that stands for dictionaries of files answers each as the dictionaries do, code, stat and
-- bytes, and goes on to stand for the dictionaries changed in the same way: calls change the files,
-- and a restart goes back to those of the last flush, unlink or rename. A call is permitted if it
-- makes a node only of a name that is new and fits, with less than ten million nodes then, moves one
-- only to such a name, reads from no further than the end of the content array, and its offset and
-- size do not overflow.
pub session-history :
    (root : ℤ × Option Stat) (es : List Event) (s : Fs) (m : Model)
    → Represents s m
    → ArePermitted root es m
    → (t : Fs) × (session root es s ≡ done (history root es m).0 t)
      × Represents t (history root es m).1
unfolding session history ArePermitted
session-history root [] s m v a = (s, refl, v)
session-history root (e ∷ es) s m v a =
    let (t, ran, v') = gives_event root s m v e a.0 in
    let (u, rest, last) = session-history root es t (happen root e m).1 v' a.1 in
    (u, rw (ran, rest), last)
