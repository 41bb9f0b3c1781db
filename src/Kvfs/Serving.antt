-- ===== src/Kvfs/Serving.antt =====
-- hw4/kvfs.c as a server: the states that FUSE's calls through `kvfs_oper` can reach.
use os_assignments.Base.{
  ℕ, ◌+◌, ◌-◌, ◌<◌, ◌≤◌, ◌≡◌, refl, inl, inr, Option, none, some, length, arith, Bytes, codes,
  str_eq, ℤ, pos, min, ltb, Bool-cases, Option-cases, ◌∙◌,
}
use os_assignments.Kvfs.State.{
  Stat, Fnode, Fs, done, max_content, name_size, word, Run, node_at, lookup,
}
use os_assignments.Kvfs.Superblock.{kvfs_flush}
use os_assignments.Kvfs.Handlers.{
  kvfs_open, kvfs_getattr, kvfs_write, kvfs_read, kvfs_utimens, kvfs_unlink, kvfs_rename, enoent,
  eacces, kvfs_truncate, kvfs_release,
}
use os_assignments.Kvfs.Table.{
  Request, getattr, truncate, open_file, flush, release, mknod, utimens, write, read, unlink,
  rename, kvfs_oper,
}
use os_assignments.Kvfs.Find.{find, get_elem?-first, name_of_first}
use os_assignments.Kvfs.Invariant.{IsNode, lookup-Hit, lookup_missing, IsNode-first}
use os_assignments.Kvfs.ReadWrite.{
  with_node, with_node-IsValid, written, written-IsNode, kvfs_write-present,
}
use os_assignments.Kvfs.RoundTrip.{image, rewrite-image}
use os_assignments.Kvfs.Names.{unlink-erase, mknod-insert, rename-move}
use os_assignments.Kvfs.Errors.{write_too_long, read_inside}
use os_assignments.Kvfs.Good.{IsAllowed, IsGood, Serves, stays, Distinct-set}

module _ (s : Fs) (g : IsGood s) where
  absent : (p : Bytes) → find p s.kvfs.nodes ≡ none → lookup p s.kvfs ≡ none
  absent = lookup_missing s.kvfs g.valid.sized

  replaced :
      (p : Bytes) {f : Fnode} {o : Run ℤ} (c : ℤ) (h : Fnode)
      (present : find p s.kvfs.nodes ≡ some f)
      → h.name ≡ f.name
      → IsNode h
      → o ≡ done c (with_node s (lookup-Hit s.kvfs g.valid.sized p present).index h)
      → Serves o
  replaced p c h present same n e =
      let hit = lookup-Hit s.kvfs g.valid.sized p present in
      record {
        code = c;
        next = with_node s hit.index h;
        returns = e;
        good = record {
          valid = with_node-IsValid h hit g.valid n;
          distinct = Distinct-set h hit.first (same ∙ name_of_first hit.first) g.distinct;
        };
      }

  serve_getattr : (root : ℤ × Option Stat) (p : Bytes) → Serves (kvfs_oper root (getattr p) s)
  unfolding kvfs_oper kvfs_getattr node_at
  serve_getattr root p = elim (Bool-cases (str_eq p (codes "/"))) [
    | inl slash ↦ stays root.0 g (rw (kvfs_oper, kvfs_getattr, slash))
    | inr other ↦ elim (Option-cases (find p s.kvfs.nodes)) [
      | inl none_there ↦ stays enoent g (rw (kvfs_oper, kvfs_getattr, other, absent p none_there))
      | inr (f, present) ↦
          let hit = lookup-Hit s.kvfs g.valid.sized p present in
          stays (pos 0) g
            (rw (kvfs_oper, kvfs_getattr, other, hit.looked_up, node_at, get_elem?-first hit.first))
    ]
  ]

  serve_utimens :
      (root : ℤ × Option Stat) (p : Bytes) (a m : ℕ) → Serves (kvfs_oper root (utimens p a m) s)
  unfolding kvfs_oper kvfs_utimens
  serve_utimens root p a m = elim (Option-cases (find p s.kvfs.nodes)) [
    | inl none_there ↦ stays (pos 0) g (rw (kvfs_oper, kvfs_utimens, absent p none_there))
    | inr (f, present) ↦
        let hit = lookup-Hit s.kvfs g.valid.sized p present in
        let old = IsNode-first hit.first g.valid.nodes in
        replaced p (pos 0)
          (record f { stat = record f.stat { st_atime = a; st_mtime = m; st_ctime = m } }) present
          refl (record { name_fits = old.name_fits; full = old.full; within = old.within })
          (ground (arith, hit.looked_up, get_elem?-first hit.first))
  ]

  serve_write :
      (root : ℤ × Option Stat) (p buf : Bytes) (off : ℕ)
      → off + length buf < word
      → Serves (kvfs_oper root (write p buf off) s)
  unfolding kvfs_oper
  serve_write root p buf off w = elim (Bool-cases (ltb max_content (off + length buf))) [
    | inl long ↦ stays (pos 0) g (write_too_long s p buf off (ground arith) w)
    | inr fits ↦ elim (Option-cases (find p s.kvfs.nodes)) [
      | inl none_there ↦ stays (pos 0) g (unfold kvfs_write in ground (arith, absent p none_there))
      | inr (f, present) ↦
          let hit = lookup-Hit s.kvfs g.valid.sized p present in
          let room : off + length buf ≤ max_content = ground arith in
          replaced p (pos (length buf)) (written f buf off) present refl
            (written-IsNode buf off (IsNode-first hit.first g.valid.nodes) room)
            (kvfs_write-present buf off s hit room)
    ]
  ]

  serve_read :
      (root : ℤ × Option Stat) (p : Bytes) (n off : ℕ)
      → off ≤ max_content
      → off + n < word
      → Serves (kvfs_oper root (read p n off) s)
  unfolding kvfs_oper kvfs_read
  serve_read root p n off inside w = elim (Option-cases (find p s.kvfs.nodes)) [
    | inl none_there ↦ stays (pos 0) g (rw (kvfs_oper, kvfs_read, absent p none_there))
    | inr (f, present) ↦
        stays (pos (min f.stat.st_size (min n (max_content - off)))) g
          (rw (kvfs_oper, read_inside p n off g.valid present inside w))
  ]

  serve_unlink : (root : ℤ × Option Stat) (p : Bytes) → Serves (kvfs_oper root (unlink p) s)
  unfolding kvfs_oper kvfs_unlink
  serve_unlink root p = elim (Option-cases (find p s.kvfs.nodes)) [
    | inl none_there ↦ stays eacces g (rw (kvfs_oper, kvfs_unlink, absent p none_there))
    | inr (f, present) ↦
        let (t, e, _, _, _, v, d) = unlink-erase p g.valid g.distinct present in
        record { code = pos 0; next = t; returns = e; good = record { valid = v; distinct = d } }
  ]

  serve_rename :
      (root : ℤ × Option Stat) (p q : Bytes)
      → find q s.kvfs.nodes ≡ none
      → length q < name_size
      → Serves (kvfs_oper root (rename p q) s)
  unfolding kvfs_oper kvfs_rename
  serve_rename root p q fresh fits = elim (Option-cases (find p s.kvfs.nodes)) [
    | inl none_there ↦ stays eacces g (rw (kvfs_oper, kvfs_rename, absent p none_there))
    | inr (f, present) ↦
        let (t, e, _, _, _, v, d) = rename-move p q g.valid g.distinct present fresh fits in
        record { code = pos 0; next = t; returns = e; good = record { valid = v; distinct = d } }
  ]

  serve_flush : (root : ℤ × Option Stat) → Serves (kvfs_oper root flush s)
  unfolding kvfs_oper kvfs_flush
  serve_flush root = record {
    code = pos 0;
    next = record s { superblock = some (image s.kvfs.nodes) };
    returns = rewrite-image s g.valid.sized g.valid.stored;
    good = record {
      valid = record {
        sized = g.valid.sized;
        small = g.valid.small;
        nodes = g.valid.nodes;
        file = image s.kvfs.nodes;
        stored = refl;
      };
      distinct = g.distinct;
    };
  }

  serve_open : (root : ℤ × Option Stat) (p : Bytes) → Serves (kvfs_oper root (open_file p) s)
  unfolding kvfs_oper kvfs_open
  serve_open root p = elim (Option-cases (find p s.kvfs.nodes)) [
    | inl none_there ↦ stays eacces g (rw (kvfs_oper, kvfs_open, absent p none_there))
    | inr (f, present) ↦
        let hit = lookup-Hit s.kvfs g.valid.sized p present in
        stays (pos 0) g (rw (kvfs_oper, kvfs_open, hit.looked_up))
  ]

-- Every allowed call of the table, in a well-formed state with distinct names, returns a code: it
-- neither leaves an array nor ends the process, and the state stays well formed with distinct
-- names.
pub kvfs_oper-Serves :
    (root : ℤ × Option Stat) (r : Request) {s : Fs}
    → IsGood s
    → IsAllowed r s
    → Serves (kvfs_oper root r s)
unfolding kvfs_oper kvfs_truncate kvfs_release
kvfs_oper-Serves root (getattr p) {s} g a = serve_getattr s g root p
kvfs_oper-Serves root (truncate p n) g a = stays (pos 0) g refl
kvfs_oper-Serves root (open_file p) {s} g a = serve_open s g root p
kvfs_oper-Serves root flush {s} g a = serve_flush s g root
kvfs_oper-Serves root (release p) g a = stays (pos 0) g refl
kvfs_oper-Serves root (mknod e p mode dev) g a =
    let (t, q, _, _, _, v, d) = mknod-insert e p mode dev g.valid g.distinct a.0 a.1 a.2 a.3 in
    record { code = pos 0; next = t; returns = q; good = record { valid = v; distinct = d } }
kvfs_oper-Serves root (utimens p t m) {s} g a = serve_utimens s g root p t m
kvfs_oper-Serves root (write p buf off) {s} g a = serve_write s g root p buf off a
kvfs_oper-Serves root (read p n off) {s} g a = serve_read s g root p n off a.0 a.1
kvfs_oper-Serves root (unlink p) {s} g a = serve_unlink s g root p
kvfs_oper-Serves root (rename p q) {s} g a = serve_rename s g root p q a.0 a.1
