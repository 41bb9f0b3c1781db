-- ===== src/Kvfs/Represents.antt =====
-- What it is for a state of hw4/kvfs.c to stand for dictionaries of Kvfs.Model.
use os_assignments.Base.{
  ℕ, ◌<◌, ◌≡◌, refl, sym, ◌∙◌, Option, none, some, List, length, arith, Bytes, str_eq, ap,
  if◌then◌else◌,
}
use os_assignments.Kvfs.State.{max_files, Fnode, Fs, done, Run, lookup, Superblock}
use os_assignments.Kvfs.Superblock.{kvfs_init}
use os_assignments.Kvfs.Find.{find, find-set, name_of_first}
use os_assignments.Kvfs.Invariant.{IsNode, Hit, lookup-Hit, lookup_missing}
use os_assignments.Kvfs.ReadWrite.{with_node, with_node-IsValid}
use os_assignments.Kvfs.RoundTrip.{image, kvfs_init-image}
use os_assignments.Kvfs.Good.{IsGood, Distinct-set}
use os_assignments.Kvfs.Model.{Reply, Dict, Model, update, with_files, both}

-- The memory that a process which reads these nodes starts with.
abbrev pub started : List Fnode → Option Superblock → Fs
started xs sb = record { kvfs = record { size = length xs; nodes = xs }; superblock = sb }

-- The superblock file gives a new process the files `disk`, `disk_count` of them.
pub record Keeps (sb : Option Superblock) (disk : Dict) (disk_count : ℕ) : Type 0 where
  pub kept : List Fnode
  pub restarts : kvfs_init sb ≡ done tt (started kept sb)
  pub sound : IsGood (started kept sb)
  pub kept_same : (n : Bytes) → find n kept ≡ disk n
  pub kept_counted : length kept ≡ disk_count

pub record Represents (s : Fs) (m : Model) : Type 0 where
  pub good : IsGood s
  pub same : (n : Bytes) → find n s.kvfs.nodes ≡ m.files n
  pub counted : s.kvfs.size ≡ m.count
  pub keeps : Keeps s.superblock m.disk m.disk_count

-- A run that gives this reply, and a state that stands for this model.
abbrev pub Gives : Run Reply → Reply × Model → Type 0
Gives o (reply, m) = (t : Fs) × (o ≡ done reply t) × Represents t m

Keeps-image :
    (xs : List Fnode) {d : Dict} {k : ℕ}
    → length xs < max_files
    → IsGood (started xs (some (image xs)))
    → ((n : Bytes) → find n xs ≡ d n)
    → length xs ≡ k
    → Keeps (some (image xs)) d k
Keeps-image xs small g same counted = record {
  kept = xs;
  restarts = kvfs_init-image xs small;
  sound = g;
  kept_same = same;
  kept_counted = counted;
}

module _ (s : Fs) (m : Model) (v : Represents s m) where
  pub missing : (p : Bytes) → m.files p ≡ none → lookup p s.kvfs ≡ none
  missing p e = lookup_missing s.kvfs v.good.valid.sized p (v.same p ∙ e)

  pub absent : (p : Bytes) → m.files p ≡ none → find p s.kvfs.nodes ≡ none
  absent p e = v.same p ∙ e

  pub present : (p : Bytes) (f : Fnode) → m.files p ≡ some f → find p s.kvfs.nodes ≡ some f
  present p f e = v.same p ∙ e

  pub found : (p : Bytes) (f : Fnode) → m.files p ≡ some f → Hit p s.kvfs f
  found p f e = lookup-Hit s.kvfs v.good.valid.sized p (v.same p ∙ e)

  pub stays : {o : Run Reply} (r : Reply) → o ≡ done r s → Gives o (r, m)
  stays r e = (s, e, v)

  -- What leaves the superblock alone.
  pub moves :
      {o : Run Reply} (r : Reply) (t : Fs) (d : Dict) (k : ℕ)
      → o ≡ done r t
      → t.superblock ≡ s.superblock
      → IsGood t
      → ((n : Bytes) → find n t.kvfs.nodes ≡ d n)
      → t.kvfs.size ≡ k
      → Gives o (r, with_files d k m)
  moves r t d k e untouched g same counted =
      (t, e, record { good = g; same = same; counted = counted; keeps = rw untouched v.keeps })

  -- What saves the files.
  pub saves :
      {o : Run Reply} (r : Reply) (t : Fs) (d : Dict) (k : ℕ)
      → o ≡ done r t
      → t.superblock ≡ some (image t.kvfs.nodes)
      → IsGood t
      → ((n : Bytes) → find n t.kvfs.nodes ≡ d n)
      → t.kvfs.size ≡ k
      → Gives o (r, both d k)
  saves r t d k e written_out g same counted = (
    t,
    e,
    record {
      good = g;
      same = same;
      counted = counted;
      keeps = rw written_out (
          Keeps-image t.kvfs.nodes (omega (arith, g.valid.sized, g.valid.small))
            (record {
              valid = record {
                sized = refl;
                small = omega (arith, g.valid.sized, g.valid.small);
                nodes = g.valid.nodes;
                file = image t.kvfs.nodes;
                stored = refl;
              };
              distinct = g.distinct;
            })
            same (sym g.valid.sized ∙ counted));
    },
  )

  -- A node is written back under the name where it was found.
  pub rewrites :
      {o : Run Reply} (r : Reply) (p : Bytes) (f g : Fnode) (e : m.files p ≡ some f)
      → g.name ≡ f.name
      → IsNode g
      → o ≡ done r (with_node s (found p f e).index g)
      → Gives o (r, with_files (update p (some g) m.files) m.count m)
  rewrites r p f g e named n ran =
      let hit = found p f e in
      let name : g.name ≡ p = named ∙ name_of_first hit.first in
      moves r (with_node s hit.index g) (update p (some g) m.files) m.count ran refl
        (record {
          valid = with_node-IsValid g hit v.good.valid n;
          distinct = Distinct-set g hit.first name v.good.distinct;
        })
        (λ q. find-set g q hit.first name ∙ ap (λ x. if str_eq p q then some g else x) (v.same q))
        v.counted
