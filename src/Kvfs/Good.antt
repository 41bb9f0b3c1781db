-- ===== src/Kvfs/Good.antt =====
-- What hw4/kvfs.c keeps between the calls of FUSE, and what FUSE sees to before them.
use os_assignments.Base.{
  ℕ, ◌+◌, ◌<◌, ◌≤◌, ◌≡◌, none, List, length, set, arith, Bytes, str_eq_iff, ℤ, ◌∙◌, sym,
}
use os_assignments.Kvfs.State.{max_files, Fnode, Fs, done, max_content, name_size, word, Run}
use os_assignments.Kvfs.Table.{Request, mknod, write, read, rename}
use os_assignments.Kvfs.Find.{find, find-set, IsFirst, here, there}
use os_assignments.Kvfs.Distinct.{Distinct}
use os_assignments.Kvfs.Invariant.{IsValid}

-- What the theorems on calls ask for: offsets in range, room for one more where a node is made, and
-- a name that is new where one is made, as the kernel sees to, or moved to, as it does not.
abbrev pub IsAllowed : Request → Fs → Type 0
IsAllowed (mknod e p mode dev) s =
    (find p s.kvfs.nodes ≡ none)
    × (length p < name_size)
    × (length e.stack ≡ max_content)
    × (s.kvfs.size + 1 < max_files)
IsAllowed (write p buf off) s = off + length buf < word
IsAllowed (read p n off) s = (off ≤ max_content) × (off + n < word)
IsAllowed (rename p q) s = (find q s.kvfs.nodes ≡ none) × (length q < name_size)
IsAllowed _ s = Unit

pub record IsGood (s : Fs) : Type 0 where
  pub valid : IsValid s
  pub distinct : Distinct s.kvfs.nodes

-- A call that returns, in a good state.
pub record Serves (o : Run ℤ) : Type 0 where
  pub code : ℤ
  pub next : Fs
  pub returns : o ≡ done code next
  pub good : IsGood next

abbrev pub stays : {s : Fs} {o : Run ℤ} (c : ℤ) → IsGood s → o ≡ done c s → Serves o
stays {s} c g e = record { code = c; next = s; returns = e; good = g }

pub Distinct-set :
    {name : Bytes} {xs : List Fnode} {j : ℕ} {f : Fnode} (g : Fnode)
    → IsFirst name xs j f
    → g.name ≡ name
    → Distinct xs
    → Distinct (set xs j g)
Distinct-set {name} g (here {f} e) same d =
    (rw (same ∙ sym ((str_eq_iff f.name name).0 e)) d.0, d.1)
Distinct-set {name} g (there {g = k} e r) same d = (
  ground (arith, find-set g k.name r same, str_eq_iff k.name name, str_eq_iff name k.name),
  Distinct-set g r same d.1,
)
