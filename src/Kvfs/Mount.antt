-- ===== src/Kvfs/Mount.antt =====
-- hw4/kvmount.c: the checks of `main` in front of `fuse_main`.
use os_assignments.Base.{Bool, List, ◌∷◌, if◌then◌else◌, Bytes}

-- How `main` goes on: it prints the usage and exits, it prints that there is no such directory and
-- exits, or it calls `fuse_main` with this `mountparent`.
pub data Mounting : Type 0 where
  usage : Mounting
  no_entry : Mounting
  mount : Bytes → Mounting

-- `access(path, F_OK) != -1`, `realpath` and `dirname` are given.
unfoldable pub kvmount : (Bytes → Bool) → (Bytes → Bytes) → (Bytes → Bytes) → List Bytes → Mounting
kvmount exists realpath dirname (name ∷ path ∷ args) =
    if exists path then mount (dirname (realpath path)) else no_entry
kvmount exists realpath dirname _ = usage
