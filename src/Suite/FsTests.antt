-- ===== src/Suite/FsTests.antt =====
-- hw4/tests/kvfs_tests.c: its test functions and `main`, over what the system calls give, and the
-- size that hw4/kvfs.c leaves the superblock with.
use os_assignments.Base.{
  ℕ, ◌+◌, ◌*◌, ◌/◌, ◌%◌, ◌^◌, ◌≡◌, ◌≢◌, refl, Bool, true, false, ◌&&◌, not, Option, none, some,
  length, ◌==◌, if◌then◌else◌, ℤ, pos, negsuc, arith,
}
use os_assignments.Kvfs.State.{Fs, Superblock, done, superblock_size, fnode_size}
use os_assignments.Kvfs.Superblock.{kvfs_init, kvfs_flush}
use os_assignments.Kvfs.Invariant.{IsValid}
use os_assignments.Kvfs.RoundTrip.{image, rewrite-image}
use os_assignments.Suite.Running.{returned, Report, fs_tests, safe_run_suite}

-- What the system gives the tests of a mount: the `status` that `waitpid` stores of the child, whether
-- `access` finds the superblock, and where `lseek` finds its end.
pub record Mounted : Type 0 where
  pub status : ℕ
  pub superblock_access : Bool
  pub superblock_end : ℤ

-- `WEXITSTATUS`
abbrev pub exit_status : ℕ → ℕ
exit_status status = status / 256 % 256

unfoldable pub mount_test : Mounted → ℕ
mount_test m =
    let mount_success = exit_status m.status == 0 in
    if mount_success && m.superblock_access then 1 else 0

-- `int size = lseek(..)` keeps the low 32 bits, and the size compared with is positive.
unfoldable pub superblock_size_test : ℤ → ℕ
superblock_size_test (pos size) = if size % 2 ^ 32 == superblock_size then 1 else 0
superblock_size_test (negsuc n) = 0

-- `system(command) != -1`
abbrev pub is_run : ℤ → Bool
is_run (pos n) = true
is_run (negsuc n) = not (n == 0)

unfoldable pub test_init : ℤ → ℕ
test_init mkdir = if is_run mkdir then 1 else 0

-- `return 0` stands in front of the third command.
unfoldable pub test_clean : ℤ → ℤ → ℕ
test_clean fusermount rm = 0

-- `main`, where `init` and `clean` of every test come back; each test mounts anew.
unfoldable pub main : Mounted → Mounted → Report × Bool
unfolding fs_tests mount_test superblock_size_test
main first second =
    safe_run_suite
      (fs_tests (returned (mount_test first))
        (returned (superblock_size_test second.superblock_end)))
      (record { tests_passed = 0; tests_failed = 0; suites_run = 0 })

-- Where `lseek` finds the end of a superblock.
abbrev pub end_of : Option Superblock → ℤ
end_of none = negsuc 0
end_of (some sb) = pos sb.file_size

-- The size of a file that holds just the fnodes is never that of a new one, in an `int` either.
image_size : (n : ℕ) → (4 + fnode_size * n) % 2 ^ 32 ≢ superblock_size
image_size n e = omega arith

-- The test of the superblock's size passes on the file that a first mount makes, and fails on the
-- file that a flush of a well-formed state leaves, whatever files there are.
pub superblock_size_test-fresh :
    (s : Fs)
    → IsValid s
    → ((t : Fs) × (kvfs_init none ≡ done tt t) × (superblock_size_test (end_of t.superblock) ≡ 1))
      × ((t : Fs) × (kvfs_flush s ≡ done (pos 0) t)
          × (superblock_size_test (end_of t.superblock) ≡ 0))
unfolding kvfs_init kvfs_flush superblock_size_test
superblock_size_test-fresh s v = (
  (_, refl, refl),
  (
    record s { superblock = some (image s.kvfs.nodes) },
    rewrite-image s v.sized v.stored,
    let other : ((4 + fnode_size * length s.kvfs.nodes) % 2 ^ 32 == superblock_size) ≡ false =
          ground (arith, image_size (length s.kvfs.nodes)) in
        rw other refl,
  ),
)
