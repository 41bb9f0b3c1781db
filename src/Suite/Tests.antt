-- ===== src/Suite/Tests.antt =====
-- Runs of the model of hw4/tests, and its theorem at a concrete input.
use os_assignments.Base.{none, pos, ◌≡◌, ◌+◌, ◌↔◌, refl, true, false, length}
use os_assignments.Suite.Running.{
  Counters, returned, killed, fs_tests, safe_run_suite, safe_run, run_tests, run_test, good,
  safe_run_suite-good,
}
use os_assignments.Kvfs.State.{Fs, done, superblock_size}
use os_assignments.Kvfs.Superblock.{kvfs_init, kvfs_flush}
use os_assignments.Kvfs.Fresh.{new_state, new_state-IsGood}
use os_assignments.Suite.FsTests.{
  Mounted, mount_test, superblock_size_test, main, end_of, superblock_size_test-fresh,
}

abbrev before : Counters
before = record { tests_passed = 0; tests_failed = 0; suites_run = 0 }

-- With the mount passed and the other killed, one test of six passes.
suite_fails : (safe_run_suite (fs_tests (returned 1) killed) before).1 ≡ false
unfolding safe_run_suite run_tests run_test safe_run fs_tests
suite_fails = refl

suite_run :
    ((safe_run_suite (fs_tests (returned 1) killed) before).0.passed
      ≡ good (fs_tests (returned 1) killed))
    × ((safe_run_suite (fs_tests (returned 1) killed) before).0.passed
          + (safe_run_suite (fs_tests (returned 1) killed) before).0.failed
        ≡ length (fs_tests (returned 1) killed))
    × ((safe_run_suite (fs_tests (returned 1) killed) before).0.counters.tests_passed
        ≡ 0 + good (fs_tests (returned 1) killed))
    × ((safe_run_suite (fs_tests (returned 1) killed) before).0.counters.tests_failed
          + good (fs_tests (returned 1) killed)
        ≡ 0 + length (fs_tests (returned 1) killed))
    × ((safe_run_suite (fs_tests (returned 1) killed) before).0.counters.suites_run ≡ 0 + 1)
    × (((safe_run_suite (fs_tests (returned 1) killed) before).1 ≡ true)
        ↔ (good (fs_tests (returned 1) killed) ≡ length (fs_tests (returned 1) killed)))
suite_run = safe_run_suite-good (fs_tests (returned 1) killed) before

-- Both tests of the mount pass, and the suite fails for the four that only return 0.
abbrev fine : Mounted
fine = record { status = 0; superblock_access = true; superblock_end = pos superblock_size }

main_fails : ((main fine fine).0.passed ≡ 2) × ((main fine fine).1 ≡ false)
unfolding main mount_test superblock_size_test safe_run_suite run_tests run_test safe_run fs_tests
main_fails = (refl, refl)

superblock_size_test-fresh_example :
    ((t : Fs) × (kvfs_init none ≡ done tt t) × (superblock_size_test (end_of t.superblock) ≡ 1))
    × ((t : Fs) × (kvfs_flush new_state ≡ done (pos 0) t)
        × (superblock_size_test (end_of t.superblock) ≡ 0))
superblock_size_test-fresh_example = superblock_size_test-fresh new_state new_state-IsGood.valid
