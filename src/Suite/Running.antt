-- ===== src/Suite/Running.antt =====
-- hw4/tests/tester.h: `safe_run` and `safe_run_suite`, and hw4/tests/kvfs_tests.c: its suite.
use os_assignments.Base.{
  ℕ, zero, suc, ◌+◌, ◌≡◌, ◌↔◌, ◌⊎◌, ◌∙◌, refl, Bool, true, false, List, [], ◌∷◌, ◌==◌,
  if◌then◌else◌, Bytes, codes, length, arith, inl, inr,
}

-- What becomes of one test: `fork` fails, or the child is killed by a signal in `init`, the test
-- function or `clean`, or the test function returned a value and the child exits.
pub data TestOutcome : Type 0 where
  fork_failed : TestOutcome
  killed : TestOutcome
  returned : ℕ → TestOutcome

-- `test_info_t`, with the outcome in place of the function.
pub record TestInfo : Type 0 where
  pub description : Bytes
  pub func : TestOutcome

-- `safe_run`: the child exits with `func_ret == 0`, and the parent asks for the status 0.
unfoldable pub safe_run : TestOutcome → Bool
safe_run fork_failed = false
safe_run killed = false
safe_run (returned r) = let status : ℕ = if r == 0 then 1 else 0 in status == 0

-- The global counters, each an `int` that counts tests or suites and does not come near its bound.
pub record Counters : Type 0 where
  pub tests_passed : ℕ
  pub tests_failed : ℕ
  pub suites_run : ℕ

-- The counters of the process, the local `passed` and `failed`, and the tests with what is
-- printed of each: PASSED or FAILED.
pub record Report : Type 0 where
  pub counters : Counters
  pub passed : ℕ
  pub failed : ℕ
  pub printed : List (Bytes × Bool)

unfoldable pub run_test : TestInfo → Report → Report
run_test t r =
    let g = r.counters in
    if safe_run t.func
    then (record r {
      counters = record g { tests_passed = g.tests_passed + 1 };
      passed = r.passed + 1;
      printed = (t.description, true) ∷ r.printed;
    })
    else (record r {
      counters = record g { tests_failed = g.tests_failed + 1 };
      failed = r.failed + 1;
      printed = (t.description, false) ∷ r.printed;
    })

-- The loop up to the test with no description and no function; what is printed stands last first.
unfoldable pub run_tests : List TestInfo → Report → Report
run_tests [] r = r
run_tests (t ∷ ts) r = run_tests ts (run_test t r)

unfoldable pub safe_run_suite : List TestInfo → Counters → Report × Bool
safe_run_suite tests g =
    let r = run_tests tests (record {
      counters = record g { suites_run = g.suites_run + 1 };
      passed = 0;
      failed = 0;
      printed = [];
    }) in
    (r, r.failed == 0)

-- `fs_tests`, where `mount` and `sb_size` are what becomes of `mount_test` and of
-- `superblock_size_test`, which call FUSE; the other tests return 0.
unfoldable pub fs_tests : TestOutcome → TestOutcome → List TestInfo
fs_tests mount sb_size =
    record { description = codes "FS mount"; func = mount }
    ∷ record { description = codes "FS sb size"; func = sb_size }
    ∷ record { description = codes "FS read"; func = returned 0 }
    ∷ record { description = codes "FS write"; func = returned 0 }
    ∷ record { description = codes "FS move"; func = returned 0 }
    ∷ record { description = codes "FS delete"; func = returned 0 }
    ∷ []

-- Whether the test function came back with a value that is not 0.
unfoldable pub passing : TestOutcome → ℕ
passing (returned (suc r)) = 1
passing _ = 0

unfoldable pub good : List TestInfo → ℕ
good [] = 0
good (t ∷ ts) = passing t.func + good ts

safe_run-passing :
    (o : TestOutcome)
    → ((safe_run o ≡ true) × (passing o ≡ 1)) ⊎ ((safe_run o ≡ false) × (passing o ≡ 0))
unfolding safe_run passing
safe_run-passing fork_failed = inr (refl, refl)
safe_run-passing killed = inr (refl, refl)
safe_run-passing (returned zero) = inr (refl, refl)
safe_run-passing (returned (suc r)) = inl (ground arith, refl)

-- What running `ts` adds to a report.
Adds : List TestInfo → Report → Report → Type 0
Adds ts r r' =
    (r'.passed ≡ r.passed + good ts)
    × (r'.failed + good ts ≡ r.failed + length ts)
    × (r'.counters.tests_passed ≡ r.counters.tests_passed + good ts)
    × (r'.counters.tests_failed + good ts ≡ r.counters.tests_failed + length ts)
    × (r'.counters.suites_run ≡ r.counters.suites_run)

run_test-Adds : (t : TestInfo) (r : Report) → Adds (t ∷ []) r (run_test t r)
unfolding run_test good Adds
run_test-Adds t r = elim (safe_run-passing t.func) [
  | inl (run, one) ↦ rw (run, one) (omega arith, omega arith, omega arith, omega arith, refl)
  | inr (run, zero_more) ↦
      rw (run, zero_more) (omega arith, omega arith, omega arith, omega arith, refl)
]

run_tests-Adds : (ts : List TestInfo) (r : Report) → Adds ts r (run_tests ts r)
unfolding run_tests good Adds
run_tests-Adds [] r = (omega arith, omega arith, omega arith, omega arith, refl)
run_tests-Adds (t ∷ ts) r =
    let (a, b, c, d, e) = run_tests-Adds ts (run_test t r) in
    let (a', b', c', d', e') = run_test-Adds t r in
    (omega arith, omega arith, omega arith, omega arith, e ∙ e')

-- A suite counts each test once, as passed if its function came back with a value that is not 0
-- and as failed otherwise, also in the global counters; it succeeds just if all tests passed.
pub safe_run_suite-good :
    (tests : List TestInfo) (g : Counters)
    → ((safe_run_suite tests g).0.passed ≡ good tests)
      × ((safe_run_suite tests g).0.passed + (safe_run_suite tests g).0.failed ≡ length tests)
      × ((safe_run_suite tests g).0.counters.tests_passed ≡ g.tests_passed + good tests)
      × ((safe_run_suite tests g).0.counters.tests_failed + good tests
          ≡ g.tests_failed + length tests)
      × ((safe_run_suite tests g).0.counters.suites_run ≡ g.suites_run + 1)
      × (((safe_run_suite tests g).1 ≡ true) ↔ (good tests ≡ length tests))
unfolding safe_run_suite Adds
safe_run_suite-good tests g =
    let (a, b, c, d, e) = run_tests-Adds tests (record {
      counters = record g { suites_run = g.suites_run + 1 };
      passed = 0;
      failed = 0;
      printed = [];
    }) in
    (omega arith, omega arith, c, d, e, (λ ok. ground arith, λ all. ground arith))
