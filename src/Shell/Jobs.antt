-- ===== src/Shell/Jobs.antt =====
-- hw1/process.c, and the process list of hw1/shell.c. A loop over the list runs on fuel.
use os_assignments.Base.{
  ltb, ℕ, zero, suc, ◌+◌, Bool, true, false, ◌||◌, not, Option, none, some, List, [], ◌∷◌, ◌==◌,
  if◌then◌else◌, codes, str_eq, ℤ, pos, negsuc,
}
use os_assignments.Shell.State.{
  Status, exited, signaled, stopped_by, Process, done, fault, blocked, out_of_fuel, Cmd, pure,
  ◌>>=◌, ◌>>◌, load, store, free,
}

-- `==` on `pid_t`.
unfoldable pub pid_eq : ℤ → ℤ → Bool
pid_eq (pos a) (pos b) = a == b
pid_eq (negsuc a) (negsuc b) = a == b
pid_eq _ _ = false

abbrev pub is_positive : ℤ → Bool
is_positive (pos zero) = false
is_positive (pos (suc n)) = true
is_positive (negsuc n) = false

-- The node of the list that no command is behind.
abbrev pub first_node : Process
first_node = record {
  argv = codes "first" ∷ [];
  pid = negsuc 0;
  completed = false;
  stopped = false;
  background = false;
  status = none;
  next = 0;
  prev = 0;
}

-- `init_process_list`, where `malloc` returns `fresh`, and gives `room n` bytes for `n`: the name
-- of the first node is copied with its NUL to where `malloc` was asked for the five bytes before it.
unfoldable pub init_process_list : (ℕ → ℕ) → ℕ → Cmd (Unit {0})
unfolding store
init_process_list room fresh = do
  if ltb 5 (room 5) then store fresh first_node else (λ _. fault)
  (λ h. done tt (record h { first_process = fresh }))

-- `while (q->next != NULL) q = q->next`
unfoldable pub last_from : ℕ → ℕ → Cmd ℕ
last_from zero q = λ _. out_of_fuel
last_from (suc k) q = do
  b ← load q
  let rest = last_from k b.next
  if b.next == 0 then pure q else rest

unfoldable pub add_process : ℕ → ℕ → Cmd (Unit {0})
add_process fuel p h =
    (do
      q ← last_from fuel h.first_process
      b ← load q
      store q (record b { next = p })
      n ← load p
      store p (record n { prev = q }))
      h

-- The node of that process, from `q` on.
unfoldable pub find_pid : ℕ → ℤ → ℕ → Cmd (Option ℕ)
find_pid zero pid q = λ _. out_of_fuel
find_pid (suc k) pid q = if q == 0 then pure none else (do
  b ← load q
  let rest = find_pid k pid b.next
  if pid_eq b.pid pid then pure (some q) else rest)

-- The fields that `mark_process_status` sets.
unfoldable pub marked : Process → Status → Process
marked p (stopped_by n) = record p { status = some (stopped_by n); stopped = true }
marked p (exited n) = record p { status = some (exited n); completed = true }
marked p (signaled n) = record p { status = some (signaled n); completed = true }

-- The result is the code's: 0, or -1.
unfoldable pub mark_process_status : ℕ → ℤ → Status → Cmd ℤ
unfolding marked
mark_process_status fuel pid status h =
    if is_positive pid
    then (do
      found ← find_pid fuel pid h.first_process
      (λ h'. elim found [
        | none ↦ done (negsuc 0) h'
        | some q ↦ (do b ← load q; store q (marked b status); pure (pos 0)) h'
      ]))
        h
    else done (negsuc 0) h

abbrev pub is_zero : ℤ → Bool
is_zero (pos zero) = true
is_zero (pos (suc n)) = false
is_zero (negsuc n) = false

-- The loop of `wait_for_process` over what `waitpid` returns, call by call.
unfoldable pub wait_for_process : ℕ → ℕ → List (ℤ × Status) → Cmd (Unit {0})
wait_for_process fuel p [] = λ _. blocked
wait_for_process fuel p ((pid, status) ∷ waits) = do
  r ← mark_process_status fuel pid status
  let rest = wait_for_process fuel p waits
  if not (is_zero r)
      then pure tt
      else (do b ← load p; if b.completed || b.stopped then pure tt else rest)

-- `kill` and the terminal calls change nothing here.
unfoldable pub put_process_in_background : ℕ → Bool → Cmd (Unit {0})
put_process_in_background p cont = do
  b ← load p
  store p (record b { stopped = if cont then false else b.stopped; background = true })

unfoldable pub put_process_in_foreground : ℕ → ℕ → Bool → List (ℤ × Status) → Cmd (Unit {0})
put_process_in_foreground fuel p cont waits = do
  b ← load p
  store p (record b { stopped = if cont then false else b.stopped; background = false })
  wait_for_process fuel p waits

-- `launch_process` in the shell, where `fork` returned `pid`; a fork that fails only prints.
unfoldable pub launch_process : ℕ → ℕ → ℤ → List (ℤ × Status) → Cmd (Unit {0})
launch_process fuel p pid waits =
    if is_positive pid
    then (do
      b ← load p
      store p (record b { pid = pid })
      if b.background
          then put_process_in_background p false
          else put_process_in_foreground fuel p false waits)
    else pure tt

-- The process that `cmd_fg` and `cmd_bg` act on with no argument: the last but one of the list,
-- unless that is the first; `none` is the code's -1.
unfoldable pub before_last : ℕ → Cmd (Option ℕ)
before_last fuel h =
    (do
      q ← last_from fuel h.first_process
      b ← load q
      if b.prev == h.first_process then pure none else pure (some b.prev))
      h

-- `pid` is `strtol` of the argument, if there is one.
unfoldable pub cmd_target : ℕ → Option ℤ → Cmd (Option ℕ)
unfolding before_last
cmd_target fuel none h = before_last fuel h
cmd_target fuel (some pid) h = find_pid fuel pid h.first_process h

unfoldable pub cmd_bg : ℕ → Option ℤ → Cmd ℤ
unfolding cmd_target
cmd_bg fuel arg = do
  target ← cmd_target fuel arg
  (λ h. elim target [
    | none ↦ done (negsuc 0) h
    | some p ↦ (do put_process_in_background p true; pure (pos 0)) h
  ])

unfoldable pub cmd_fg : ℕ → Option ℤ → List (ℤ × Status) → Cmd ℤ
unfolding cmd_target
cmd_fg fuel arg waits = do
  target ← cmd_target fuel arg
  (λ h. elim target [
    | none ↦ done (negsuc 0) h
    | some p ↦ (do b ← load p; put_process_in_foreground fuel p b.stopped waits; pure (pos 0)) h
  ])

-- A process that `num_active_proc` counts. `argv[0]` is read by `strcmp`, which faults on NULL.
unfoldable pub counts : Process → Option Bool
counts b =
    if b.stopped
    then some false
    else if b.completed
    then some false
    else elim b.argv [ [] ↦ none | name ∷ _ ↦ some (not (str_eq (codes "wait") name)) ]

-- The loop of `num_active_proc` from `q` on; the first node is passed over.
unfoldable pub active_from : ℕ → ℕ → ℕ → Cmd ℕ
unfolding counts
active_from zero q n h = out_of_fuel
active_from (suc k) q n h =
    if q == 0
    then done n h
    else (do
      b ← load q
      let next = active_from k b.next
      if q == h.first_process
          then next n
          else (λ h'. elim (counts b) [ none ↦ fault | some c ↦ next (if c then n + 1 else n) h' ]))
        h

unfoldable pub num_active_proc : ℕ → Cmd ℕ
unfolding active_from
num_active_proc fuel h = active_from fuel h.first_process 0 h

-- The loop of `cmd_wait` over what `waitpid` returns.
unfoldable pub cmd_wait : ℕ → List (ℤ × Status) → Cmd ℤ
cmd_wait fuel [] = do n ← num_active_proc fuel; if n == 0 then pure (pos 0) else (λ _. blocked)
cmd_wait fuel ((pid, status) ∷ waits) = do
  n ← num_active_proc fuel
  let rest = cmd_wait fuel waits
  if n == 0 then pure (pos 0) else (do mark_process_status fuel pid status; rest)

-- The body of the loop of `purge_proc_list` at a completed process: the links, and the `free` of
-- `destroy_process`.
unfoldable pub unlink_process : ℕ → Cmd (Unit {0})
unlink_process p = do
  b ← load p
  l ← load b.prev
  store b.prev (record l { next = b.next })
  (if b.next == 0 then pure tt else (do n ← load b.next; store b.next (record n { prev = b.prev })))
  free p

-- `for (p = first_process; p; p = p->next)`: the step reads `p->next` after the body.
unfoldable pub purge_from : ℕ → ℕ → Cmd (Unit {0})
unfolding unlink_process
purge_from zero p = λ _. out_of_fuel
purge_from (suc k) p = if p == 0 then pure tt else (do
  b ← load p
  (if b.completed then unlink_process p else pure tt)
  b' ← load p
  purge_from k b'.next)

unfoldable pub purge_proc_list : ℕ → Cmd (Unit {0})
unfolding purge_from
purge_proc_list fuel h = purge_from fuel h.first_process h
