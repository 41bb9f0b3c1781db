-- ===== src/Http/Proxy.antt =====
-- hw2/httpserver.c: the relay loop of `handle_proxy_request`, and the loop of `serve_forever`.
-- The system calls' results are given, round by round.
use os_assignments.Base.{
  ℕ, Bool, true, false, List, [], ◌∷◌, ◌++◌, if◌then◌else◌, take, Bytes, ℤ, pos, negsuc,
}

-- One round of the relay loop: `select` fails, reports no descriptor, or reports the client, or
-- else the remote; a transfer has the bytes that `read` delivered and the result of `write`.
pub data Round : Type 0 where
  select_failed : Round
  quiet : Round
  client_ready : Bytes → ℤ → Round
  remote_ready : Bytes → ℤ → Round

-- The bytes that `write` took, by its result.
unfoldable pub wrote : Bytes → ℤ → Bytes
wrote bytes (pos n) = take n bytes
wrote bytes (negsuc n) = []

-- The loop's variables, and the bytes written to either side.
pub record Relay : Type 0 where
  pub socketsopen : Bool
  pub bytes_sent : ℤ
  pub to_remote : Bytes
  pub to_client : Bytes

-- `proxy_request` writes once, and returns what `write` returned.
unfoldable pub transfer : Relay → Round → Relay
unfolding wrote
transfer r select_failed = r
transfer r quiet = r
transfer r (client_ready bytes written) = record r {
  bytes_sent = written;
  to_remote = r.to_remote ++ wrote bytes written;
}
transfer r (remote_ready bytes written) = record r {
  bytes_sent = written;
  to_client = r.to_client ++ wrote bytes written;
}

abbrev pub is_negative : ℤ → Bool
is_negative (pos n) = false
is_negative (negsuc n) = true

unfoldable pub relay_round : Relay → Round → Relay
unfolding transfer
relay_round r e =
    let r' = transfer r e in
    if is_negative r'.bytes_sent then record r' { socketsopen = false } else r'

-- The loop over the rounds that come; it stops by itself only through `socketsopen`.
unfoldable pub relay_loop : Relay → List Round → Relay
unfolding relay_round
relay_loop r [] = r
relay_loop r (e ∷ es) =
    let next = relay_loop (relay_round r e) es in if r.socketsopen then next else r

abbrev pub relay_start : Relay
relay_start = record { socketsopen = true; bytes_sent = pos 0; to_remote = []; to_client = [] }

-- What `fork` returned, and in which process.
pub data Fork : Type 0 where
  in_parent in_child failed : Fork

-- What `accept` returned: an error, or a descriptor, and then the fork.
pub data Accept : Type 0 where
  refused : Accept
  accepted : ℕ → Fork → Accept

pub data Action : Type 0 where
  close : ℕ → Action
  handle : ℕ → Action
  exit_success : Action
  exit_errno : Action

-- The loop of `serve_forever` in one process, as what it does; `listener` is `*socket_number`.
unfoldable pub serve_loop : ℕ → List Accept → List Action
serve_loop listener [] = []
serve_loop listener (refused ∷ es) = serve_loop listener es
serve_loop listener (accepted fd in_parent ∷ es) = close fd ∷ serve_loop listener es
serve_loop listener (accepted fd in_child ∷ es) =
    close listener ∷ handle fd ∷ close fd ∷ exit_success ∷ []
serve_loop listener (accepted fd failed ∷ es) = exit_errno ∷ []
