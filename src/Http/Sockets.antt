-- ===== src/Http/Sockets.antt =====
-- hw2/httpserver.c: the set-up of the sockets in front of its loops, and their end. The results of
-- the system calls are given.
use os_assignments.Base.{
  ℕ, Bool, false, List, [], ◌∷◌, ltb, ◌==◌, if◌then◌else◌, ℤ, pos, negsuc, Bytes, Option, none,
  some, ◌%◌, ◌^◌,
}
use os_assignments.Http.Proxy.{
  Round, Relay, relay_loop, relay_start, Accept, Action, exit_errno, serve_loop, is_negative,
}
use os_assignments.Http.Options.{Handler, serve, exit_with_usage, invalid_free, start}

-- `== -1`
unfoldable pub is_minus_one : ℤ → Bool
is_minus_one (pos n) = false
is_minus_one (negsuc n) = n == 0

-- The results of `socket`, `setsockopt`, `bind` and `listen`.
pub record Listening : Type 0 where
  pub socket : ℤ
  pub setsockopt : ℤ
  pub bind : ℤ
  pub listen : ℤ

-- `serve_forever`: a call that fails ends the process with `errno`; the descriptor of the socket is
-- not negative where there is one.
unfoldable pub serve_forever : Listening → ℕ → List Accept → List Action
unfolding is_minus_one
serve_forever calls listener accepts =
    if is_minus_one calls.socket
    then exit_errno ∷ []
    else if is_minus_one calls.setsockopt
    then exit_errno ∷ []
    else if is_minus_one calls.bind
    then exit_errno ∷ []
    else if is_minus_one calls.listen
    then exit_errno ∷ []
    else serve_loop listener accepts

-- How `handle_proxy_request` ends, if it does: with a status, after the bytes that were relayed; or
-- the loop goes on.
pub data Proxied : Type 0 where
  unknown_host : Proxied
  no_socket : Proxied
  hung_up : Relay → Proxied
  relaying : Relay → Proxied

-- `resolved` is whether `gethostbyname` knows the host; a `connect` that fails is only printed.
unfoldable pub handle_proxy_request : Bool → ℤ → List Round → Proxied
unfolding is_minus_one
handle_proxy_request resolved socket rounds =
    if resolved
    then (if is_minus_one socket
        then no_socket
        else (let r = relay_loop relay_start rounds in
            if r.socketsopen then relaying r else hung_up r))
    else unknown_host

-- `socket_isalive`, which does not look at its socket.
unfoldable pub socket_isalive : ℕ → ℕ
socket_isalive fd = let x : ℕ = 4 in if ltb 0 x then 1 else if x == 0 then 0 else 0

-- `struct sockaddr_in`, in the host's byte order.
pub record Address : Type 0 where
  pub sin_port : ℕ
  pub sin_addr : ℕ

-- `init_sockaddr`, whose `port` is a `uint16_t`; `gethostbyname` is given, and `none` is its NULL, at
-- which the process exits.
unfoldable pub init_sockaddr : (Bytes → Option ℕ) → Bytes → ℕ → Option Address
init_sockaddr gethostbyname hostname port = elim (gethostbyname hostname) [
  | none ↦ none
  | some host ↦ some (record { sin_port = port % 2 ^ 16; sin_addr = host })
]

-- How `main` ends: by the usage text, by the invalid `free`, or in `serve_forever` with a handler.
pub data Ending : Type 0 where
  usage : Ending
  crash : Ending
  served : Handler → List Action → Ending

-- `main`: the options, and `serve_forever` with the handler that they choose.
unfoldable pub main : Bytes → List Bytes → Listening → ℕ → List Accept → Ending
unfolding serve_forever start
main cwd args calls listener accepts = elim (start cwd args) [
  | exit_with_usage ↦ usage
  | invalid_free ↦ crash
  | serve c ↦ served c.request_handler (serve_forever calls listener accepts)
]

-- What `signal_callback_handler` does: the descriptor closed, whether `perror` is called, and the
-- status that `exit` is given. The result of `close` is given.
pub record Caught : Type 0 where
  pub closed : ℕ
  pub complained : Bool
  pub status : ℕ

unfoldable pub signal_callback_handler : (ℕ → ℤ) → ℕ → ℕ → Caught
signal_callback_handler close server_fd signum = record {
  closed = server_fd;
  complained = is_negative (close server_fd);
  status = signum;
}
