-- ===== src/Http/Relaying.antt =====
-- The loops of hw2/httpserver.c over the rounds that come: the relay, the server, the options.
use os_assignments.Base.{
  ℕ, ◌≡◌, refl, true, false, List, [], ◌∷◌, ◌++◌, arith, Bytes, codes, All, ap, ◌∙◌, str_eq,
  append_assoc, append-nil,
}
use os_assignments.Http.Proxy.{
  Round, select_failed, quiet, client_ready, remote_ready, Relay, transfer, is_negative,
  relay_round, relay_loop, relay_start, wrote, Fork, in_parent, in_child, failed, Accept, refused,
  accepted, Action, close, handle, exit_success, serve_loop,
}
use os_assignments.Http.Options.{
  Config, serve, invalid_free, parse_options, set_files, set_proxy, atoi,
}

-- No `write` of the round fails.
abbrev pub Succeeds : Round → Type 0
Succeeds (client_ready _ w) = is_negative w ≡ false
Succeeds (remote_ready _ w) = is_negative w ≡ false
Succeeds _ = Unit

-- The bytes that the rounds read from the client and pass on.
unfoldable pub client_bytes : List Round → Bytes
client_bytes [] = []
client_bytes (client_ready b w ∷ es) = wrote b w ++ client_bytes es
client_bytes (_ ∷ es) = client_bytes es

unfoldable pub remote_bytes : List Round → Bytes
remote_bytes [] = []
remote_bytes (remote_ready b w ∷ es) = wrote b w ++ remote_bytes es
remote_bytes (_ ∷ es) = remote_bytes es

-- The relay after rounds that all succeed.
record Relayed (r : Relay) (es : List Round) (t : Relay) : Type 0 where
  pub stays_open : t.socketsopen ≡ true
  pub remote_got : t.to_remote ≡ r.to_remote ++ client_bytes es
  pub client_got : t.to_client ≡ r.to_client ++ remote_bytes es

relay_step :
    (r : Relay) (e : Round) (es : List Round)
    → r.socketsopen ≡ true
    → is_negative (transfer r e).bytes_sent ≡ false
    → relay_loop r (e ∷ es) ≡ relay_loop (transfer r e) es
unfolding relay_loop relay_round
relay_step r e es o n = simp (o, n)

relay_loop-Relayed :
    (es : List Round) (r : Relay)
    → r.socketsopen ≡ true
    → is_negative r.bytes_sent ≡ false
    → All Succeeds es
    → Relayed r es (relay_loop r es)
unfolding relay_loop client_bytes remote_bytes
relay_loop-Relayed [] r o n h = record {
  stays_open = o;
  remote_got = rw append-nil;
  client_got = rw append-nil;
}
relay_loop-Relayed (select_failed ∷ es) r o n h =
    let ih = relay_loop-Relayed es r o n h.1 in
    let e = relay_step r select_failed es o n in
    record {
      stays_open = rw e ih.stays_open;
      remote_got = rw e ih.remote_got;
      client_got = rw e ih.client_got;
    }
relay_loop-Relayed (quiet ∷ es) r o n h =
    let ih = relay_loop-Relayed es r o n h.1 in
    let e = relay_step r quiet es o n in
    record {
      stays_open = rw e ih.stays_open;
      remote_got = rw e ih.remote_got;
      client_got = rw e ih.client_got;
    }
relay_loop-Relayed (client_ready b w ∷ es) r o n h =
    let ih = relay_loop-Relayed es (transfer r (client_ready b w)) o h.0 h.1 in
    let e = relay_step r (client_ready b w) es o h.0 in
    record {
      stays_open = rw e ih.stays_open;
      remote_got = rw e (ih.remote_got ∙ append_assoc r.to_remote (wrote b w) (client_bytes es));
      client_got = rw e ih.client_got;
    }
relay_loop-Relayed (remote_ready b w ∷ es) r o n h =
    let ih = relay_loop-Relayed es (transfer r (remote_ready b w)) o h.0 h.1 in
    let e = relay_step r (remote_ready b w) es o h.0 in
    record {
      stays_open = rw e ih.stays_open;
      remote_got = rw e ih.remote_got;
      client_got = rw e (ih.client_got ∙ append_assoc r.to_client (wrote b w) (remote_bytes es));
    }

-- As long as no write fails, each side gets the bytes read from the other that `write` took, in
-- order, round by round, without the rest of a short write; and the loop stays open: a read of no
-- bytes, which is how a peer that hangs up shows, does not end it.
pub relay_loop_open :
    (es : List Round)
    → All Succeeds es
    → ((relay_loop relay_start es).socketsopen ≡ true)
      × ((relay_loop relay_start es).to_remote ≡ client_bytes es)
      × ((relay_loop relay_start es).to_client ≡ remote_bytes es)
relay_loop_open es h =
    let r = relay_loop-Relayed es relay_start refl refl h in
    (r.stays_open, r.remote_got, r.client_got)

-- After a write that fails no further round is made.
pub relay_loop_closes :
    (r : Relay) (e : Round) (es : List Round)
    → r.socketsopen ≡ true
    → is_negative (transfer r e).bytes_sent ≡ true
    → relay_loop r (e ∷ es) ≡ record (transfer r e) { socketsopen = false }
unfolding relay_loop relay_round
relay_loop_closes r e [] o n = simp (o, n)
relay_loop_closes r e (d ∷ es) o n = simp (o, n)

-- What the parent does with each connection up to the first fork in a child or failure.
unfoldable pub closes : List Accept → List Action
closes [] = []
closes (refused ∷ es) = closes es
closes (accepted fd f ∷ es) = close fd ∷ closes es

abbrev pub InParent : Accept → Type 0
InParent refused = Unit
InParent (accepted _ f) = f ≡ in_parent

serve_loop-step :
    (listener fd : ℕ) (f : Fork) (es : List Accept)
    → f ≡ in_parent
    → serve_loop listener (accepted fd f ∷ es) ≡ close fd ∷ serve_loop listener es
unfolding serve_loop
serve_loop-step listener fd in_parent es h = refl
serve_loop-step listener fd in_child es h = cc
serve_loop-step listener fd failed es h = cc

-- The parent closes its copy of each connection and goes on; the child of the connection behind
-- them closes the listener, handles the connection, closes it and exits, whatever follows.
pub serve_loop-child :
    (listener fd : ℕ) (before after : List Accept)
    → All InParent before
    → serve_loop listener (before ++ (accepted fd in_child ∷ after))
      ≡ closes before ++ (close listener ∷ handle fd ∷ close fd ∷ exit_success ∷ [])
unfolding serve_loop closes
serve_loop-child listener fd [] after h = refl
serve_loop-child listener fd (refused ∷ es) after h = serve_loop-child listener fd es after h.1
serve_loop-child listener fd (accepted c f ∷ es) after h =
    serve_loop-step listener c f _ h.0
    ∙ ap (◌∷◌ (close c)) (serve_loop-child listener fd es after h.1)

-- A second `--files` frees an argument of the command line.
pub files_twice :
    (c : Config) (dir dir' : Bytes) (rest : List Bytes)
    → c.allocated ≡ true
    → parse_options c (codes "--files" ∷ dir ∷ codes "--files" ∷ dir' ∷ rest) ≡ invalid_free
unfolding parse_options str_eq
files_twice c dir dir' rest h = rw h

-- The options that take effect: the last `--port` and `--proxy` win, and the handler is that of
-- the last of `--files` and `--proxy`.
pub last_option_wins :
    (c : Config) (dir target port port' : Bytes)
    → c.allocated ≡ true
    → parse_options c (
        codes "--port"
        ∷ port
        ∷ codes "--files"
        ∷ dir
        ∷ codes "--proxy"
        ∷ target
        ∷ codes "--port"
        ∷ port'
        ∷ [])
      ≡ serve (record (set_proxy (set_files c dir) target) { server_port = atoi port' })
unfolding parse_options str_eq
last_option_wins c dir target port port' h = ground arith
