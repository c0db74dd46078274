-- ===== src/Tcpd/Runs.antt =====
-- The service keeps every connection of its table well-formed.
use packages_repo_main.Tcpd.Events.{handle_event-AllConns}
use packages_repo_main.Tcpd.Received.{receive-IsConn, send_connection_payload-IsConn}
use packages_repo_main.Text.{Bytes}
use packages_repo_main.Tcpd.Service.{handle_event, first_context, Event, no_connection, serve}
use packages_repo_main.Tcpd.Wellformed.{
  u32_below, clear_pending_ack-IsConn, reset_connection-IsConn, IsConn,
}
use packages_repo_main.Tcpd.Invariant.{opened_endpoint, AllConns, KeepsConns}
use packages_repo_main.Tcpd.Outbound.{open_endpoint_of, new_outbound}
use packages_repo_main.Tcpd.Handlers.{initial_seq, open_new_endpoint, new_inbound}
use packages_repo_main.Tcpd.State.{
  close_descriptor, max_connections, syn_max_retransmits, Effect, Segment, Context, Net, Listener,
  Connection,
}
use packages_repo_main.Prelude.{
  inr, zero, inl, ◌∷◌, subst, ◌==◌, if◌then◌else◌, ◌+◌, refl, suc, Bool-cases, [], replicate, ◌≡◌,
  arith, get_elem?, ◌≤◌, Option, List, ℕ, none, some,
}

new_inbound-IsConn :
    (id : ℕ) (listener : Listener) (s : Segment) → IsConn (new_inbound id listener s)
unfolding new_inbound
new_inbound-IsConn id listener s = record {
  live = refl;
  few_bytes = omega arith;
  few_segments = omega arith;
  few_tries = omega arith;
  remote = u32_below (s.sequence_number + 1);
  own = u32_below (initial_seq listener.port id + 1);
}

endpoint-IsConn :
    (c : Connection) (handle id : ℕ)
    → IsConn c
    → IsConn (record c { endpoint_handle = handle; endpoint_id = id })
endpoint-IsConn c handle id h = record {
  live = h.live;
  few_bytes = h.few_bytes;
  few_segments = h.few_segments;
  few_tries = h.few_tries;
  remote = h.remote;
  own = h.own;
}

with_endpoint-IsConn :
    (c : Connection) (o : Option (ℕ × ℕ))
    → IsConn c
    → IsConn
        (elim o as (λ x. Connection × List Effect) [
          | none ↦ (c, [])
          | some (handle, id) ↦
              if id == 0
              then (c, close_descriptor handle ∷ [])
              else (record c { endpoint_handle = handle; endpoint_id = id }, [])
        ]).0
with_endpoint-IsConn c none h = h
with_endpoint-IsConn c (some p) h = elim (Bool-cases (p.1 == 0)) [
  | inl e ↦ rw e h
  | inr e ↦ rw e (endpoint-IsConn c p.0 p.1 h)
]

open_new_endpoint-IsConn :
    (net : Net) (c : Connection) → IsConn c → IsConn (open_new_endpoint net c).0
unfolding open_new_endpoint
open_new_endpoint-IsConn net c h = with_endpoint-IsConn c net.new_endpoint h

tries-IsConn :
    (c : Connection) (tries deadline : ℕ)
    → IsConn c
    → tries ≤ syn_max_retransmits
    → IsConn (record c { syn_retransmits = tries; syn_retry_deadline_ms = deadline })
tries-IsConn c tries deadline h few = record {
  live = h.live;
  few_bytes = h.few_bytes;
  few_segments = h.few_segments;
  few_tries = few;
  remote = h.remote;
  own = h.own;
}

new_outbound-IsConn :
    (id handle port : ℕ) (ip : Bytes) (remote endpoint : ℕ)
    → IsConn (new_outbound id handle port ip remote endpoint)
unfolding new_outbound
new_outbound-IsConn id handle port ip remote endpoint = record {
  live = refl;
  few_bytes = omega arith;
  few_segments = omega arith;
  few_tries = omega arith;
  remote = omega arith;
  own = u32_below (initial_seq port id + 1);
}

opened-IsConn :
    (net : Net) (c d : Connection) → IsConn c → open_endpoint_of net c ≡ some d → IsConn d
opened-IsConn net c d h e =
    let (handle, same) = opened_endpoint net c d e in
    subst IsConn same (endpoint-IsConn c handle c.endpoint_id h)

IsConn-KeepsConns : KeepsConns (λ i c. IsConn c)
IsConn-KeepsConns = record {
  freed = λ i c. reset_connection-IsConn c;
  acked = λ i c h. clear_pending_ack-IsConn c h;
  sent = λ net i c payload h. send_connection_payload-IsConn net c payload h;
  waits = λ i c deadline h. tries-IsConn c c.syn_retransmits deadline h h.few_tries;
  tried = λ i c deadline e h. tries-IsConn c (c.syn_retransmits + 1) deadline h (ground (arith, e));
  begun_in = λ net i id listener s.
      open_new_endpoint-IsConn net (new_inbound id listener s) (new_inbound-IsConn id listener s);
  begun_out = λ net i id handle port ip remote endpoint c e.
      opened-IsConn net (new_outbound id handle port ip remote endpoint) c
        (new_outbound-IsConn id handle port ip remote endpoint) e;
}

no_connection-IsConn : IsConn no_connection
no_connection-IsConn = record {
  live = refl;
  few_bytes = omega arith;
  few_segments = omega arith;
  few_tries = omega arith;
  remote = omega arith;
  own = omega arith;
}

replicate-AllConns :
    (n i : ℕ) (c : Connection) → get_elem? (replicate n no_connection) i ≡ some c → IsConn c
replicate-AllConns zero i c e = cc
replicate-AllConns (suc n) zero c e =
    (let same : no_connection ≡ c = cc e in subst IsConn same no_connection-IsConn)
replicate-AllConns (suc n) (suc i) c e = replicate-AllConns n i c e

run-AllConns :
    (ctx : Context) (events : List (Net × Event))
    → AllConns (λ i c. IsConn c) ctx.connections
    → AllConns (λ i c. IsConn c) (serve ctx events).connections
unfolding serve
run-AllConns ctx [] all = all
run-AllConns ctx (e ∷ es) all = run-AllConns (handle_event e.0 ctx e.1) es (
    handle_event-AllConns IsConn-KeepsConns e.0 ctx e.1
      (λ s i c same found. receive-IsConn e.0 c s (all.at i c found)) all)

-- Whatever the service handles from its start on, and whatever it is answered, each connection of its
-- table is in use unless it is closed, has fewer than 8192 bytes and 4 segments to acknowledge, was
-- begun again at most 3 times, and numbers its bytes with 32 bits.
pub serve-IsConn :
    (events : List (Net × Event)) (i : ℕ) (c : Connection)
    → get_elem? (serve first_context events).connections i ≡ some c
    → IsConn c
serve-IsConn events i c found =
    (run-AllConns first_context events (record { at = replicate-AllConns max_connections })).at i c
      found
