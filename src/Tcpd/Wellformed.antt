-- ===== src/Tcpd/Wellformed.antt =====
-- What holds of every connection in the table, and the steps on one connection that keep it.
use packages_repo_main.Tcpd.Payload.{ahead}
use packages_repo_main.Text.{Bytes}
use packages_repo_main.Tcpd.State.{u32}
use packages_repo_main.Tcpd.Receive.{accept_fin, accept_rest, accept_payload}
use packages_repo_main.Tcpd.Segments.{
  send_data_event, note_pending, send_ack_now, note_received_payload_for_ack, clear_pending_ack,
}
use packages_repo_main.Tcpd.Tables.{reset_connection}
use packages_repo_main.Tcpd.State.{
  flag_fin, has, syn_max_retransmits, Effect, ack_flush_segments, ack_flush_bytes, Segment, Net,
  Connection, ConnectionState, closed, syn_received, syn_sent, established,
}
use packages_repo_main.Prelude.{
  ◌++◌, inr, inl, [], ◌==◌, Bool-cases, length, if◌then◌else◌, refl, ◌≤◌, ap, ◌∙◌, List, false, ◌+◌,
  ◌<◌, not, true, arith, ◌≡◌, Bool, ℕ,
}

abbrev pub is_closed : ConnectionState → Bool
is_closed closed = true
is_closed syn_received = false
is_closed syn_sent = false
is_closed established = false

-- A connection is in use unless it is closed, less is put off than what makes an acknowledgment due,
-- at most three retries were made, and the numbers are those of 32 bits.
pub record IsConn (c : Connection) : Type 0 where
  pub live : c.in_use ≡ not (is_closed c.state)
  pub few_bytes : c.pending_ack_bytes < ack_flush_bytes
  pub few_segments : c.pending_ack_segments < ack_flush_segments
  pub few_tries : c.syn_retransmits ≤ syn_max_retransmits
  pub remote : c.remote_next_seq < 4294967296
  pub own : c.local_next_seq < 4294967296

-- What holds on both branches of a test holds of its value.
pub branch : {A : Type 0} (P : A → Type 0) (b : Bool) (x y : A) → P x → P y → P (if b then x else y)
branch P true x y p q = p
branch P false x y p q = q

pub u32_below : (n : ℕ) → u32 n < 4294967296
u32_below n = omega arith

pub reset_connection-IsConn : (c : Connection) → IsConn (reset_connection c)
unfolding reset_connection
reset_connection-IsConn c = record {
  live = refl;
  few_bytes = omega arith;
  few_segments = omega arith;
  few_tries = omega arith;
  remote = omega arith;
  own = omega arith;
}

pub clear_pending_ack-IsConn : (c : Connection) → IsConn c → IsConn (clear_pending_ack c)
unfolding clear_pending_ack
clear_pending_ack-IsConn c h = record {
  live = h.live;
  few_bytes = omega arith;
  few_segments = omega arith;
  few_tries = h.few_tries;
  remote = h.remote;
  own = h.own;
}

advance-IsConn :
    (c : Connection) (n : ℕ)
    → IsConn c
    → IsConn (record c { remote_next_seq = u32 (c.remote_next_seq + n) })
advance-IsConn c n h = record {
  live = h.live;
  few_bytes = h.few_bytes;
  few_segments = h.few_segments;
  few_tries = h.few_tries;
  remote = u32_below (c.remote_next_seq + n);
  own = h.own;
}

note-IsConn :
    (net : Net) (c : Connection) (k : ℕ)
    → IsConn c
    → IsConn (note_received_payload_for_ack net c k).0
unfolding note_received_payload_for_ack send_ack_now note_pending clear_pending_ack
note-IsConn net c k h = record {
  live = ground (arith, h.live);
  few_bytes = ground arith;
  few_segments = ground arith;
  few_tries = ground (arith, h.few_tries);
  remote = ground (arith, h.remote);
  own = ground (arith, h.own);
}

accept_payload-IsConn :
    (net : Net) (c : Connection) (payload : Bytes)
    → IsConn c
    → IsConn (accept_payload net c payload).0
unfolding accept_payload
accept_payload-IsConn net c payload h =
    branch (λ (r : Connection × List Effect). IsConn r.0) (length payload == 0) (c, [])
      (
        (note_received_payload_for_ack net (ahead c payload) (length payload)).0,
        send_data_event net (ahead c payload) payload
            ++ (note_received_payload_for_ack net (ahead c payload) (length payload)).1,
      )
      h (note-IsConn net (ahead c payload) (length payload) (advance-IsConn c (length payload) h))

pub accept_rest-IsConn :
    (net : Net) (c : Connection) (s : Segment) (before fins : List Effect)
    → IsConn c
    → IsConn (accept_rest net c s before fins).conn
unfolding accept_rest accept_fin send_ack_now
accept_rest-IsConn net c s before fins h =
    let taken = (accept_payload net c s.payload).0 in
    let kept = accept_payload-IsConn net c s.payload h in
    elim (Bool-cases (has s.flags flag_fin)) [
      | inl e ↦ rw e (
          clear_pending_ack-IsConn
            (record taken { remote_next_seq = u32 (taken.remote_next_seq + 1) })
            (advance-IsConn taken 1 kept))
      | inr e ↦ rw e kept
    ]

pub establish-IsConn :
    (c : Connection)
    → IsConn c
    → is_closed c.state ≡ false
    → IsConn (record c { state = established })
establish-IsConn c h e = record {
  live = h.live ∙ ap not e;
  few_bytes = h.few_bytes;
  few_segments = h.few_segments;
  few_tries = h.few_tries;
  remote = h.remote;
  own = h.own;
}
