-- ===== src/Tcpd/Retry.antt =====
-- network-services/src/tcpd.cpp: `service_outbound_syns`, the first segments that are sent again.
use packages_repo_main.Tcpd.State.{u32}
use packages_repo_main.Tcpd.Receive.{is_syn_sent}
use packages_repo_main.Tcpd.Segments.{outgoing, send_network_segment}
use packages_repo_main.Tcpd.Tables.{
  close_handle, emit, release_client_port, recount_registry, reset_connection,
}
use packages_repo_main.Tcpd.State.{
  outbound_syn_retransmits, flag_syn, outbound_connect_timeouts, bump, status_io,
  syn_initial_retry_ms, connect_response, syn_max_retransmits, max_connections, Connection, Net,
  Context,
}
use packages_repo_main.Prelude.{
  ◌^◌, ◌*◌, [], ◌++◌, ◌||◌, ltb, ◌∷◌, true, ◌+◌, set, ◌&&◌, ◌==◌, leb, zero, if◌then◌else◌, false,
  suc, get_elem?, ℕ, Bool, none, some,
}

-- A connection in `syn_sent` whose time has come: the last attempt is given up, or the first segment
-- is sent again and the next attempt comes twice as late.
unfoldable pub retry_syn : Net → ℕ → Context → ℕ → Connection → Context
retry_syn net now ctx i conn =
    if leb syn_max_retransmits conn.syn_retransmits
    then (let told = emit ctx (
          connect_response conn.app_pipe_handle status_io 0 conn.local_port 0
            ∷ close_handle conn.endpoint_handle
          ++ close_handle conn.app_pipe_handle) in
        emit
          (release_client_port
            (record told { connections = set told.connections i (reset_connection conn) })
            conn.local_port)
          (bump outbound_connect_timeouts ∷ []))
    else elim net.address [
      | none ↦ record ctx {
        connections =
            set ctx.connections i
              (record conn { syn_retry_deadline_ms = now + syn_initial_retry_ms });
      }
      | some address ↦
          let (sent, out) =
            send_network_segment net
              (outgoing address conn (u32 (conn.local_next_seq + 4294967295)) 0 flag_syn []) in
          let tried = conn.syn_retransmits + 1 in
          emit
            (record ctx {
              connections = set ctx.connections i (record conn {
                syn_retransmits = tried;
                syn_retry_deadline_ms = now + syn_initial_retry_ms * 2 ^ tried;
              });
            })
            (out ++ (if sent then bump outbound_syn_retransmits ∷ [] else []))
    ]

-- What the loop of `service_outbound_syns` keeps: the state and its two flags.
pub record Service : Type 0 where
  pub ctx : Context
  pub pending : Bool
  pub recounts : Bool

-- One round, for a connection in `syn_sent`.
unfoldable pub service_syn : Net → ℕ → Service → ℕ → Connection → Service
service_syn net now s i conn =
    if conn.syn_retry_deadline_ms == 0
    then record {
      ctx = record s.ctx {
        connections =
            set s.ctx.connections i
              (record conn { syn_retry_deadline_ms = now + syn_initial_retry_ms });
      };
      pending = true;
      recounts = s.recounts;
    }
    else if ltb now conn.syn_retry_deadline_ms
    then record { ctx = s.ctx; pending = true; recounts = s.recounts }
    else record {
      ctx = retry_syn net now s.ctx i conn;
      pending = true;
      recounts = s.recounts || leb syn_max_retransmits conn.syn_retransmits;
    }

unfoldable pub service_slot : Net → ℕ → Service → ℕ → Service
service_slot net now s i = elim (get_elem? s.ctx.connections i) [
  | none ↦ s
  | some conn ↦ if conn.in_use && is_syn_sent conn.state then service_syn net now s i conn else s
]

-- The `n` slots from `i` on.
unfoldable pub service_slots : Net → ℕ → ℕ → ℕ → Service → Service
service_slots net now zero i s = s
service_slots net now (suc n) i s = service_slots net now n (suc i) (service_slot net now s i)

-- Whether a connection is in `syn_sent`, and the state.
unfoldable pub service_outbound_syns : Net → Context → Bool × Context
service_outbound_syns net ctx = elim net.now_ms [
  | none ↦ (false, ctx)
  | some now ↦
      let s =
        service_slots net now max_connections 0
          (record { ctx = ctx; pending = false; recounts = false }) in
      (s.pending, if s.recounts then recount_registry s.ctx else s.ctx)
]
