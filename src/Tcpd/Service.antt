-- ===== src/Tcpd/Service.antt =====
-- network-services/src/tcpd.cpp: the messages that the main loop reads, and what it does for each.
use packages_repo_main.Tcpd.Tables.{emit}
use packages_repo_main.Tcpd.Retry.{service_outbound_syns}
use packages_repo_main.Tcpd.Outbound.{ConnectRequest}
use packages_repo_main.Tcpd.Requests.{
  handle_bind_response, handle_connect_request, handle_listen_request,
}
use packages_repo_main.Tcpd.Handlers.{
  handle_tcp_segment, handle_send_request, with_slot, handle_close_request,
}
use packages_repo_main.Text.{Bytes}
use packages_repo_main.Tcpd.State.{
  is_established, closed, PendingConnect, Connection, ClientPort, Listener, Segment,
  max_connections, Context, Net,
}
use packages_repo_main.Tcpd.Segments.{send_connection_payload, send_ack_now}
use packages_repo_main.Prelude.{
  false, replicate, [], ◌∷◌, set, ◌||◌, ◌==◌, not, ◌&&◌, zero, Bool, if◌then◌else◌, List, suc, ℕ,
  some,
}

-- One acknowledgment that was put off.
unfoldable pub flush_at : Net → Context → ℕ → Connection → Context
flush_at net ctx i conn =
    if conn.in_use && is_established conn.state && not (conn.pending_ack_segments == 0)
    then (let (acked, out) = send_ack_now net conn in
        emit (record ctx { connections = set ctx.connections i acked }) out)
    else ctx

unfoldable pub flush_pending_ack : Net → Context → ℕ → Context
flush_pending_ack net ctx i = with_slot ctx (some i) (flush_at net ctx)

-- The `n` slots from `i` on.
unfoldable pub flush_slots : Net → ℕ → ℕ → Context → Context
flush_slots net zero i ctx = ctx
flush_slots net (suc n) i ctx = flush_slots net n (suc i) (flush_pending_ack net ctx i)

unfoldable pub flush_pending_acks : Net → Context → Context
flush_pending_acks net ctx = flush_slots net max_connections 0 ctx

-- What the endpoint of a connection gives: the end of its data, or a payload.
pub data Endpoint : Type 0 where
  endpoint_end : Endpoint
  endpoint_data : Bytes → Endpoint

unfoldable pub read_at : Net → Context → Endpoint → ℕ → Connection → Context
read_at net ctx read i conn =
    if not (conn.in_use && is_established conn.state) || conn.endpoint_handle == 0
    then ctx
    else elim read [
      | endpoint_end ↦ handle_close_request net ctx conn.id
      | endpoint_data payload ↦
          let (conn', out) = send_connection_payload net conn payload in
          emit (record ctx { connections = set ctx.connections i conn' }) out
    ]

unfoldable pub read_endpoint : Net → Context → ℕ → Endpoint → Context
read_endpoint net ctx i read = with_slot ctx (some i) (read_at net ctx read)

-- What the main loop handles: the requests of programs, what an endpoint gives, the messages of the
-- network service, and the two things done between them.
pub data Event : Type 0 where
  listen_request : ℕ → ℕ → Event
  send_request : ℕ → Bytes → Event
  close_request : ℕ → Event
  connect_request : ConnectRequest → Event
  endpoint_read : ℕ → Endpoint → Event
  bind_answer : ℕ → Bool → Event
  tcp_segment : Segment → Event
  retry_time flush_time : Event

unfoldable pub handle_event : Net → Context → Event → Context
handle_event net ctx (listen_request reply_pipe_id port) =
    handle_listen_request net ctx reply_pipe_id port
handle_event net ctx (send_request id payload) = handle_send_request net ctx id payload
handle_event net ctx (close_request id) = handle_close_request net ctx id
handle_event net ctx (connect_request request) = handle_connect_request net ctx request
handle_event net ctx (endpoint_read i read) = read_endpoint net ctx i read
handle_event net ctx (bind_answer port ok) = handle_bind_response net ctx port ok
handle_event net ctx (tcp_segment segment) = handle_tcp_segment net ctx segment
handle_event net ctx retry_time = (service_outbound_syns net ctx).1
handle_event net ctx flush_time = flush_pending_acks net ctx

-- The main loop, over what it handles in turn, each with the answers of the outside.
unfoldable pub serve : Context → List (Net × Event) → Context
serve ctx [] = ctx
serve ctx (e ∷ rest) = serve (handle_event e.0 ctx e.1) rest

-- The state in which the main loop begins.
abbrev no_listener : Listener
no_listener = record { in_use = false; bound = false; port = 0; app_pipe_handle = 0 }

abbrev no_client_port : ClientPort
no_client_port = record { in_use = false; bound = false; binding_in_progress = false; port = 0 }

abbrev pub no_connection : Connection
no_connection = record {
  in_use = false;
  own_app_pipe_handle = false;
  id = 0;
  state = closed;
  remote_ip = 0 ∷ 0 ∷ 0 ∷ 0 ∷ [];
  local_port = 0;
  remote_port = 0;
  remote_next_seq = 0;
  local_next_seq = 0;
  pending_ack_bytes = 0;
  app_pipe_handle = 0;
  endpoint_handle = 0;
  endpoint_id = 0;
  pending_ack_segments = 0;
  syn_retransmits = 0;
  syn_retry_deadline_ms = 0;
  inbound = false;
}

abbrev no_pending : PendingConnect
no_pending = record {
  in_use = false;
  app_pipe_handle = 0;
  endpoint_id = 0;
  local_port = 0;
  remote_port = 0;
  remote_ip = 0 ∷ 0 ∷ 0 ∷ 0 ∷ [];
}

abbrev pub first_context : Context
first_context = record {
  listeners = replicate 8 no_listener;
  connections = replicate max_connections no_connection;
  client_ports = replicate 8 no_client_port;
  pending_connects = replicate 8 no_pending;
  next_connection_id = 0;
  out = [];
}
