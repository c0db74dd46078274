-- ===== src/Tcpd/Handlers.antt =====
-- network-services/src/tcpd.cpp: what the service does for each message.
use packages_repo_main.Text.{Bytes}
use packages_repo_main.Tcpd.Receive.{receive, observation}
use packages_repo_main.Tcpd.State.{is_established, u32}
use packages_repo_main.Tcpd.Tables.{
  close_handle, emit, react, recount_registry, close_connection, find_listener, reset_connection,
  find_connection, find_connection_by_tuple, allocate_connection,
}
use packages_repo_main.Tcpd.Segments.{
  max_payload, outgoing, send_connection_payload, send_network_segment,
}
use packages_repo_main.Tcpd.State.{
  inbound_syns, rx_segments, close_descriptor, local_close, bump, flag_syn, flag_ack, has, flag_fin,
  Effect, Segment, Connection, Listener, Net, Context, syn_received,
}
use packages_repo_main.Prelude.{
  ◌++◌, ◌∷◌, set, ◌||◌, length, ◌==◌, [], false, ltb, not, true, ◌*◌, if◌then◌else◌, Bool, List,
  ◌+◌, get_elem?, Option, ℕ, none, some,
}

abbrev pub at_connection : Context → Option Connection → (Connection → Context) → Context
at_connection ctx none go = ctx
at_connection ctx (some conn) go = go conn

-- A connection at a slot that was found.
abbrev pub with_slot : Context → Option ℕ → (ℕ → Connection → Context) → Context
with_slot ctx none go = ctx
with_slot ctx (some i) go = at_connection ctx (get_elem? ctx.connections i) (go i)

abbrev pub initial_seq : ℕ → ℕ → ℕ
initial_seq port id = u32 (1314127872 + port * 16 + id)

-- The connection that a first segment makes, before there is an endpoint.
unfoldable pub new_inbound : ℕ → Listener → Segment → Connection
new_inbound id listener segment = record {
  in_use = true;
  own_app_pipe_handle = false;
  id = id;
  state = syn_received;
  remote_ip = segment.source_ip;
  local_port = segment.destination_port;
  remote_port = segment.source_port;
  remote_next_seq = u32 (segment.sequence_number + 1);
  local_next_seq = u32 (initial_seq listener.port id + 1);
  pending_ack_bytes = 0;
  app_pipe_handle = listener.app_pipe_handle;
  endpoint_handle = 0;
  endpoint_id = 0;
  pending_ack_segments = 0;
  syn_retransmits = 0;
  syn_retry_deadline_ms = 0;
  inbound = true;
}

-- The endpoint that is opened for it; one without an id is closed again.
unfoldable pub open_new_endpoint : Net → Connection → Connection × List Effect
open_new_endpoint net conn = elim net.new_endpoint [
  | none ↦ (conn, [])
  | some (handle, id) ↦
      if id == 0
      then (conn, close_descriptor handle ∷ [])
      else (record conn { endpoint_handle = handle; endpoint_id = id }, [])
]

-- Whether the answer to a first segment was sent, with the effects.
unfoldable pub send_syn_ack : Net → Connection → ℕ → Bool × List Effect
unfolding send_network_segment
send_syn_ack net conn seq = elim net.address [
  | none ↦ (false, [])
  | some address ↦
      send_network_segment net
        (outgoing address conn seq conn.remote_next_seq (flag_syn + flag_ack) [])
]

unfoldable pub handle_new_connection : Net → Context → Listener → Segment → Context
handle_new_connection net ctx listener segment =
    if not (has segment.flags flag_syn) || has segment.flags flag_ack
    then ctx
    else let seen = emit ctx (bump inbound_syns ∷ []) in
      with_slot seen (allocate_connection seen) λ i free.
        let id = u32 (ctx.next_connection_id + 1) in
        let numbered = record seen { next_connection_id = id } in
        let (conn, opened) = open_new_endpoint net (new_inbound id listener segment) in
        let (sent, out) = send_syn_ack net conn (initial_seq listener.port id) in
        let told = emit numbered (opened ++ observation conn segment ∷ out) in
        if sent
        then recount_registry (record told { connections = set told.connections i conn })
        else emit (record told { connections = set told.connections i (reset_connection conn) })
            (close_handle conn.endpoint_handle)

unfoldable pub handle_tcp_segment : Net → Context → Segment → Context
handle_tcp_segment net ctx segment =
    let seen = emit ctx (bump rx_segments ∷ []) in
    elim (find_connection_by_tuple seen segment.destination_port segment.source_ip
      segment.source_port) [
        | some i ↦ with_slot seen (some i) λ i conn. react seen i (receive net conn segment)
        | none ↦ elim (find_listener seen segment.destination_port) [
          | none ↦ seen
          | some l ↦ elim (get_elem? seen.listeners l) [
            | none ↦ seen
            | some listener ↦
                if listener.bound then handle_new_connection net seen listener segment else seen
          ]
        ]
      ]

unfoldable pub handle_send_request : Net → Context → ℕ → Bytes → Context
handle_send_request net ctx id payload =
    if ltb max_payload (length payload)
    then ctx
    else with_slot ctx (find_connection ctx id) λ i conn.
      let (conn', out) = send_connection_payload net conn payload in
      emit (record ctx { connections = set ctx.connections i conn' }) out

-- The closing of the connection that was found.
unfoldable pub close_local : Net → Context → ℕ → Connection → Context
close_local net ctx i conn = if not (is_established conn.state) then ctx else elim net.address [
  | none ↦ ctx
  | some address ↦
      let segment =
        outgoing address conn conn.local_next_seq conn.remote_next_seq (flag_fin + flag_ack) [] in
      let ended = record conn { local_next_seq = u32 (conn.local_next_seq + 1) } in
      close_connection (emit ctx (send_network_segment net segment).1) i ended local_close
]

unfoldable pub handle_close_request : Net → Context → ℕ → Context
handle_close_request net ctx id = with_slot ctx (find_connection ctx id) (close_local net ctx)
