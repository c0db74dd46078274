-- ===== src/Tcpd/Receive.antt =====
-- network-services/src/tcpd.cpp: `handle_existing_connection`, for the connection that a segment
-- belongs to.
use packages_repo_main.Tcpd.State.{u32}
use packages_repo_main.Text.{Bytes}
use packages_repo_main.Tcpd.Segments.{
  note_received_payload_for_ack, send_ack_only, resend_syn_ack, send_ack_now, send_data_event,
}
use packages_repo_main.Tcpd.State.{
  wait_ack_mismatch, accept_event, established_count, status_ok, syn_ack_retransmits, remote_rst,
  flag_ack, status_not_found, remote_fin, remote_fins, connect_response, flag_rst, flag_syn,
  flag_fin, CloseReason, remote_resets, has, observe, bump, Effect, Segment, Net, ConnectionState,
  Connection, closed, syn_received, syn_sent, established,
}
use packages_repo_main.Prelude.{
  not, ◌&&◌, ◌++◌, ◌∷◌, ◌+◌, [], ◌==◌, length, false, Option, if◌then◌else◌, true, Bool, List, none,
  some,
}

-- What a segment does to its connection: the connection after it, the effects, and whether the
-- connection is then closed, or the registry counted again.
pub record Reaction : Type 0 where
  pub conn : Connection
  pub out : List Effect
  pub closing : Option CloseReason
  pub recounts : Bool

abbrev pub stay : Connection → List Effect → Reaction
stay conn out = record { conn = conn; out = out; closing = none; recounts = false }

abbrev pub is_syn_sent : ConnectionState → Bool
is_syn_sent syn_sent = true
is_syn_sent closed = false
is_syn_sent syn_received = false
is_syn_sent established = false

unfoldable pub observation : Connection → Segment → Effect
observation conn segment = observe segment conn.remote_next_seq conn.local_next_seq

-- The payload of a segment that is next in order.
unfoldable pub accept_payload : Net → Connection → Bytes → Connection × List Effect
unfolding send_data_event note_received_payload_for_ack
accept_payload net conn payload =
    if length payload == 0
    then (conn, [])
    else let ahead = record conn {
      remote_next_seq = u32 (conn.remote_next_seq + length payload);
    } in
      let (noted, acks) = note_received_payload_for_ack net ahead (length payload) in
      (noted, send_data_event net ahead payload ++ acks)

-- The end of the remote stream.
unfoldable pub accept_fin : Net → Connection → Connection × List Effect
unfolding send_ack_now
accept_fin net conn =
    send_ack_now net (record conn { remote_next_seq = u32 (conn.remote_next_seq + 1) })

-- Payload and end of a segment in order; `fins` is what is counted for the end.
unfoldable pub accept_rest : Net → Connection → Segment → List Effect → List Effect → Reaction
unfolding accept_payload accept_fin
accept_rest net conn segment before fins =
    let (taken, delivered) = accept_payload net conn segment.payload in
    if has segment.flags flag_fin
    then (let (ended, acks) = accept_fin net taken in
        record {
          conn = ended;
          out = before ++ delivered ++ fins ++ acks;
          closing = some remote_fin;
          recounts = false;
        })
    else stay taken (before ++ delivered)

unfoldable pub receive_reset : Connection → Segment → Reaction
unfolding observation
receive_reset conn segment = record {
  conn = conn;
  out =
      bump remote_resets
      ∷ observation conn segment
      ∷ (if is_syn_sent conn.state
          then connect_response conn.app_pipe_handle status_not_found 0 conn.local_port 0 ∷ []
          else []);
  closing = some remote_rst;
  recounts = false;
}

unfoldable pub receive_syn_received : Net → Connection → Segment → Reaction
unfolding observation resend_syn_ack accept_rest
receive_syn_received net conn segment =
    if has segment.flags flag_syn
      && not (has segment.flags flag_ack)
      && u32 (segment.sequence_number + 1) == conn.remote_next_seq
    then stay conn (bump syn_ack_retransmits ∷ observation conn segment ∷ resend_syn_ack net conn)
    else if has segment.flags flag_ack
        && segment.acknowledgment_number == conn.local_next_seq
        && segment.sequence_number == conn.remote_next_seq
    then (let live = record conn { state = established } in
        accept_rest net live segment
          (bump established_count ∷ observation conn segment ∷ accept_event live ∷ []) [])
    else stay conn (bump wait_ack_mismatch ∷ observation conn segment ∷ [])

unfoldable pub receive_syn_sent : Net → Connection → Segment → Reaction
unfolding observation send_ack_only
receive_syn_sent net conn segment =
    if has segment.flags flag_syn
      && has segment.flags flag_ack
      && segment.acknowledgment_number == conn.local_next_seq
    then (let live = record conn {
      remote_next_seq = u32 (segment.sequence_number + 1);
      state = established;
      syn_retry_deadline_ms = 0;
    } in
        record {
          conn = live;
          out =
              send_ack_only net live
              ++ connect_response live.app_pipe_handle status_ok live.id live.local_port
                  live.endpoint_id
                ∷ bump established_count
                ∷ observation live segment
                ∷ [];
          closing = none;
          recounts = true;
        })
    else stay conn []

unfoldable pub receive_established : Net → Connection → Segment → Reaction
unfolding send_ack_now accept_rest
receive_established net conn segment =
    if segment.sequence_number == conn.remote_next_seq
    then accept_rest net conn segment [] (bump remote_fins ∷ [])
    else (let (acked, acks) = send_ack_now net conn in stay acked acks)

unfoldable pub receive : Net → Connection → Segment → Reaction
unfolding receive_reset receive_syn_received receive_syn_sent receive_established
receive net conn segment =
    if has segment.flags flag_rst then receive_reset conn segment else elim conn.state [
      | syn_received ↦ receive_syn_received net conn segment
      | syn_sent ↦ receive_syn_sent net conn segment
      | established ↦ receive_established net conn segment
      | closed ↦ stay conn []
    ]
