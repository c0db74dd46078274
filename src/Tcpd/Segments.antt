-- ===== src/Tcpd/Segments.antt =====
-- network-services/src/tcpd.cpp: the segments that are sent for a connection, and the
-- acknowledgments that are put off. A function returns the connection and the effects, in order.
use packages_repo_main.Tcpd.State.{endpoint_write, is_established, u32}
use packages_repo_main.Tcpd.State.{flag_psh, flag_syn, flag_ack, bump}
use packages_repo_main.Prelude.{zero, ◌++◌, take, drop, suc, not, none, some}
use packages_repo_main.Text.{Bytes}
use packages_repo_main.Tcpd.State.{
  tx_segments, ack_flush_segments, transmit, data_event, ack_flush_bytes, Effect, Outgoing,
  Connection, Net,
}
use packages_repo_main.Prelude.{
  ◌∷◌, ◌||◌, true, false, [], ◌+◌, length, ◌==◌, ◌-◌, ltb, leb, Bool, if◌then◌else◌, List, ℕ,
}

abbrev pub max_payload : ℕ
max_payload = 1460

-- Whether the segment was sent, with the effects.
unfoldable pub send_network_segment : Net → Outgoing → Bool × List Effect
send_network_segment net segment =
    if ltb max_payload (length segment.payload)
    then (false, [])
    else if net.takes segment
    then (true, transmit segment ∷ bump tx_segments ∷ [])
    else (false, [])

abbrev pub outgoing : Bytes → Connection → ℕ → ℕ → ℕ → Bytes → Outgoing
outgoing address conn seq ack flags payload = record {
  source_ip = address;
  destination_ip = conn.remote_ip;
  source_port = conn.local_port;
  destination_port = conn.remote_port;
  sequence_number = seq;
  acknowledgment_number = ack;
  flags = flags;
  payload = payload;
}

unfoldable pub send_ack_only : Net → Connection → List Effect
unfolding send_network_segment
send_ack_only net conn = elim net.address [
  | none ↦ []
  | some address ↦
      (send_network_segment net
        (outgoing address conn conn.local_next_seq conn.remote_next_seq flag_ack [])).1
]

unfoldable pub clear_pending_ack : Connection → Connection
clear_pending_ack conn = record conn { pending_ack_bytes = 0; pending_ack_segments = 0 }

unfoldable pub send_ack_now : Net → Connection → Connection × List Effect
unfolding send_ack_only clear_pending_ack
send_ack_now net conn = (clear_pending_ack conn, send_ack_only net conn)

-- The counting of what is still to be acknowledged; neither count wraps.
unfoldable pub note_pending : Connection → ℕ → Connection
note_pending conn payload_length = record conn {
  pending_ack_bytes =
      if leb conn.pending_ack_bytes (4294967295 - payload_length)
      then conn.pending_ack_bytes + payload_length
      else 4294967295;
  pending_ack_segments =
      if conn.pending_ack_segments == 255 then 255 else conn.pending_ack_segments + 1;
}

unfoldable pub note_received_payload_for_ack : Net → Connection → ℕ → Connection × List Effect
unfolding note_pending send_ack_now
note_received_payload_for_ack net conn payload_length =
    if payload_length == 0
    then (conn, [])
    else let noted = note_pending conn payload_length in
      if leb ack_flush_bytes noted.pending_ack_bytes
        || leb ack_flush_segments noted.pending_ack_segments
      then send_ack_now net noted
      else (noted, [])

-- The loop that writes to an endpoint, with the bytes that the endpoint took: a write that fails ends
-- it. One that would block is tried again, until the endpoint answers something else. Each other round
-- takes at least one byte, so the loop has at most as many rounds as there are bytes.
unfoldable pub write_bytes : Net → ℕ → ℕ → Bytes → Bytes
write_bytes net handle zero payload = []
write_bytes net handle (suc rounds) [] = []
write_bytes net handle (suc rounds) (b ∷ bs) =
    let taken = net.takes_bytes handle (b ∷ bs) in
    let rest = write_bytes net handle rounds (drop taken (b ∷ bs)) in
    if taken == 0 then [] else take taken (b ∷ bs) ++ rest

unfoldable pub send_data_event : Net → Connection → Bytes → List Effect
send_data_event net conn payload =
    if ltb max_payload (length payload)
    then []
    else if not (conn.endpoint_handle == 0)
    then endpoint_write conn.endpoint_handle
        (write_bytes net conn.endpoint_handle (length payload) payload)
      ∷ []
    else if net.takes_payload conn.app_pipe_handle payload
    then data_event conn.id payload ∷ []
    else []

unfoldable pub resend_syn_ack : Net → Connection → List Effect
unfolding send_network_segment
resend_syn_ack net conn = elim net.address [
  | none ↦ []
  | some address ↦
      (send_network_segment net (
        outgoing address conn (u32 (conn.local_next_seq + 4294967295)) conn.remote_next_seq
          (flag_syn + flag_ack) [])).1
]

-- `handle_send_request` and `send_connection_payload`, for the connection that was found.
unfoldable pub send_connection_payload : Net → Connection → Bytes → Connection × List Effect
unfolding send_network_segment clear_pending_ack
send_connection_payload net conn payload =
    if ltb max_payload (length payload) || not (is_established conn.state)
    then (conn, [])
    else elim net.address [
      | none ↦ (conn, [])
      | some address ↦
          let segment =
            outgoing address conn conn.local_next_seq conn.remote_next_seq
              (if length payload == 0 then flag_ack else flag_ack + flag_psh) payload in
          let (sent, out) = send_network_segment net segment in
          if sent
          then (
            clear_pending_ack
                (record conn { local_next_seq = u32 (conn.local_next_seq + length payload) }),
            out,
          )
          else (conn, out)
    ]
