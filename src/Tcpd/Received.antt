-- ===== src/Tcpd/Received.antt =====
-- The segments that a connection receives and sends keep it well-formed.
use packages_repo_main.Tcpd.State.{u32}
use packages_repo_main.Tcpd.Wellformed.{
  establish-IsConn, u32_below, clear_pending_ack-IsConn, is_closed, accept_rest-IsConn, IsConn,
}
use packages_repo_main.Text.{Bytes}
use packages_repo_main.Tcpd.Segments.{
  send_network_segment, outgoing, max_payload, send_ack_now, send_connection_payload,
}
use packages_repo_main.Tcpd.Receive.{
  observation, stay, Reaction, receive_reset, receive, receive_established, receive_syn_sent,
  receive_syn_received,
}
use packages_repo_main.Tcpd.State.{
  flag_psh, accept_event, established_count, is_established, remote_fins, bump, flag_ack, flag_rst,
  flag_syn, has, ConnectionState, Segment, Connection, Net, closed, syn_received, syn_sent,
  established,
}
use packages_repo_main.Prelude.{
  if◌then◌else◌, Option-cases, ◌∷◌, ap, ◌+◌, ◌∙◌, refl, ◌||◌, not, length, inr, [], ◌&&◌, inl, ltb,
  ◌==◌, Bool-cases, ◌≡◌,
}

receive_syn_received-IsConn :
    (net : Net) (c : Connection) (s : Segment)
    → IsConn c
    → c.state ≡ syn_received
    → IsConn (receive_syn_received net c s).conn
unfolding receive_syn_received
receive_syn_received-IsConn net c s h e =
    let again =
      has s.flags flag_syn
      && not (has s.flags flag_ack)
      && u32 (s.sequence_number + 1) == c.remote_next_seq in
    let answers =
      has s.flags flag_ack
      && s.acknowledgment_number == c.local_next_seq
      && s.sequence_number == c.remote_next_seq in
    elim (Bool-cases again) [
      | inl a ↦ rw a h
      | inr a ↦ elim (Bool-cases answers) [
        | inl b ↦
            rw (a, b)
              (accept_rest-IsConn net (record c { state = established }) s
                (bump established_count
                  ∷ observation c s
                  ∷ accept_event (record c { state = established })
                  ∷ [])
                [] (establish-IsConn c h (ap is_closed e)))
        | inr b ↦ rw (a, b) h
      ]
    ]

receive_syn_sent-IsConn :
    (net : Net) (c : Connection) (s : Segment)
    → IsConn c
    → c.state ≡ syn_sent
    → IsConn (receive_syn_sent net c s).conn
unfolding receive_syn_sent
receive_syn_sent-IsConn net c s h e =
    let answers =
      has s.flags flag_syn && has s.flags flag_ack && s.acknowledgment_number == c.local_next_seq in
    elim (Bool-cases answers) [
      | inl a ↦ rw a (record {
        live = h.live ∙ ap (λ t. not (is_closed t)) e;
        few_bytes = h.few_bytes;
        few_segments = h.few_segments;
        few_tries = h.few_tries;
        remote = u32_below (s.sequence_number + 1);
        own = h.own;
      })
      | inr a ↦ rw a h
    ]

receive_established-IsConn :
    (net : Net) (c : Connection) (s : Segment)
    → IsConn c
    → IsConn (receive_established net c s).conn
unfolding receive_established send_ack_now
receive_established-IsConn net c s h = elim (Bool-cases (s.sequence_number == c.remote_next_seq)) [
  | inl e ↦ rw e (accept_rest-IsConn net c s [] (bump remote_fins ∷ []) h)
  | inr e ↦ rw e (clear_pending_ack-IsConn c h)
]

by_state :
    (net : Net) (c : Connection) (s : Segment) (t : ConnectionState)
    → IsConn c
    → c.state ≡ t
    → IsConn
        (elim t as (λ x. Reaction) [
          | syn_received ↦ receive_syn_received net c s
          | syn_sent ↦ receive_syn_sent net c s
          | established ↦ receive_established net c s
          | closed ↦ stay c []
        ]).conn
by_state net c s closed h e = h
by_state net c s syn_received h e = receive_syn_received-IsConn net c s h e
by_state net c s syn_sent h e = receive_syn_sent-IsConn net c s h e
by_state net c s established h e = receive_established-IsConn net c s h

pub receive-IsConn :
    (net : Net) (c : Connection) (s : Segment) → IsConn c → IsConn (receive net c s).conn
unfolding receive receive_reset
receive-IsConn net c s h = elim (Bool-cases (has s.flags flag_rst)) [
  | inl e ↦ rw e h
  | inr e ↦ rw e (by_state net c s c.state h refl)
]

pub send_connection_payload-IsConn :
    (net : Net) (c : Connection) (payload : Bytes)
    → IsConn c
    → IsConn (send_connection_payload net c payload).0
unfolding send_connection_payload
send_connection_payload-IsConn net c payload h =
    elim (Bool-cases (ltb max_payload (length payload) || not (is_established c.state))) [
      | inl e ↦ rw e h
      | inr e ↦ elim (Option-cases net.address) [
        | inl a ↦ simp (e, a) h
        | inr (address, a) ↦
            (let segment =
                outgoing address c c.local_next_seq c.remote_next_seq
                  (if length payload == 0 then flag_ack else flag_ack + flag_psh) payload in
              elim (Bool-cases (send_network_segment net segment).0) [
                | inl b ↦
                    simp (e, a, b)
                      (clear_pending_ack-IsConn
                        (record c { local_next_seq = u32 (c.local_next_seq + length payload) })
                        (record {
                          live = h.live;
                          few_bytes = h.few_bytes;
                          few_segments = h.few_segments;
                          few_tries = h.few_tries;
                          remote = h.remote;
                          own = u32_below (c.local_next_seq + length payload);
                        }))
                | inr b ↦ simp (e, a, b) h
              ])
      ]
    ]
