-- ===== src/Tcpd/Handshake.antt =====
-- When a connection becomes established.
use packages_repo_main.Tcpd.Events.{handle_event-AllConns}
use packages_repo_main.Tcpd.Invariant.{opened_endpoint, KeepsConns}
use packages_repo_main.Tcpd.Service.{handle_event, tcp_segment, Event}
use packages_repo_main.Text.{Bytes}
use packages_repo_main.Tcpd.Outbound.{new_outbound, open_endpoint_of}
use packages_repo_main.Tcpd.Handlers.{new_inbound, open_new_endpoint}
use packages_repo_main.Tcpd.Segments.{
  send_network_segment, outgoing, max_payload, send_connection_payload, clear_pending_ack,
}
use packages_repo_main.Tcpd.Tables.{reset_connection}
use packages_repo_main.Tcpd.State.{u32}
use packages_repo_main.Tcpd.Receive.{
  stay, receive_established, Reaction, receive_reset, receive, receive_syn_sent,
  receive_syn_received,
}
use packages_repo_main.Tcpd.State.{
  flag_psh, is_established, close_descriptor, Effect, Listener, Context, flag_rst, flag_syn,
  flag_ack, ConnectionState, has, Segment, Net, Connection, closed, syn_received, syn_sent,
  established,
}
use packages_repo_main.Prelude.{◌||◌, ◌∷◌, length, Option-cases, ap, if◌then◌else◌, ltb, none, some}
use packages_repo_main.Prelude.{
  ◌∙◌, sym, get_elem?, some, List, ℕ, Option, ◌⊎◌, refl, inr, arith, ◌+◌, [], inl, ◌==◌, not,
  Bool-cases, ◌&&◌, true, ◌≡◌, ◌≢◌,
}

-- The segment acknowledges the first one of this side. For a connection that the other side asked for
-- it is the next one in order, and for one that this side asked for it has the SYN flag.
pub record IsAnswer (c : Connection) (s : Segment) : Type 0 where
  pub ack : has s.flags flag_ack ≡ true
  pub number : s.acknowledgment_number ≡ c.local_next_seq
  pub asked :
      ((c.state ≡ syn_received) × (s.sequence_number ≡ c.remote_next_seq))
      ⊎ ((c.state ≡ syn_sent) × (has s.flags flag_syn ≡ true))

syn_received-IsAnswer :
    (net : Net) (c : Connection) (s : Segment)
    → c.state ≢ established
    → c.state ≡ syn_received
    → (receive_syn_received net c s).conn.state ≡ established
    → IsAnswer c s
unfolding receive_syn_received
syn_received-IsAnswer net c s before e now =
    let again =
      has s.flags flag_syn
      && not (has s.flags flag_ack)
      && u32 (s.sequence_number + 1) == c.remote_next_seq in
    let answers =
      has s.flags flag_ack
      && s.acknowledgment_number == c.local_next_seq
      && s.sequence_number == c.remote_next_seq in
    elim (Bool-cases again) [
      | inl a ↦ absurd (before (rw a at now))
      | inr a ↦ elim (Bool-cases answers) [
        | inl b ↦ record {
          ack = ground (arith, b);
          number = ground (arith, b);
          asked = inl (e, ground (arith, b));
        }
        | inr b ↦ absurd (before (rw (a, b) at now))
      ]
    ]

syn_sent-IsAnswer :
    (net : Net) (c : Connection) (s : Segment)
    → c.state ≢ established
    → c.state ≡ syn_sent
    → (receive_syn_sent net c s).conn.state ≡ established
    → IsAnswer c s
unfolding receive_syn_sent
syn_sent-IsAnswer net c s before e now =
    let answers =
      has s.flags flag_syn && has s.flags flag_ack && s.acknowledgment_number == c.local_next_seq in
    elim (Bool-cases answers) [
      | inl b ↦ record {
        ack = ground (arith, b);
        number = ground (arith, b);
        asked = inr (e, ground (arith, b));
      }
      | inr b ↦ absurd (before (rw b at now))
    ]

by_state :
    (net : Net) (c : Connection) (s : Segment) (t : ConnectionState)
    → c.state ≡ t
    → c.state ≢ established
    → (elim t as (λ x. Reaction) [
      | syn_received ↦ receive_syn_received net c s
      | syn_sent ↦ receive_syn_sent net c s
      | established ↦ receive_established net c s
      | closed ↦ stay c []
    ]).conn.state
      ≡ established
    → IsAnswer c s
by_state net c s closed e before now = absurd (before now)
by_state net c s syn_received e before now = syn_received-IsAnswer net c s before e now
by_state net c s syn_sent e before now = syn_sent-IsAnswer net c s before e now
by_state net c s established e before now = absurd (before e)

receive-IsAnswer :
    (net : Net) (c : Connection) (s : Segment)
    → c.state ≢ established
    → (receive net c s).conn.state ≡ established
    → IsAnswer c s
unfolding receive receive_reset
receive-IsAnswer net c s before now = elim (Bool-cases (has s.flags flag_rst)) [
  | inl e ↦ absurd (before (rw e at now))
  | inr e ↦ by_state net c s c.state refl before (rw e at now)
]

is_established-cases : (t : ConnectionState) → (t ≡ established) ⊎ (t ≢ established)
is_established-cases established = inl refl
is_established-cases closed = inr (λ e. cc e)
is_established-cases syn_received = inr (λ e. cc e)
is_established-cases syn_sent = inr (λ e. cc e)

reset_closed : (c : Connection) → (reset_connection c).state ≢ established
unfolding reset_connection
reset_closed c e = cc e

acked_state : (c : Connection) → (clear_pending_ack c).state ≡ c.state
unfolding clear_pending_ack
acked_state c = refl

sent_state :
    (net : Net) (c : Connection) (payload : Bytes)
    → (send_connection_payload net c payload).0.state ≡ c.state
unfolding send_connection_payload clear_pending_ack
sent_state net c payload =
    elim (Bool-cases (ltb max_payload (length payload) || not (is_established c.state))) [
      | inl e ↦ simp e refl
      | inr e ↦ elim (Option-cases net.address) [
        | inl a ↦ simp (e, a) refl
        | inr (address, a) ↦
            (let segment =
                outgoing address c c.local_next_seq c.remote_next_seq
                  (if length payload == 0 then flag_ack else flag_ack + flag_psh) payload in
              elim (Bool-cases (send_network_segment net segment).0) [
                | inl b ↦ simp (e, a, b) refl
                | inr b ↦ simp (e, a, b) refl
              ])
      ]
    ]

endpoint_state :
    (c : Connection) (o : Option (ℕ × ℕ))
    → (elim o as (λ x. Connection × List Effect) [
      | none ↦ (c, [])
      | some (handle, id) ↦
          if id == 0
          then (c, close_descriptor handle ∷ [])
          else (record c { endpoint_handle = handle; endpoint_id = id }, [])
    ]).0.state
      ≡ c.state
endpoint_state c none = refl
endpoint_state c (some p) = elim (Bool-cases (p.1 == 0)) [ inl e ↦ rw e refl | inr e ↦ rw e refl ]

begun_in_state :
    (net : Net) (id : ℕ) (listener : Listener) (s : Segment)
    → (open_new_endpoint net (new_inbound id listener s)).0.state ≢ established
unfolding open_new_endpoint new_inbound
begun_in_state net id listener s e =
    let received : syn_received ≡ established =
      sym (endpoint_state (new_inbound id listener s) net.new_endpoint) ∙ e in
    cc received

begun_out_state :
    (net : Net) (id handle port : ℕ) (ip : Bytes) (remote endpoint : ℕ) (c : Connection)
    → open_endpoint_of net (new_outbound id handle port ip remote endpoint) ≡ some c
    → c.state ≢ established
unfolding new_outbound
begun_out_state net id handle port ip remote endpoint c o e =
    let (opened, same) = opened_endpoint net (new_outbound id handle port ip remote endpoint) c o in
    let begun : syn_sent ≡ established = ap (λ (x : Connection). x.state) same ∙ e in cc begun

-- Why a slot of the table may hold an established connection after an event: it held one before, or it
-- held one that the event is a segment for, which acknowledges the first one of this side.
pub data MayHold (ctx : Context) (event : Event) (i : ℕ) : Type 0 where
  was_established :
      (c : Connection)
      → get_elem? ctx.connections i ≡ some c
      → c.state ≡ established
      → MayHold ctx event i
  answered :
      (c : Connection) (s : Segment)
      → get_elem? ctx.connections i ≡ some c
      → event ≡ tcp_segment s
      → IsAnswer c s
      → MayHold ctx event i

module _ (ctx : Context) (event : Event) where
  abbrev Explained : ℕ → Connection → Type 0
  Explained i c = c.state ≡ established → MayHold ctx event i

  Explained-KeepsConns : KeepsConns Explained
  Explained-KeepsConns = record {
    freed = λ i c e. absurd (reset_closed c e);
    acked = λ i c h e. h (sym (acked_state c) ∙ e);
    sent = λ net i c payload h e. h (sym (sent_state net c payload) ∙ e);
    waits = λ i c deadline h e. h e;
    tried = λ i c deadline few h e. h e;
    begun_in = λ net i id listener s e. absurd (begun_in_state net id listener s e);
    begun_out = λ net i id handle port ip remote endpoint c o e.
        absurd (begun_out_state net id handle port ip remote endpoint c o e);
  }

  -- Whatever is handled, a slot of the table holds an established connection afterwards only if it held
  -- one before, or if the event is a segment that the slot's connection was waiting for. The segment
  -- has the ACK flag, and its acknowledgment number is the one that this connection expects; it is the
  -- next one in order where the other side asked for the connection, and has the SYN flag where this
  -- side did.
  pub handle_event-MayHold :
      (net : Net) (i : ℕ) (d : Connection)
      → get_elem? (handle_event net ctx event).connections i ≡ some d
      → d.state ≡ established
      → MayHold ctx event i
  handle_event-MayHold net i d found now =
      (handle_event-AllConns Explained-KeepsConns net ctx event
          (λ s j c same at e. elim (is_established-cases c.state) [
            | inl was ↦ was_established c at was
            | inr before ↦ answered c s at same (receive-IsAnswer net c s before e)
          ])
          (record { at = λ j c at e. was_established c at e })).at
        i d found now
