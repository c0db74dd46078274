-- ===== src/Tcpd/Incoming.antt =====
-- The segments that come in and the requests to send and to close, and the table of connections.
use packages_repo_main.Tcpd.Invariant.{
  KeepsConns, close_connection-AllConns, react-AllConns, set-AllConns, option-AllConns,
  with_slot-AllConns, AllConns,
}
use packages_repo_main.Tcpd.Receive.{receive}
use packages_repo_main.Tcpd.Segments.{max_payload}
use packages_repo_main.Tcpd.State.{u32}
use packages_repo_main.Text.{Bytes}
use packages_repo_main.Tcpd.Tables.{
  find_listener, reset_connection, find_connection_by_tuple, react, find_connection, emit,
  recount_registry,
}
use packages_repo_main.Tcpd.Handlers.{
  with_slot, send_syn_ack, initial_seq, handle_close_request, close_local, handle_tcp_segment,
  handle_send_request, handle_new_connection, open_new_endpoint, new_inbound,
}
use packages_repo_main.Tcpd.State.{
  local_close, inbound_syns, flag_ack, flag_syn, is_established, rx_segments, has, bump, Segment,
  Context, Listener, Net, Connection,
}
use packages_repo_main.Prelude.{
  ◌≡◌, get_elem?, inr, ◌||◌, inl, ◌∷◌, length, if◌then◌else◌, not, ltb, ◌+◌, [], Bool-cases, ℕ,
  none, some,
}

module _ {P : ℕ → Connection → Type 0} (keeps : KeepsConns P) where
  handle_new_connection-AllConns :
      (net : Net) (ctx : Context) (listener : Listener) (s : Segment)
      → AllConns P ctx.connections
      → AllConns P (handle_new_connection net ctx listener s).connections
  unfolding handle_new_connection recount_registry
  handle_new_connection-AllConns net ctx listener s all =
      let id = u32 (ctx.next_connection_id + 1) in
      let conn = (open_new_endpoint net (new_inbound id listener s)).0 in
      elim (Bool-cases (not (has s.flags flag_syn) || has s.flags flag_ack)) [
        | inl e ↦ rw e all
        | inr e ↦ rw e (
            with_slot-AllConns (emit ctx (bump inbound_syns ∷ [])) _ _ all (λ i c h.
              elim (Bool-cases (send_syn_ack net conn (initial_seq listener.port id)).0) [
                | inl b ↦
                    rw b
                      (set-AllConns ctx.connections i conn all (keeps.begun_in net i id listener s))
                | inr b ↦ rw b (
                    set-AllConns ctx.connections i (reset_connection conn) all (keeps.freed i conn))
              ]))
      ]

  pub handle_send_request-AllConns :
      (net : Net) (ctx : Context) (id : ℕ) (payload : Bytes)
      → AllConns P ctx.connections
      → AllConns P (handle_send_request net ctx id payload).connections
  unfolding handle_send_request
  handle_send_request-AllConns net ctx id payload all =
      elim (Bool-cases (ltb max_payload (length payload))) [
        | inl e ↦ rw e all
        | inr e ↦ rw e (
            with_slot-AllConns ctx (find_connection ctx id) _ all (λ i c h.
              set-AllConns ctx.connections i _ all (keeps.sent net i c payload (all.at i c h))))
      ]

  pub handle_tcp_segment-AllConns :
      (net : Net) (ctx : Context) (s : Segment)
      → ((i : ℕ) (c : Connection)
          → get_elem? ctx.connections i ≡ some c
          → P i (receive net c s).conn)
      → AllConns P ctx.connections
      → AllConns P (handle_tcp_segment net ctx s).connections
  unfolding handle_tcp_segment
  handle_tcp_segment-AllConns net ctx s received all =
      let seen = emit ctx (bump rx_segments ∷ []) in
      let begins : Listener → Context =
        λ listener. if listener.bound then handle_new_connection net seen listener s else seen in
      let listens : ℕ → Context =
        λ l. elim (get_elem? ctx.listeners l) [ none ↦ seen | some listener ↦ begins listener ] in
      let takes : ℕ → Connection → Context = λ i c. react seen i (receive net c s) in
      option-AllConns (find_connection_by_tuple seen s.destination_port s.source_ip s.source_port)
        (elim (find_listener seen s.destination_port) [ none ↦ seen | some l ↦ listens l ])
        (λ i. with_slot seen (some i) takes)
        (option-AllConns (find_listener seen s.destination_port) seen listens all (λ l.
          option-AllConns (get_elem? ctx.listeners l) seen begins all (λ listener.
            elim (Bool-cases listener.bound) [
              | inl e ↦ simp e (handle_new_connection-AllConns net seen listener s all)
              | inr e ↦ rw e all
            ])))
        (λ i.
          with_slot-AllConns seen (some i) takes all
            (λ k c h. react-AllConns keeps seen k (receive net c s) all (received k c h)))

  close_local-AllConns :
      (net : Net) (ctx : Context) (i : ℕ) (c : Connection)
      → AllConns P ctx.connections
      → AllConns P (close_local net ctx i c).connections
  unfolding close_local
  close_local-AllConns net ctx i c all = elim (Bool-cases (not (is_established c.state))) [
    | inl e ↦ rw e all
    | inr e ↦ rw e (
        option-AllConns net.address _ _ all
          (λ address. close_connection-AllConns keeps _ i _ local_close all))
  ]

  pub handle_close_request-AllConns :
      (net : Net) (ctx : Context) (id : ℕ)
      → AllConns P ctx.connections
      → AllConns P (handle_close_request net ctx id).connections
  unfolding handle_close_request
  handle_close_request-AllConns net ctx id all =
      with_slot-AllConns ctx (find_connection ctx id) (close_local net ctx) all
        (λ i c h. close_local-AllConns net ctx i c all)
