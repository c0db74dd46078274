-- ===== src/Tcpd/Events.antt =====
-- Whatever the main loop handles, and the table of connections.
use packages_repo_main.Tcpd.Served.{handle_connect_request-AllConns}
use packages_repo_main.Tcpd.Incoming.{
  handle_tcp_segment-AllConns, handle_send_request-AllConns, handle_close_request-AllConns,
}
use packages_repo_main.Tcpd.Reached.{service_syn-AllConns}
use packages_repo_main.Tcpd.Invariant.{
  set-AllConns, pair-AllConns, with_slot-AllConns, AllConns, KeepsConns,
}
use packages_repo_main.Tcpd.Receive.{receive, is_syn_sent}
use packages_repo_main.Tcpd.Answers.{bind_response-AllConns, listen_conns}
use packages_repo_main.Tcpd.Segments.{clear_pending_ack, send_ack_now}
use packages_repo_main.Tcpd.Tables.{recount_registry}
use packages_repo_main.Tcpd.Service.{
  flush_time, retry_time, tcp_segment, endpoint_end, bind_answer, endpoint_read, endpoint_data,
  connect_request, close_request, send_request, listen_request, Endpoint, Event, flush_pending_acks,
  read_at, flush_at, handle_event, read_endpoint, flush_slots, flush_pending_ack,
}
use packages_repo_main.Tcpd.Retry.{
  service_syn, Service, service_outbound_syns, service_slots, service_slot,
}
use packages_repo_main.Tcpd.State.{
  Segment, is_established, max_connections, Connection, Context, Net,
}
use packages_repo_main.Prelude.{
  inr, ◌||◌, inl, ◌==◌, not, ◌&&◌, if◌then◌else◌, Bool, Bool-cases, ◌≡◌, refl, zero, false,
  get_elem?, Option, suc, ℕ, none, some,
}

module _ {P : ℕ → Connection → Type 0} (keeps : KeepsConns P) where
  slot_case-AllConns :
      (net : Net) (now : ℕ) (s : Service) (i : ℕ) (o : Option Connection)
      → AllConns P s.ctx.connections
      → ((c : Connection) → o ≡ some c → P i c)
      → AllConns P
          (elim o as (λ x. Service) [
            | none ↦ s
            | some c ↦ if c.in_use && is_syn_sent c.state then service_syn net now s i c else s
          ]).ctx.connections
  slot_case-AllConns net now s i none all each = all
  slot_case-AllConns net now s i (some c) all each =
      elim (Bool-cases (c.in_use && is_syn_sent c.state)) [
        | inl e ↦ simp e (service_syn-AllConns keeps net now s i c all (each c refl))
        | inr e ↦ simp e all
      ]

  service_slot-AllConns :
      (net : Net) (now : ℕ) (s : Service) (i : ℕ)
      → AllConns P s.ctx.connections
      → AllConns P (service_slot net now s i).ctx.connections
  unfolding service_slot
  service_slot-AllConns net now s i all =
      slot_case-AllConns net now s i (get_elem? s.ctx.connections i) all (λ c e. all.at i c e)

  service_slots-AllConns :
      (net : Net) (now n i : ℕ) (s : Service)
      → AllConns P s.ctx.connections
      → AllConns P (service_slots net now n i s).ctx.connections
  unfolding service_slots
  service_slots-AllConns net now zero i s all = all
  service_slots-AllConns net now (suc n) i s all =
      service_slots-AllConns net now n (suc i) (service_slot net now s i)
        (service_slot-AllConns net now s i all)

  flush_pending_ack-AllConns :
      (net : Net) (ctx : Context) (i : ℕ)
      → AllConns P ctx.connections
      → AllConns P (flush_pending_ack net ctx i).connections
  unfolding flush_pending_ack flush_at send_ack_now
  flush_pending_ack-AllConns net ctx i all =
      with_slot-AllConns ctx (some i) (flush_at net ctx) all (λ k c h.
        elim (Bool-cases
          (c.in_use && is_established c.state && not (c.pending_ack_segments == 0))) [
            | inl e ↦ simp e (
                set-AllConns ctx.connections k (clear_pending_ack c) all
                  (keeps.acked k c (all.at k c h)))
            | inr e ↦ simp e all
          ])

  flush_slots-AllConns :
      (net : Net) (n i : ℕ) (ctx : Context)
      → AllConns P ctx.connections
      → AllConns P (flush_slots net n i ctx).connections
  unfolding flush_slots
  flush_slots-AllConns net zero i ctx all = all
  flush_slots-AllConns net (suc n) i ctx all =
      flush_slots-AllConns net n (suc i) (flush_pending_ack net ctx i)
        (flush_pending_ack-AllConns net ctx i all)

  service-AllConns :
      (net : Net) (ctx : Context)
      → AllConns P ctx.connections
      → AllConns P (service_outbound_syns net ctx).1.connections
  unfolding service_outbound_syns recount_registry
  service-AllConns net ctx all =
      let first : Service = record { ctx = ctx; pending = false; recounts = false } in
      let served : ℕ → Bool × Context = λ now.
        let s = service_slots net now max_connections 0 first in
        (s.pending, if s.recounts then recount_registry s.ctx else s.ctx) in
      pair-AllConns net.now_ms (false, ctx) served all
        (λ now e.
          let s = service_slots net now max_connections 0 first in
          let kept = service_slots-AllConns net now max_connections 0 first all in
          elim (Bool-cases s.recounts) [ inl b ↦ simp b kept | inr b ↦ simp b kept ])

  read_endpoint-AllConns :
      (net : Net) (ctx : Context) (i : ℕ) (read : Endpoint)
      → AllConns P ctx.connections
      → AllConns P (read_endpoint net ctx i read).connections
  unfolding read_endpoint read_at
  read_endpoint-AllConns net ctx i endpoint_end all =
      with_slot-AllConns ctx (some i) (read_at net ctx endpoint_end) all (λ k c h.
        elim (Bool-cases (not (c.in_use && is_established c.state) || c.endpoint_handle == 0)) [
          | inl e ↦ simp e all
          | inr e ↦ simp e (handle_close_request-AllConns keeps net ctx c.id all)
        ])
  read_endpoint-AllConns net ctx i (endpoint_data payload) all =
      with_slot-AllConns ctx (some i) (read_at net ctx (endpoint_data payload)) all (λ k c h.
        elim (Bool-cases (not (c.in_use && is_established c.state) || c.endpoint_handle == 0)) [
          | inl e ↦ simp e all
          | inr e ↦
              simp e
                (set-AllConns ctx.connections k _ all (keeps.sent net k c payload (all.at k c h)))
        ])

  pub handle_event-AllConns :
      (net : Net) (ctx : Context) (event : Event)
      → ((s : Segment) (i : ℕ) (c : Connection)
          → event ≡ tcp_segment s
          → get_elem? ctx.connections i ≡ some c
          → P i (receive net c s).conn)
      → AllConns P ctx.connections
      → AllConns P (handle_event net ctx event).connections
  unfolding handle_event flush_pending_acks
  handle_event-AllConns net ctx (listen_request id port) received all =
      rw (listen_conns net ctx id port) all
  handle_event-AllConns net ctx (send_request id payload) received all =
      handle_send_request-AllConns keeps net ctx id payload all
  handle_event-AllConns net ctx (close_request id) received all =
      handle_close_request-AllConns keeps net ctx id all
  handle_event-AllConns net ctx (connect_request request) received all =
      handle_connect_request-AllConns keeps net ctx request all
  handle_event-AllConns net ctx (endpoint_read i read) received all =
      read_endpoint-AllConns net ctx i read all
  handle_event-AllConns net ctx (bind_answer port ok) received all =
      bind_response-AllConns keeps net ctx port ok all
  handle_event-AllConns net ctx (tcp_segment segment) received all =
      handle_tcp_segment-AllConns keeps net ctx segment (λ i c h. received segment i c refl h) all
  handle_event-AllConns net ctx retry_time received all = service-AllConns net ctx all
  handle_event-AllConns net ctx flush_time received all =
      flush_slots-AllConns net max_connections 0 ctx all
