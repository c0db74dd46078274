-- ===== src/Tcpd/Reached.antt =====
-- The retries and the first segments of connections that programs ask for, and the table of connections.
use packages_repo_main.Tcpd.Handlers.{initial_seq}
use packages_repo_main.Tcpd.Segments.{outgoing, send_network_segment}
use packages_repo_main.Text.{Bytes}
use packages_repo_main.Tcpd.Invariant.{
  option-AllConns, set-AllConns, AllConns, KeepsConns, release_conns,
}
use packages_repo_main.Tcpd.Tables.{emit, reset_connection, recount_registry}
use packages_repo_main.Tcpd.Outbound.{give_back, send_syn}
use packages_repo_main.Tcpd.Retry.{Service, service_syn, retry_syn}
use packages_repo_main.Tcpd.State.{
  flag_syn, syn_initial_retry_ms, syn_max_retransmits, Net, Context, Connection,
}
use packages_repo_main.Prelude.{
  ◌^◌, ◌*◌, ltb, [], inr, set, inl, ◌==◌, leb, ◌+◌, Bool-cases, Option, ℕ, none, some,
}

module _ {P : ℕ → Connection → Type 0} (keeps : KeepsConns P) where
  timed :
      (i : ℕ) (c : Connection) (o : Option ℕ)
      → P i c
      → P i (elim o as (λ x. Connection) [
        | none ↦ c
        | some now ↦ record c { syn_retry_deadline_ms = now + syn_initial_retry_ms }
      ])
  timed i c none h = h
  timed i c (some now) h = keeps.waits i c (now + syn_initial_retry_ms) h

  retry_syn-AllConns :
      (net : Net) (now : ℕ) (ctx : Context) (i : ℕ) (c : Connection)
      → AllConns P ctx.connections
      → P i c
      → AllConns P (retry_syn net now ctx i c).connections
  unfolding retry_syn
  retry_syn-AllConns net now ctx i c all h =
      elim (Bool-cases (leb syn_max_retransmits c.syn_retransmits)) [
        | inl e ↦
            rw (e, release_conns)
              (set-AllConns ctx.connections i (reset_connection c) all (keeps.freed i c))
        | inr e ↦ rw e (
            option-AllConns net.address _ _
              (set-AllConns ctx.connections i _ all
                (keeps.waits i c (now + syn_initial_retry_ms) h))
              (λ address.
                set-AllConns ctx.connections i _ all
                  (keeps.tried i c (now + syn_initial_retry_ms * 2 ^ (c.syn_retransmits + 1)) e h)))
      ]

  pub service_syn-AllConns :
      (net : Net) (now : ℕ) (s : Service) (i : ℕ) (c : Connection)
      → AllConns P s.ctx.connections
      → P i c
      → AllConns P (service_syn net now s i c).ctx.connections
  unfolding service_syn
  service_syn-AllConns net now s i c all h = elim (Bool-cases (c.syn_retry_deadline_ms == 0)) [
    | inl e ↦
        simp e
          (set-AllConns s.ctx.connections i _ all (keeps.waits i c (now + syn_initial_retry_ms) h))
    | inr e ↦ elim (Bool-cases (ltb now c.syn_retry_deadline_ms)) [
      | inl l ↦ simp (e, l) all
      | inr l ↦ simp (e, l) (retry_syn-AllConns net now s.ctx i c all h)
    ]
  ]

  pub give_back-AllConns :
      (ctx : Context) (i : ℕ) (c : Connection) (port : ℕ)
      → AllConns P ctx.connections
      → AllConns P (give_back ctx i c port).1.connections
  give_back-AllConns ctx i c port all =
      rw
        (release_conns (record ctx { connections = set ctx.connections i (reset_connection c) })
          port)
        (set-AllConns ctx.connections i (reset_connection c) all (keeps.freed i c))

  pub send_syn-AllConns :
      (net : Net) (address : Bytes) (ctx : Context) (i : ℕ) (c : Connection)
      → AllConns P ctx.connections
      → P i c
      → AllConns P (send_syn net address ctx i c).1.connections
  unfolding send_syn recount_registry
  send_syn-AllConns net address ctx i c all h =
      elim (Bool-cases
        (send_network_segment net
          (outgoing address c (initial_seq c.local_port c.id) 0 flag_syn [])).0) [
            | inl e ↦ simp e (set-AllConns ctx.connections i _ all (timed i c net.now_ms h))
            | inr e ↦ simp e (give_back-AllConns (emit ctx _) i c c.local_port all)
          ]
