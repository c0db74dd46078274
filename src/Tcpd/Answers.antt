-- ===== src/Tcpd/Answers.antt =====
-- The requests to listen and the answers to bind a port, and the table of connections.
use packages_repo_main.Tcpd.Invariant.{option-AllConns, AllConns, KeepsConns}
use packages_repo_main.Tcpd.Served.{begin-AllConns, option_conns}
use packages_repo_main.Tcpd.Outbound.{begin_outbound_connection}
use packages_repo_main.Tcpd.Tables.{
  find_listener, find_pending_connect, find_client_port, allocate_listener, emit, recount_registry,
}
use packages_repo_main.Tcpd.Requests.{
  listen_failed, handle_bind_response, connect_answered, listener_bound, handle_listen_request,
  add_listener,
}
use packages_repo_main.Tcpd.State.{Connection, PendingConnect, ClientPort, Listener, Context, Net}
use packages_repo_main.Prelude.{
  ◌||◌, ◌==◌, refl, inr, false, get_elem?, set, inl, true, Bool-cases, Bool, ◌≡◌, ℕ, none, some,
}

add_listener_conns :
    (net : Net) (ctx : Context) (i handle port : ℕ)
    → (add_listener net ctx i handle port).connections ≡ ctx.connections
unfolding add_listener
add_listener_conns net ctx i handle port = elim (Bool-cases (net.takes_bind port)) [
  | inl e ↦ simp e refl
  | inr e ↦ simp e refl
]

pub listen_conns :
    (net : Net) (ctx : Context) (id port : ℕ)
    → (handle_listen_request net ctx id port).connections ≡ ctx.connections
unfolding handle_listen_request
listen_conns net ctx id port =
    let answered = emit ctx (listen_failed net id port) in
    let adds : ℕ → ℕ → Context = λ i handle. add_listener net ctx i handle port in
    let places : ℕ → Context =
      λ i. elim (net.open_pipe id) [ none ↦ ctx | some handle ↦ adds i handle ] in
    let free : Context = elim (allocate_listener ctx) [ none ↦ ctx | some i ↦ places i ] in
    elim (Bool-cases (id == 0 || port == 0)) [
      | inl e ↦ rw e refl
      | inr e ↦ simp e (
          option_conns ctx (find_listener ctx port) free (λ i. answered)
            (option_conns ctx (allocate_listener ctx) ctx places refl (λ i.
              option_conns ctx (net.open_pipe id) ctx (adds i) refl
                (λ handle. add_listener_conns net ctx i handle port)))
            (λ i. refl))
    ]

listener_bound_conns :
    (ctx : Context) (i : ℕ) (l : Listener) (ok : Bool)
    → (listener_bound ctx i l ok).connections ≡ ctx.connections
unfolding listener_bound recount_registry
listener_bound_conns ctx i l true = refl
listener_bound_conns ctx i l false = refl

module _ {P : ℕ → Connection → Type 0} (keeps : KeepsConns P) where
  connect_answered-AllConns :
      (net : Net) (ctx : Context) (i : ℕ) (p : ClientPort) (k : ℕ) (w : PendingConnect) (ok : Bool)
      → AllConns P ctx.connections
      → AllConns P (connect_answered net ctx i p k w ok).connections
  unfolding connect_answered
  connect_answered-AllConns net ctx i p k w false all = all
  connect_answered-AllConns net ctx i p k w true all =
      let bound : Context = record ctx {
        client_ports =
            set ctx.client_ports i (record p { binding_in_progress = false; bound = true });
      } in
      let begun =
        begin_outbound_connection net bound w.app_pipe_handle w.local_port w.remote_ip w.remote_port
          w.endpoint_id in
      let kept =
        begin-AllConns keeps net bound w.app_pipe_handle w.local_port w.remote_ip w.remote_port
          w.endpoint_id all in
      elim (Bool-cases begun.0) [ inl e ↦ simp e kept | inr e ↦ simp e kept ]

  pub bind_response-AllConns :
      (net : Net) (ctx : Context) (port : ℕ) (ok : Bool)
      → AllConns P ctx.connections
      → AllConns P (handle_bind_response net ctx port ok).connections
  unfolding handle_bind_response
  bind_response-AllConns net ctx port ok all =
      let answers : ℕ → ℕ → PendingConnect → ClientPort → Context =
        λ k i w p. connect_answered net ctx i p k w ok in
      let ports : ℕ → ℕ → PendingConnect → Context =
        λ k i w. elim (get_elem? ctx.client_ports i) [ none ↦ ctx | some p ↦ answers k i w p ] in
      let waits : ℕ → ℕ → Context =
        λ k i. elim (get_elem? ctx.pending_connects k) [ none ↦ ctx | some w ↦ ports k i w ] in
      let pending : ℕ → Context =
        λ k. elim (find_client_port ctx port) [ none ↦ ctx | some i ↦ waits k i ] in
      let listens : ℕ → Context =
        λ i. elim (get_elem? ctx.listeners i) [ none ↦ ctx | some l ↦ listener_bound ctx i l ok ] in
      let connects : Context = elim (find_pending_connect ctx port) [
        | none ↦ ctx
        | some k ↦ pending k
      ] in
      option-AllConns (find_listener ctx port) connects listens
        (option-AllConns (find_pending_connect ctx port) ctx pending all (λ k.
          option-AllConns (find_client_port ctx port) ctx (waits k) all (λ i.
            option-AllConns (get_elem? ctx.pending_connects k) ctx (ports k i) all (λ w.
              option-AllConns (get_elem? ctx.client_ports i) ctx (answers k i w) all
                (λ p. connect_answered-AllConns net ctx i p k w ok all)))))
        (λ i.
          option-AllConns (get_elem? ctx.listeners i) ctx (λ l. listener_bound ctx i l ok) all
            (λ l. rw (listener_bound_conns ctx i l ok) all))
