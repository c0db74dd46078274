-- ===== src/Tcpd/Served.antt =====
-- The requests to connect, and the table of connections.
use packages_repo_main.Tcpd.Reached.{send_syn-AllConns, give_back-AllConns}
use packages_repo_main.Tcpd.Tables.{
  release_client_port, find_client_port, allocate_pending_connect, allocate_connection,
}
use packages_repo_main.Tcpd.State.{u32}
use packages_repo_main.Tcpd.Invariant.{pair-AllConns, AllConns, KeepsConns, release_conns}
use packages_repo_main.Text.{Bytes}
use packages_repo_main.Tcpd.Requests.{
  refuse_connect, client_port_for, is_bound_at, handle_connect_request, connect_unbound,
  connect_pending, drop_client_port, connect_bound,
}
use packages_repo_main.Tcpd.Outbound.{
  give_back, send_syn, choose_client_port, new_outbound, ConnectRequest, begin_outbound_connection,
  open_endpoint_of,
}
use packages_repo_main.Tcpd.State.{status_io, Connection, Context, Net}
use packages_repo_main.Prelude.{
  false, Bool, refl, ◌||◌, inr, ◌==◌, inl, ◌+◌, Option-cases, Bool-cases, ◌≡◌, Option, ℕ, none,
  some,
}

drop_conns : (ctx : Context) (o : Option ℕ) → (drop_client_port ctx o).connections ≡ ctx.connections
unfolding drop_client_port
drop_conns ctx none = refl
drop_conns ctx (some i) = elim (Bool-cases (is_bound_at ctx (some i))) [
  | inl e ↦ rw e refl
  | inr e ↦ rw e refl
]

connect_pending_conns :
    (net : Net) (ctx : Context) (handle port : ℕ) (request : ConnectRequest) (i k : ℕ)
    → (connect_pending net ctx handle port request i k).connections ≡ ctx.connections
unfolding connect_pending
connect_pending_conns net ctx handle port request i k = elim (Bool-cases (net.takes_bind port)) [
  | inl e ↦ simp e refl
  | inr e ↦ simp e refl
]

pub option_conns :
    {A : Type 0} (ctx : Context) (o : Option A) (absent : Context) (go : A → Context)
    → absent.connections ≡ ctx.connections
    → ((a : A) → (go a).connections ≡ ctx.connections)
    → (elim o as (λ x. Context) [ none ↦ absent | some a ↦ go a ]).connections ≡ ctx.connections
option_conns ctx none absent go same keeps = same
option_conns ctx (some a) absent go same keeps = keeps a

connect_unbound_conns :
    (net : Net) (ctx : Context) (handle port : ℕ) (request : ConnectRequest)
    → (connect_unbound net ctx handle port request).connections ≡ ctx.connections
unfolding connect_unbound
connect_unbound_conns net ctx handle port request =
    let refused = refuse_connect ctx handle status_io 0 in
    let waits : ℕ → ℕ → Context = connect_pending net ctx handle port request in
    let dropped : ℕ → Context =
      λ i. refuse_connect (drop_client_port ctx (some i)) handle status_io 0 in
    option_conns ctx (client_port_for ctx port) refused
      (λ i. elim (allocate_pending_connect ctx) [ none ↦ dropped i | some k ↦ waits i k ]) refl
      (λ i.
        option_conns ctx (allocate_pending_connect ctx) (dropped i) (waits i)
          (drop_conns ctx (some i)) (λ k. connect_pending_conns net ctx handle port request i k))

module _ {P : ℕ → Connection → Type 0} (keeps : KeepsConns P) where
  pub begin-AllConns :
      (net : Net) (ctx : Context) (handle port : ℕ) (ip : Bytes) (remote endpoint : ℕ)
      → AllConns P ctx.connections
      → AllConns P (begin_outbound_connection net ctx handle port ip remote endpoint).1.connections
  unfolding begin_outbound_connection
  begin-AllConns net ctx handle port ip remote endpoint all =
      let id = u32 (ctx.next_connection_id + 1) in
      let conn = new_outbound id handle port ip remote endpoint in
      let numbered : Context = record ctx { next_connection_id = id } in
      let failed : Bool × Context = (false, release_client_port ctx port) in
      let kept : AllConns P (release_client_port ctx port).connections =
        rw (release_conns ctx port) all in
      let sends : ℕ → Bytes → Connection → Bool × Context =
        λ i address opened. send_syn net address numbered i opened in
      let opens : ℕ → Bytes → Bool × Context = λ i address. elim (open_endpoint_of net conn) [
        | none ↦ give_back numbered i conn port
        | some opened ↦ sends i address opened
      ] in
      let finds_slot : ℕ → Bool × Context =
        λ i. elim net.address [ none ↦ failed | some address ↦ opens i address ] in
      pair-AllConns (allocate_connection ctx) failed finds_slot kept (λ i a.
        pair-AllConns net.address failed (opens i) kept (λ address b.
          pair-AllConns (open_endpoint_of net conn) (give_back numbered i conn port)
            (sends i address) (give_back-AllConns keeps numbered i conn port all)
            (λ opened o.
              send_syn-AllConns keeps net address numbered i opened all
                (keeps.begun_out net i id handle port ip remote endpoint opened o))))

  connect_bound-AllConns :
      (net : Net) (ctx : Context) (handle port : ℕ) (request : ConnectRequest)
      → AllConns P ctx.connections
      → AllConns P (connect_bound net ctx handle port request).connections
  unfolding connect_bound
  connect_bound-AllConns net ctx handle port request all =
      let begun =
        begin_outbound_connection net ctx handle port request.remote_ip request.remote_port
          request.endpoint_id in
      let kept =
        begin-AllConns net ctx handle port request.remote_ip request.remote_port request.endpoint_id
          all in
      elim (Bool-cases begun.0) [ inl e ↦ simp e kept | inr e ↦ simp e kept ]

  pub handle_connect_request-AllConns :
      (net : Net) (ctx : Context) (request : ConnectRequest)
      → AllConns P ctx.connections
      → AllConns P (handle_connect_request net ctx request).connections
  unfolding handle_connect_request
  handle_connect_request-AllConns net ctx request all =
      elim (Bool-cases (request.reply_pipe_id == 0 || request.remote_port == 0)) [
        | inl a ↦ simp a all
        | inr a ↦ elim (Option-cases (net.open_pipe request.reply_pipe_id)) [
          | inl b ↦ simp (a, b) all
          | inr (handle, b) ↦ elim (Bool-cases (choose_client_port ctx == 0)) [
            | inl c ↦ simp (a, b, c) all
            | inr c ↦
                elim (Bool-cases
                  (is_bound_at ctx (find_client_port ctx (choose_client_port ctx)))) [
                    | inl d ↦
                        simp (a, b, c, d)
                          (connect_bound-AllConns net ctx handle (choose_client_port ctx) request
                            all)
                    | inr d ↦ simp (a, b, c, d, connect_unbound_conns) all
                  ]
          ]
        ]
      ]
