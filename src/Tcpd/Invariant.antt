-- ===== src/Tcpd/Invariant.antt =====
-- What the handlers keep of the table of connections.
use packages_repo_main.Tcpd.Outbound.{new_outbound, open_endpoint_of}
use packages_repo_main.Text.{Bytes}
use packages_repo_main.Tcpd.Segments.{send_connection_payload, clear_pending_ack}
use packages_repo_main.Tcpd.Handlers.{new_inbound, open_new_endpoint, at_connection, with_slot}
use packages_repo_main.Tcpd.Receive.{Reaction}
use packages_repo_main.Tcpd.Tables.{
  close_handle, free_port, update_at, emit, reset_connection, find_client_port, recount_registry,
  react, close_connection, release_client_port,
}
use packages_repo_main.Tcpd.State.{
  Segment, Listener, syn_max_retransmits, Net, closed_event, CloseReason, Connection, Context,
}
use packages_repo_main.Prelude.{
  Option-cases, ◌+◌, ◌∙◌, leb, get_elem?-set_ne, sym, subst, arith, false, true, Bool,
  if◌then◌else◌, refl, ◌++◌, ◌==◌, ◌&&◌, not, zero, Bool-cases, inr, inl, suc, [], set, ◌≡◌,
  get_elem?, ◌∷◌, ℕ, Option, List, none, some,
}

-- Each connection of the table has the property, which may depend on its place.
pub record AllConns (P : ℕ → Connection → Type 0) (cs : List Connection) : Type 0 where
  pub at : (i : ℕ) (c : Connection) → get_elem? cs i ≡ some c → P i c

-- What the handlers do to a connection, but for the segments that it receives, keeps the property.
pub record KeepsConns (P : ℕ → Connection → Type 0) : Type 0 where
  pub freed : (i : ℕ) (c : Connection) → P i (reset_connection c)
  pub acked : (i : ℕ) (c : Connection) → P i c → P i (clear_pending_ack c)
  pub sent :
      (net : Net) (i : ℕ) (c : Connection) (payload : Bytes)
      → P i c
      → P i (send_connection_payload net c payload).0
  pub waits :
      (i : ℕ) (c : Connection) (deadline : ℕ)
      → P i c
      → P i (record c { syn_retry_deadline_ms = deadline })
  pub tried :
      (i : ℕ) (c : Connection) (deadline : ℕ)
      → leb syn_max_retransmits c.syn_retransmits ≡ false
      → P i c
      → P i (record c { syn_retransmits = c.syn_retransmits + 1; syn_retry_deadline_ms = deadline })
  pub begun_in :
      (net : Net) (i id : ℕ) (listener : Listener) (s : Segment)
      → P i (open_new_endpoint net (new_inbound id listener s)).0
  pub begun_out :
      (net : Net) (i id handle port : ℕ) (ip : Bytes) (remote endpoint : ℕ) (c : Connection)
      → open_endpoint_of net (new_outbound id handle port ip remote endpoint) ≡ some c
      → P i c

-- The opening of the endpoint of a program changes no more of a connection than the handle.
pub opened_endpoint :
    (net : Net) (c d : Connection)
    → open_endpoint_of net c ≡ some d
    → (handle : ℕ) × (record c { endpoint_handle = handle } ≡ d)
unfolding open_endpoint_of
opened_endpoint net c d e = elim (Bool-cases (c.endpoint_id == 0)) [
  | inl a ↦
      let same : open_endpoint_of net c ≡ some c = rw a refl in (c.endpoint_handle, cc (same, e))
  | inr a ↦ elim (Option-cases (net.open_endpoint c.endpoint_id)) [
    | inl b ↦ let none_opened : open_endpoint_of net c ≡ none = simp (a, b) in cc (none_opened, e)
    | inr (handle, b) ↦
        let same : open_endpoint_of net c ≡ some (record c { endpoint_handle = handle }) =
          simp (a, b) in
        (handle, cc (same, e))
  ]
]

set_value :
    (cs : List Connection) (i : ℕ) (c d : Connection) → get_elem? (set cs i c) i ≡ some d → c ≡ d
set_value [] i c d e = cc
set_value (x ∷ cs) zero c d e = cc e
set_value (x ∷ cs) (suc i) c d e = set_value cs i c d e

freed_conns :
    (ctx : Context) (o : Option ℕ)
    → (elim o as (λ x. Context) [
      | none ↦ ctx
      | some i ↦ record ctx { client_ports = update_at free_port i ctx.client_ports }
    ]).connections
      ≡ ctx.connections
freed_conns ctx none = refl
freed_conns ctx (some i) = refl

pub release_conns :
    (ctx : Context) (port : ℕ) → (release_client_port ctx port).connections ≡ ctx.connections
unfolding release_client_port
release_conns ctx port = freed_conns ctx (find_client_port ctx port)

recount_conns :
    (b : Bool) (ctx : Context)
    → (if b then recount_registry ctx else ctx).connections ≡ ctx.connections
unfolding recount_registry
recount_conns true ctx = refl
recount_conns false ctx = refl

module _ {P : ℕ → Connection → Type 0} where
  pub set-AllConns :
      (cs : List Connection) (i : ℕ) (c : Connection)
      → AllConns P cs
      → P i c
      → AllConns P (set cs i c)
  set-AllConns cs i c all h = record {
    at = λ j d e. elim (Bool-cases (i == j)) [
      | inl same ↦
          let place : i ≡ j = ground (arith, same) in
          let value : c ≡ d =
            set_value cs i c d (subst (λ k. get_elem? (set cs i c) k ≡ some d) (sym place) e) in
          subst (λ k. P k d) place (subst (λ x. P i x) value h)
      | inr other ↦ all.at j d (sym (get_elem?-set_ne cs c (λ q. ground (arith, other, q))) ∙ e)
    ];
  }

  pub option-AllConns :
      {A : Type 0} (o : Option A) (absent : Context) (go : A → Context)
      → AllConns P absent.connections
      → ((a : A) → AllConns P (go a).connections)
      → AllConns P (elim o as (λ x. Context) [ none ↦ absent | some a ↦ go a ]).connections
  option-AllConns none absent go all keeps = all
  option-AllConns (some a) absent go all keeps = keeps a

  pub at_connection-AllConns :
      (ctx : Context) (o : Option Connection) (go : Connection → Context)
      → AllConns P ctx.connections
      → ((c : Connection) → o ≡ some c → AllConns P (go c).connections)
      → AllConns P (at_connection ctx o go).connections
  at_connection-AllConns ctx none go all keeps = all
  at_connection-AllConns ctx (some c) go all keeps = keeps c refl

  pub with_slot-AllConns :
      (ctx : Context) (found : Option ℕ) (go : ℕ → Connection → Context)
      → AllConns P ctx.connections
      → ((i : ℕ) (c : Connection)
          → get_elem? ctx.connections i ≡ some c
          → AllConns P (go i c).connections)
      → AllConns P (with_slot ctx found go).connections
  with_slot-AllConns ctx none go all keeps = all
  with_slot-AllConns ctx (some i) go all keeps =
      at_connection-AllConns ctx (get_elem? ctx.connections i) (go i) all (λ c e. keeps i c e)

  pub pair-AllConns :
      {A : Type 0} (o : Option A) (absent : Bool × Context) (go : A → Bool × Context)
      → AllConns P absent.1.connections
      → ((a : A) → o ≡ some a → AllConns P (go a).1.connections)
      → AllConns P (elim o as (λ x. Bool × Context) [ none ↦ absent | some a ↦ go a ]).1.connections
  pair-AllConns none absent go all keeps = all
  pair-AllConns (some a) absent go all keeps = keeps a refl

module _ {P : ℕ → Connection → Type 0} (keeps : KeepsConns P) where
  pub close_connection-AllConns :
      (ctx : Context) (i : ℕ) (c : Connection) (reason : CloseReason)
      → AllConns P ctx.connections
      → AllConns P (close_connection ctx i c reason).connections
  unfolding close_connection recount_registry
  close_connection-AllConns ctx i c reason all =
      let kept : AllConns P (set ctx.connections i (reset_connection c)) =
        set-AllConns ctx.connections i (reset_connection c) all (keeps.freed i c) in
      elim (Bool-cases (not c.inbound && not (c.local_port == 0))) [
        | inl e ↦ rw e (
            rw
              (release_conns
                (record ctx {
                  connections = set ctx.connections i (reset_connection c);
                  out =
                      ctx.out
                      ++ (closed_event c.id reason ∷ close_handle c.endpoint_handle
                          ++ (if c.own_app_pipe_handle
                              then close_handle c.app_pipe_handle
                              else []));
                })
                c.local_port)
              kept)
        | inr e ↦ rw e kept
      ]

  closing-AllConns :
      (ctx : Context) (i : ℕ) (r : Reaction) (o : Option CloseReason)
      → AllConns P ctx.connections
      → AllConns P
          (elim o as (λ x. Context) [
            | some reason ↦ close_connection ctx i r.conn reason
            | none ↦ if r.recounts then recount_registry ctx else ctx
          ]).connections
  closing-AllConns ctx i r none all = rw (recount_conns r.recounts ctx) all
  closing-AllConns ctx i r (some reason) all = close_connection-AllConns ctx i r.conn reason all

  pub react-AllConns :
      (ctx : Context) (i : ℕ) (r : Reaction)
      → AllConns P ctx.connections
      → P i r.conn
      → AllConns P (react ctx i r).connections
  unfolding react
  react-AllConns ctx i r all h =
      closing-AllConns (emit (record ctx { connections = set ctx.connections i r.conn }) r.out) i r
        r.closing (set-AllConns ctx.connections i r.conn all h)
