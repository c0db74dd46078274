-- ===== src/Tcpd/Tables.antt =====
-- network-services/src/tcpd.cpp: the tables of the service, of which each entry has a flag `in_use`.
-- A pointer into a table is the index of the entry.
use mathlib.Core.Option
use packages_repo_main.Tcpd.Receive.{is_syn_sent, Reaction}
use packages_repo_main.Text.{streq, Bytes}
use packages_repo_main.Tcpd.State.{
  close_descriptor, closed_event, Effect, CloseReason, recount, ClientPort, Connection, Context,
  closed,
}
use packages_repo_main.Prelude.{
  zero, suc, [], ◌+◌, ◌++◌, set, ◌==◌, true, ◌∷◌, if◌then◌else◌, not, ◌&&◌, false, List, ℕ, Option,
  Bool, none, some,
}

-- The first entry that passes the test, as all the searching loops find it.
unfoldable pub find_index : {A : Type 0} → (A → Bool) → List A → Option ℕ
find_index test [] = none
find_index test (x ∷ xs) = if test x then some 0 else Option.map suc (find_index test xs)

-- Whether the loops would find one.
abbrev pub finds : Option ℕ → Bool
finds none = false
finds (some i) = true

unfoldable pub find_listener : Context → ℕ → Option ℕ
find_listener ctx port = find_index (λ l. l.in_use && l.port == port) ctx.listeners

unfoldable pub allocate_listener : Context → Option ℕ
allocate_listener ctx = find_index (λ l. not l.in_use) ctx.listeners

unfoldable pub find_connection : Context → ℕ → Option ℕ
find_connection ctx id = find_index (λ c. c.in_use && c.id == id) ctx.connections

abbrev pub has_tuple : ℕ → Bytes → ℕ → Connection → Bool
has_tuple local_port remote_ip remote_port c =
    c.in_use
    && c.local_port == local_port
    && c.remote_port == remote_port
    && streq c.remote_ip remote_ip

unfoldable pub find_connection_by_tuple : Context → ℕ → Bytes → ℕ → Option ℕ
find_connection_by_tuple ctx local_port remote_ip remote_port =
    find_index (has_tuple local_port remote_ip remote_port) ctx.connections

unfoldable pub allocate_connection : Context → Option ℕ
allocate_connection ctx = find_index (λ c. not c.in_use) ctx.connections

unfoldable pub find_client_port : Context → ℕ → Option ℕ
find_client_port ctx port = find_index (λ p. p.in_use && p.port == port) ctx.client_ports

unfoldable pub allocate_client_port : Context → Option ℕ
allocate_client_port ctx = find_index (λ p. not p.in_use) ctx.client_ports

unfoldable pub find_pending_connect : Context → ℕ → Option ℕ
find_pending_connect ctx local_port =
    find_index (λ p. p.in_use && p.local_port == local_port) ctx.pending_connects

unfoldable pub allocate_pending_connect : Context → Option ℕ
allocate_pending_connect ctx = find_index (λ p. not p.in_use) ctx.pending_connects

abbrev pub emit : Context → List Effect → Context
emit ctx effects = record ctx { out = ctx.out ++ effects }

unfoldable pub count_where : {A : Type 0} → (A → Bool) → List A → ℕ
count_where test [] = 0
count_where test (x ∷ xs) = (if test x then 1 else 0) + count_where test xs

unfoldable pub recount_registry : Context → Context
unfolding count_where
recount_registry ctx = emit ctx (
    recount (count_where (λ l. l.in_use && l.bound) ctx.listeners)
      (count_where (λ c. c.in_use) ctx.connections)
      (count_where (λ c. c.in_use && is_syn_sent c.state) ctx.connections)
    ∷ [])

-- All but the address is reset.
unfoldable pub reset_connection : Connection → Connection
reset_connection conn = record {
  in_use = false;
  own_app_pipe_handle = false;
  id = 0;
  state = closed;
  remote_ip = conn.remote_ip;
  local_port = 0;
  remote_port = 0;
  remote_next_seq = 0;
  local_next_seq = 0;
  pending_ack_bytes = 0;
  app_pipe_handle = 0;
  endpoint_handle = 0;
  endpoint_id = 0;
  pending_ack_segments = 0;
  syn_retransmits = 0;
  syn_retry_deadline_ms = 0;
  inbound = false;
}

unfoldable pub update_at : {A : Type 0} → (A → A) → ℕ → List A → List A
update_at f i [] = []
update_at f zero (x ∷ xs) = f x ∷ xs
update_at f (suc i) (x ∷ xs) = x ∷ update_at f i xs

-- A port that is bound stays for later connections.
unfoldable pub free_port : ClientPort → ClientPort
free_port p =
    if p.bound
    then record p { binding_in_progress = false }
    else record p { binding_in_progress = false; in_use = false; port = 0 }

unfoldable pub release_client_port : Context → ℕ → Context
release_client_port ctx port = elim (find_client_port ctx port) [
  | none ↦ ctx
  | some i ↦ record ctx { client_ports = update_at free_port i ctx.client_ports }
]

abbrev pub close_handle : ℕ → List Effect
close_handle handle = if handle == 0 then [] else close_descriptor handle ∷ []

-- `conn` is the connection at `i`.
unfoldable pub close_connection : Context → ℕ → Connection → CloseReason → Context
close_connection ctx i conn reason =
    let told = emit ctx (
      closed_event conn.id reason ∷ close_handle conn.endpoint_handle
      ++ (if conn.own_app_pipe_handle then close_handle conn.app_pipe_handle else [])) in
    let reset = record told { connections = set told.connections i (reset_connection conn) } in
    recount_registry (
      if not conn.inbound && not (conn.local_port == 0)
      then release_client_port reset conn.local_port
      else reset)

-- What the reaction of a connection does to the state.
unfoldable pub react : Context → ℕ → Reaction → Context
react ctx i r =
    let next = emit (record ctx { connections = set ctx.connections i r.conn }) r.out in
    elim r.closing [
      | some reason ↦ close_connection next i r.conn reason
      | none ↦ if r.recounts then recount_registry next else next
    ]
