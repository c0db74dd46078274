-- ===== src/Tcpd/Outbound.antt =====
-- network-services/src/tcpd.cpp: the connections that a program asks for.
use packages_repo_main.Tcpd.Handlers.{initial_seq}
use packages_repo_main.Tcpd.State.{u32}
use packages_repo_main.Text.{Bytes}
use packages_repo_main.Tcpd.Segments.{outgoing, send_network_segment}
use packages_repo_main.Tcpd.Tables.{
  close_handle, emit, finds, recount_registry, find_index, release_client_port, reset_connection,
  find_pending_connect, allocate_connection, find_client_port, find_listener,
}
use packages_repo_main.Tcpd.State.{
  outbound_syns, bump, syn_initial_retry_ms, flag_syn, ClientPort, Connection, Net, Context,
  syn_sent,
}
use packages_repo_main.Prelude.{
  ◌++◌, [], zero, set, ◌&&◌, ◌||◌, false, ◌==◌, ◌∷◌, not, Bool, if◌then◌else◌, true, ◌-◌, suc, ◌+◌,
  List, Option, ℕ, none, some,
}

abbrev pub ephemeral_port_start : ℕ
ephemeral_port_start = 49152

abbrev pub ephemeral_port_end : ℕ
ephemeral_port_end = 65535

unfoldable pub is_outbound_port_busy : Context → ℕ → Bool
is_outbound_port_busy ctx port =
    finds (find_listener ctx port)
    || finds (find_pending_connect ctx port)
    || finds (find_index (λ c. c.in_use && c.local_port == port) ctx.connections)

-- The first of `n` ports from `port` on that no client port has and that is not busy.
unfoldable pub fresh_port : Context → ℕ → ℕ → Option ℕ
fresh_port ctx zero port = none
fresh_port ctx (suc n) port =
    elim (not (finds (find_client_port ctx port)) && not (is_outbound_port_busy ctx port)) [
      | true ↦ some port
      | false ↦ fresh_port ctx n (suc port)
    ]

-- The first client port that is bound and not busy, 0 if there is none.
unfoldable pub cached_port : Context → List ClientPort → ℕ
cached_port ctx [] = 0
cached_port ctx (p ∷ ps) =
    elim (p.in_use
      && p.bound
      && not p.binding_in_progress
      && not (is_outbound_port_busy ctx p.port)) [ true ↦ p.port | false ↦ cached_port ctx ps ]

unfoldable pub choose_client_port : Context → ℕ
choose_client_port ctx =
    elim (fresh_port ctx (ephemeral_port_end + 1 - ephemeral_port_start) ephemeral_port_start) [
      | some port ↦ port
      | none ↦ cached_port ctx ctx.client_ports
    ]

-- A request to connect, `tcpd_protocol::ConnectRequest`.
pub record ConnectRequest : Type 0 where
  pub reply_pipe_id : ℕ
  pub remote_ip : Bytes
  pub remote_port : ℕ
  pub endpoint_id : ℕ

-- The connection that is begun, before there is an endpoint.
unfoldable pub new_outbound : ℕ → ℕ → ℕ → Bytes → ℕ → ℕ → Connection
new_outbound id app_pipe_handle local_port remote_ip remote_port endpoint_id = record {
  in_use = true;
  own_app_pipe_handle = true;
  id = id;
  state = syn_sent;
  remote_ip = remote_ip;
  local_port = local_port;
  remote_port = remote_port;
  remote_next_seq = 0;
  local_next_seq = u32 (initial_seq local_port id + 1);
  pending_ack_bytes = 0;
  app_pipe_handle = app_pipe_handle;
  endpoint_handle = 0;
  endpoint_id = endpoint_id;
  pending_ack_segments = 0;
  syn_retransmits = 0;
  syn_retry_deadline_ms = 0;
  inbound = false;
}

-- The endpoint of the program, `none` if it cannot be opened.
unfoldable pub open_endpoint_of : Net → Connection → Option Connection
open_endpoint_of net conn =
    if conn.endpoint_id == 0 then some conn else elim (net.open_endpoint conn.endpoint_id) [
      | none ↦ none
      | some handle ↦ some (record conn { endpoint_handle = handle })
    ]

-- The slot and the port are given back.
abbrev pub give_back : Context → ℕ → Connection → ℕ → Bool × Context
give_back ctx i conn local_port = (
  false,
  release_client_port (record ctx { connections = set ctx.connections i (reset_connection conn) })
      local_port,
)

-- The first segment, and the time of the next attempt.
unfoldable pub send_syn : Net → Bytes → Context → ℕ → Connection → Bool × Context
send_syn net address ctx i conn =
    let (sent, effects) =
      send_network_segment net
        (outgoing address conn (initial_seq conn.local_port conn.id) 0 flag_syn []) in
    if sent
    then (let timed : Connection = elim net.now_ms [
      | none ↦ conn
      | some now ↦ record conn { syn_retry_deadline_ms = now + syn_initial_retry_ms }
    ] in
        let begun =
          emit (record ctx { connections = set ctx.connections i timed })
            (effects ++ bump outbound_syns ∷ []) in
        (true, recount_registry begun))
    else give_back (emit ctx (effects ++ close_handle conn.endpoint_handle)) i conn conn.local_port

unfoldable pub begin_outbound_connection : Net → Context → ℕ → ℕ → Bytes → ℕ → ℕ → Bool × Context
begin_outbound_connection net ctx app_pipe_handle local_port remote_ip remote_port endpoint_id =
    elim (allocate_connection ctx) [
      | none ↦ (false, release_client_port ctx local_port)
      | some i ↦ elim net.address [
        | none ↦ (false, release_client_port ctx local_port)
        | some address ↦
            let id = u32 (ctx.next_connection_id + 1) in
            let numbered = record ctx { next_connection_id = id } in
            let conn =
              new_outbound id app_pipe_handle local_port remote_ip remote_port endpoint_id in
            elim (open_endpoint_of net conn) [
              | none ↦ give_back numbered i conn local_port
              | some opened ↦ send_syn net address numbered i opened
            ]
      ]
    ]
