-- ===== src/Tcpd/Requests.antt =====
-- network-services/src/tcpd.cpp: the requests to listen and to connect, and the answers to them.
use packages_repo_main.Tcpd.State.{Status}
use packages_repo_main.Tcpd.Outbound.{ConnectRequest, choose_client_port, begin_outbound_connection}
use packages_repo_main.Tcpd.Tables.{
  emit, find_pending_connect, free_port, allocate_client_port, allocate_listener, recount_registry,
  allocate_pending_connect, find_client_port, update_at, find_listener,
}
use packages_repo_main.Tcpd.State.{
  status_ok, close_descriptor, status_in_use, bind_request, listen_response, connect_response,
  PendingConnect, Effect, ClientPort, Listener, status_io, Context, Net,
}
use packages_repo_main.Prelude.{
  ◌∷◌, ◌||◌, set, [], get_elem?, ◌==◌, false, Bool, if◌then◌else◌, true, List, Option, ℕ, none,
  some,
}

-- The answer for a port that has a listener already.
unfoldable pub listen_failed : Net → ℕ → ℕ → List Effect
listen_failed net reply_pipe_id port = elim (net.open_pipe reply_pipe_id) [
  | none ↦ []
  | some handle ↦ listen_response handle status_in_use port ∷ close_descriptor handle ∷ []
]

-- The listener at a free place, with the request to bind its port.
unfoldable pub add_listener : Net → Context → ℕ → ℕ → ℕ → Context
add_listener net ctx i handle port =
    let listener : Listener = record {
      in_use = true;
      bound = false;
      port = port;
      app_pipe_handle = handle;
    } in
    if net.takes_bind port
    then emit (record ctx { listeners = set ctx.listeners i listener }) (bind_request port ∷ [])
    else emit (record ctx { listeners = set ctx.listeners i (record listener { in_use = false }) })
        (listen_response handle status_io port ∷ close_descriptor handle ∷ [])

unfoldable pub handle_listen_request : Net → Context → ℕ → ℕ → Context
handle_listen_request net ctx reply_pipe_id port =
    if reply_pipe_id == 0 || port == 0 then ctx else elim (find_listener ctx port) [
      | some i ↦ emit ctx (listen_failed net reply_pipe_id port)
      | none ↦ elim (allocate_listener ctx) [
        | none ↦ ctx
        | some i ↦ elim (net.open_pipe reply_pipe_id) [
          | none ↦ ctx
          | some handle ↦ add_listener net ctx i handle port
        ]
      ]
    ]

-- A program is told that it is not connected, and its pipe is closed.
abbrev pub refuse_connect : Context → ℕ → Status → ℕ → Context
refuse_connect ctx handle status local_port =
    emit ctx (connect_response handle status 0 local_port 0 ∷ close_descriptor handle ∷ [])

-- A connection from a port that is bound already.
unfoldable pub connect_bound : Net → Context → ℕ → ℕ → ConnectRequest → Context
connect_bound net ctx handle local_port request =
    let (begun, next) =
      begin_outbound_connection net ctx handle local_port request.remote_ip request.remote_port
        request.endpoint_id in
    if begun then next else refuse_connect next handle status_io local_port

-- The request to bind the port, with the connection that waits for it.
unfoldable pub connect_pending : Net → Context → ℕ → ℕ → ConnectRequest → ℕ → ℕ → Context
connect_pending net ctx handle local_port request i k =
    let binding : ClientPort = record {
      in_use = true;
      bound = false;
      binding_in_progress = true;
      port = local_port;
    } in
    let waiting : PendingConnect = record {
      in_use = true;
      app_pipe_handle = handle;
      endpoint_id = request.endpoint_id;
      local_port = local_port;
      remote_port = request.remote_port;
      remote_ip = request.remote_ip;
    } in
    if net.takes_bind local_port
    then emit
        (record ctx {
          client_ports = set ctx.client_ports i binding;
          pending_connects = set ctx.pending_connects k waiting;
        })
        (bind_request local_port ∷ [])
    else refuse_connect
        (record ctx {
          client_ports =
              set ctx.client_ports i
                (record binding { in_use = false; binding_in_progress = false; port = 0 });
          pending_connects = set ctx.pending_connects k (record waiting { in_use = false });
        })
        handle status_io local_port

-- The client port with that number, or one that is free.
unfoldable pub client_port_for : Context → ℕ → Option ℕ
client_port_for ctx port = elim (find_client_port ctx port) [
  | some i ↦ some i
  | none ↦ allocate_client_port ctx
]

abbrev pub is_bound_at : Context → Option ℕ → Bool
is_bound_at ctx none = false
is_bound_at ctx (some i) = elim (get_elem? ctx.client_ports i) [ none ↦ false | some p ↦ p.bound ]

-- There is no place for a port or for a connection that waits; a place for a port is left free.
unfoldable pub drop_client_port : Context → Option ℕ → Context
drop_client_port ctx none = ctx
drop_client_port ctx (some i) =
    if is_bound_at ctx (some i)
    then ctx
    else record ctx { client_ports = update_at free_port i ctx.client_ports }

unfoldable pub connect_unbound : Net → Context → ℕ → ℕ → ConnectRequest → Context
connect_unbound net ctx handle local_port request = elim (client_port_for ctx local_port) [
  | none ↦ refuse_connect ctx handle status_io 0
  | some i ↦ elim (allocate_pending_connect ctx) [
    | none ↦ refuse_connect (drop_client_port ctx (some i)) handle status_io 0
    | some k ↦ connect_pending net ctx handle local_port request i k
  ]
]

unfoldable pub handle_connect_request : Net → Context → ConnectRequest → Context
handle_connect_request net ctx request =
    if request.reply_pipe_id == 0 || request.remote_port == 0
    then ctx
    else elim (net.open_pipe request.reply_pipe_id) [
      | none ↦ ctx
      | some handle ↦
          let local_port = choose_client_port ctx in
          if local_port == 0
          then refuse_connect ctx handle status_io 0
          else if is_bound_at ctx (find_client_port ctx local_port)
          then connect_bound net ctx handle local_port request
          else connect_unbound net ctx handle local_port request
    ]

-- The answer for a listener.
unfoldable pub listener_bound : Context → ℕ → Listener → Bool → Context
listener_bound ctx i listener ok = recount_registry (
    if ok
    then emit (record ctx { listeners = set ctx.listeners i (record listener { bound = true }) })
        (listen_response listener.app_pipe_handle status_ok listener.port ∷ [])
    else emit
        (record ctx {
          listeners = set ctx.listeners i (record listener { in_use = false; bound = false });
        })
        (listen_response listener.app_pipe_handle status_in_use listener.port
          ∷ close_descriptor listener.app_pipe_handle
          ∷ []))

-- The answer for a connection that waits for its port.
unfoldable pub connect_answered :
    Net → Context → ℕ → ClientPort → ℕ → PendingConnect → Bool → Context
connect_answered net ctx i port k waiting ok =
    let done = set ctx.pending_connects k (record waiting { in_use = false }) in
    if ok
    then (let (begun, next) =
          begin_outbound_connection net
            (record ctx {
              client_ports =
                  set ctx.client_ports i
                    (record port { binding_in_progress = false; bound = true });
            })
            waiting.app_pipe_handle waiting.local_port waiting.remote_ip waiting.remote_port
            waiting.endpoint_id in
        record (if begun
          then next
          else refuse_connect next waiting.app_pipe_handle status_io waiting.local_port) {
            pending_connects = done;
          })
    else refuse_connect
        (record ctx {
          client_ports =
              set ctx.client_ports i
                (record { in_use = false; bound = false; binding_in_progress = false; port = 0 });
          pending_connects = done;
        })
        waiting.app_pipe_handle status_in_use 0

unfoldable pub handle_bind_response : Net → Context → ℕ → Bool → Context
handle_bind_response net ctx port ok = elim (find_listener ctx port) [
  | some i ↦ elim (get_elem? ctx.listeners i) [
    | none ↦ ctx
    | some listener ↦ listener_bound ctx i listener ok
  ]
  | none ↦ elim (find_pending_connect ctx port) [
    | none ↦ ctx
    | some k ↦ elim (find_client_port ctx port) [
      | none ↦ ctx
      | some i ↦ elim (get_elem? ctx.pending_connects k) [
        | none ↦ ctx
        | some waiting ↦ elim (get_elem? ctx.client_ports i) [
          | none ↦ ctx
          | some p ↦ connect_answered net ctx i p k waiting ok
        ]
      ]
    ]
  ]
]
