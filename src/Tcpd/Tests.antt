-- ===== src/Tcpd/Tests.antt =====
-- Runs of the TCP service, and the theorems at them.
use packages_repo_main.Tcpd.Handshake.{handle_event-MayHold, MayHold}
use packages_repo_main.Tcpd.Runs.{serve-IsConn}
use Prim.Native.Nat.{min}
use packages_repo_main.Tcpd.Receive.{receive_syn_sent, receive}
use packages_repo_main.Tcpd.Segments.{send_network_segment}
use packages_repo_main.Tcpd.Wellformed.{IsConn}
use packages_repo_main.Tcpd.Handlers.{
  send_syn_ack, open_new_endpoint, handle_new_connection, handle_tcp_segment, new_inbound,
}
use packages_repo_main.Tcpd.Ports.{IsUnused, choose_client_port_fresh, handle_connect_request_full}
use packages_repo_main.Tcpd.Service.{
  tcp_segment, bind_answer, handle_event, listen_request, serve, Event, first_context,
  no_connection,
}
use packages_repo_main.Tcpd.Requests.{
  listener_bound, handle_bind_response, add_listener, handle_listen_request, refuse_connect,
  handle_connect_request,
}
use packages_repo_main.Tcpd.Tables.{
  react, allocate_connection, find_connection_by_tuple, recount_registry, allocate_listener,
  find_listener, find_index, allocate_client_port,
}
use packages_repo_main.Tcpd.Outbound.{
  ephemeral_port_end, choose_client_port, ConnectRequest, ephemeral_port_start,
}
use packages_repo_main.Text.{streq, Bytes}
use packages_repo_main.Tcpd.State.{
  syn_sent, flag_syn, ClientPort, status_io, flag_ack, Context, Segment, Connection, Net,
  established,
}
use packages_repo_main.Prelude.{
  length, ◌+◌, get_elem?, false, refl, true, [], ◌≡◌, ◌≤◌, arith, ◌∷◌, List, ℕ, none, some,
}

abbrev some_net : Net
some_net = record {
  address = some (10 ∷ 0 ∷ 0 ∷ 2 ∷ []);
  takes = λ segment. true;
  takes_bind = λ port. true;
  open_pipe = λ id. some 7;
  open_endpoint = λ id. none;
  new_endpoint = none;
  takes_payload = λ handle payload. true;
  takes_bytes = λ handle payload. min 2 (length payload);
  now_ms = some 5000;
}

abbrev some_stream : Bytes
some_stream = 71 ∷ 69 ∷ 84 ∷ 47 ∷ []

-- A connection whose first byte has the number 4294967294, so that the numbers start anew.
abbrev some_connection : Connection
some_connection = record no_connection {
  in_use = true;
  id = 1;
  state = established;
  local_port = 80;
  remote_port = 50000;
  remote_next_seq = 4294967294;
  endpoint_handle = 9;
}

abbrev some_segment : ℕ → Bytes → Segment
some_segment number payload = record {
  source_ip = 10 ∷ 0 ∷ 0 ∷ 3 ∷ [];
  source_port = 50000;
  destination_port = 80;
  sequence_number = number;
  acknowledgment_number = 0;
  flags = flag_ack;
  payload = payload;
}

abbrev some_start : Segment
some_start = some_segment 4294967294 (71 ∷ 69 ∷ 84 ∷ [])

abbrev some_end : Segment
some_end = some_segment 1 (47 ∷ [])

-- The end comes too early, then the start twice, then the end.
abbrev some_segments : List (Net × Segment)
some_segments =
    (some_net, some_end)
    ∷ (some_net, some_start)
    ∷ (some_net, some_start)
    ∷ (some_net, some_end)
    ∷ []

abbrev broken_net : Net
broken_net = record some_net { takes_bytes = λ handle payload. 0 }

choose_client_port_fresh_example :
    (ephemeral_port_start ≤ choose_client_port first_context)
    × (choose_client_port first_context ≤ ephemeral_port_end)
    × IsUnused first_context (choose_client_port first_context)
choose_client_port_fresh_example = choose_client_port_fresh first_context (omega arith)

abbrev bound_port : ℕ → ClientPort
bound_port port = record { in_use = true; bound = true; binding_in_progress = false; port = port }

-- Eight ports were bound, all for connections that are closed by now.
abbrev full_context : Context
full_context = record first_context {
  client_ports =
      bound_port 49152
      ∷ bound_port 49153
      ∷ bound_port 49154
      ∷ bound_port 49155
      ∷ bound_port 49156
      ∷ bound_port 49157
      ∷ bound_port 49158
      ∷ bound_port 49159
      ∷ [];
}

abbrev some_request : ConnectRequest
some_request = record {
  reply_pipe_id = 3;
  remote_ip = 10 ∷ 0 ∷ 0 ∷ 3 ∷ [];
  remote_port = 80;
  endpoint_id = 0;
}

none_free : allocate_client_port full_context ≡ none
unfolding allocate_client_port find_index
none_free = refl

handle_connect_request_full_example :
    handle_connect_request some_net full_context some_request
    ≡ refuse_connect full_context 7 status_io 0
handle_connect_request_full_example =
    handle_connect_request_full some_net full_context some_request 7 (omega arith)
      (λ e. omega (arith, e)) (λ e. omega (arith, e)) refl none_free

abbrev first_segment : ℕ → Segment
first_segment flags = record {
  source_ip = 10 ∷ 0 ∷ 0 ∷ 3 ∷ [];
  source_port = 50000;
  destination_port = 80;
  sequence_number = 100;
  acknowledgment_number = 0;
  flags = flags;
  payload = [];
}

-- A program listens on port 80, the port is bound, and a connection is begun.
abbrev some_events : List (Net × Event)
some_events =
    (some_net, listen_request 3 80)
    ∷ (some_net, bind_answer 80 true)
    ∷ (some_net, tcp_segment (first_segment flag_syn))
    ∷ []

abbrev begun_connection : Connection
begun_connection =
    new_inbound 1 (record { in_use = true; bound = true; port = 80; app_pipe_handle = 7 })
      (first_segment flag_syn)

begun_by_events : get_elem? (serve first_context some_events).connections 0 ≡ some begun_connection
unfolding serve handle_event handle_listen_request find_listener find_index allocate_listener
    add_listener handle_bind_response listener_bound recount_registry handle_tcp_segment
    find_connection_by_tuple handle_new_connection allocate_connection new_inbound open_new_endpoint
    send_syn_ack send_network_segment
begun_by_events = refl

serve-IsConn_example : IsConn begun_connection
serve-IsConn_example = serve-IsConn some_events 0 begun_connection begun_by_events

abbrev asking_connection : Connection
asking_connection = record some_connection {
  state = syn_sent;
  local_next_seq = 500;
  remote_ip = 10 ∷ 0 ∷ 0 ∷ 3 ∷ [];
}

abbrev some_answer : Segment
some_answer = record (first_segment (flag_syn + flag_ack)) { acknowledgment_number = 500 }

-- The slot 0 holds the connection that the answer is for.
abbrev asking_context : Context
asking_context = record first_context { connections = asking_connection ∷ [] }

abbrev answered_connection : Connection
answered_connection = record asking_connection { state = established; remote_next_seq = 101 }

held_after :
    get_elem? (handle_event some_net asking_context (tcp_segment some_answer)).connections 0
    ≡ some answered_connection
unfolding handle_event handle_tcp_segment find_connection_by_tuple find_index streq receive
    receive_syn_sent react recount_registry
held_after = refl

handle_event-MayHold_example : MayHold asking_context (tcp_segment some_answer) 0
handle_event-MayHold_example =
    handle_event-MayHold asking_context (tcp_segment some_answer) some_net 0 answered_connection
      held_after refl
