-- ===== src/Tcpd/State.antt =====
-- network-services/src/tcpd.cpp: the records of the TCP service, and its effects.
use packages_repo_main.Text.{Bytes}
use packages_repo_main.Prelude.{false, true, ◌==◌, ◌/◌, List, Option, Bool, ◌%◌, ℕ}

abbrev pub u32 : ℕ → ℕ
u32 n = n % 4294967296

abbrev pub max_connections : ℕ
max_connections = 32

abbrev pub ack_flush_bytes : ℕ
ack_flush_bytes = 8192

abbrev pub ack_flush_segments : ℕ
ack_flush_segments = 4

abbrev pub syn_initial_retry_ms : ℕ
syn_initial_retry_ms = 1000

abbrev pub syn_max_retransmits : ℕ
syn_max_retransmits = 3

pub data ConnectionState : Type 0 where
  closed syn_received syn_sent established : ConnectionState

abbrev pub is_established : ConnectionState → Bool
is_established established = true
is_established closed = false
is_established syn_received = false
is_established syn_sent = false

-- Handles and ids of the kernel are numbers, 0 where there is none.
pub record Listener : Type 0 where
  pub in_use : Bool
  pub bound : Bool
  pub port : ℕ
  pub app_pipe_handle : ℕ

-- `inbound` is whether `listener` is not null, which is all that is asked of it.
pub record Connection : Type 0 where
  pub in_use : Bool
  pub own_app_pipe_handle : Bool
  pub id : ℕ
  pub state : ConnectionState
  pub remote_ip : Bytes
  pub local_port : ℕ
  pub remote_port : ℕ
  pub remote_next_seq : ℕ
  pub local_next_seq : ℕ
  pub pending_ack_bytes : ℕ
  pub app_pipe_handle : ℕ
  pub endpoint_handle : ℕ
  pub endpoint_id : ℕ
  pub pending_ack_segments : ℕ
  pub syn_retransmits : ℕ
  pub syn_retry_deadline_ms : ℕ
  pub inbound : Bool

pub record ClientPort : Type 0 where
  pub in_use : Bool
  pub bound : Bool
  pub binding_in_progress : Bool
  pub port : ℕ

pub record PendingConnect : Type 0 where
  pub in_use : Bool
  pub app_pipe_handle : ℕ
  pub endpoint_id : ℕ
  pub local_port : ℕ
  pub remote_port : ℕ
  pub remote_ip : Bytes

-- A segment that was received, `networkd_protocol::TcpSegmentEvent`.
pub record Segment : Type 0 where
  pub source_ip : Bytes
  pub source_port : ℕ
  pub destination_port : ℕ
  pub sequence_number : ℕ
  pub acknowledgment_number : ℕ
  pub flags : ℕ
  pub payload : Bytes

-- A segment to be sent, `networkd_protocol::SendTcpRequest`.
pub record Outgoing : Type 0 where
  pub source_ip : Bytes
  pub destination_ip : Bytes
  pub source_port : ℕ
  pub destination_port : ℕ
  pub sequence_number : ℕ
  pub acknowledgment_number : ℕ
  pub flags : ℕ
  pub payload : Bytes

abbrev pub flag_fin : ℕ
flag_fin = 1

abbrev pub flag_syn : ℕ
flag_syn = 2

abbrev pub flag_rst : ℕ
flag_rst = 4

abbrev pub flag_psh : ℕ
flag_psh = 8

abbrev pub flag_ack : ℕ
flag_ack = 16

-- `(flags & flag) != 0`, for a flag of one bit.
abbrev pub has : ℕ → ℕ → Bool
has flags flag = flags / flag % 2 == 1

pub data Status : Type 0 where
  status_ok status_in_use status_not_found status_io : Status

pub data CloseReason : Type 0 where
  remote_fin remote_rst local_close : CloseReason

-- The counters of the registry that are only ever counted up. The service ends at its start where there
-- is no registry, so that the source's tests for one always pass.
pub data Counter : Type 0 where
  rx_segments tx_segments inbound_syns syn_ack_retransmits established_count : Counter
  wait_ack_mismatch remote_resets remote_fins outbound_syns : Counter
  outbound_syn_retransmits outbound_connect_timeouts : Counter

pub data Effect : Type 0 where
  transmit : Outgoing → Effect
  data_event : ℕ → Bytes → Effect
  -- The bytes that an endpoint took.
  endpoint_write : ℕ → Bytes → Effect
  accept_event : Connection → Effect
  closed_event : ℕ → CloseReason → Effect
  listen_response : ℕ → Status → ℕ → Effect
  connect_response : ℕ → Status → ℕ → ℕ → ℕ → Effect
  close_descriptor : ℕ → Effect
  bind_request : ℕ → Effect
  bump : Counter → Effect
  -- The last flags, sequence and acknowledgment numbers, and those that were expected.
  observe : Segment → ℕ → ℕ → Effect
  -- The bound listeners, the connections and those that are in `syn_sent`.
  recount : ℕ → ℕ → ℕ → Effect

-- What the outside answers while a message is handled: the configured address, whether the network
-- service takes a segment or a request to bind a port, the handles that are opened for a pipe or an
-- endpoint, a new endpoint with its id, whether a pipe takes the message with a payload, how many of
-- the bytes it is given an endpoint takes when it no longer would block, 0 if the write fails, and the
-- time in milliseconds.
pub record Net : Type 0 where
  pub address : Option Bytes
  pub takes : Outgoing → Bool
  pub takes_bind : ℕ → Bool
  pub open_pipe : ℕ → Option ℕ
  pub open_endpoint : ℕ → Option ℕ
  pub new_endpoint : Option (ℕ × ℕ)
  pub takes_payload : ℕ → Bytes → Bool
  pub takes_bytes : ℕ → Bytes → ℕ
  pub now_ms : Option ℕ

pub record Context : Type 0 where
  pub listeners : List Listener
  pub connections : List Connection
  pub client_ports : List ClientPort
  pub pending_connects : List PendingConnect
  pub next_connection_id : ℕ
  pub out : List Effect
