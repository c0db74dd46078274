-- ===== src/Tcpd.antt =====
-- network-services/src/tcpd.cpp: the TCP service. What the service tells the kernel, the programs and
-- the network is a list of effects; what they answer is given by `Net`.
pub mod State
pub mod Segments
pub mod Receive
pub mod Tables
pub mod Handlers
pub mod Retry
pub mod Outbound
pub mod Requests
pub mod Service
pub mod Payload
pub mod Delivery
pub mod Occupied
pub mod Ports
pub mod Wellformed
pub mod Received
pub mod Invariant
pub mod Incoming
pub mod Reached
pub mod Served
pub mod Answers
pub mod Events
pub mod Runs
pub mod Handshake
pub mod Tests
