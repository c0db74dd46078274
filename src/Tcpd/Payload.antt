-- ===== src/Tcpd/Payload.antt =====
-- The payloads among the effects, and the acceptance of one.
use packages_repo_main.Tcpd.State.{u32}
use packages_repo_main.Tcpd.Receive.{accept_payload}
use packages_repo_main.Text.{Bytes}
use packages_repo_main.Tcpd.Segments.{
  write_bytes, outgoing, max_payload, note_pending, clear_pending_ack, send_data_event,
  send_ack_now, note_received_payload_for_ack, send_ack_only, send_network_segment,
}
use packages_repo_main.Tcpd.State.{
  endpoint_write, flag_ack, Outgoing, Net, Connection, Effect, data_event,
}
use packages_repo_main.Prelude.{
  zero, take-append-drop, length-drop, drop, take, ◌≢◌, suc, ◌<◌, not, true, append-nil, ◌∙◌, ap,
  sym, inr, refl, Bool-cases, ltb, inl, false, Option-cases, arith, append_assoc, ℕ, ◌≤◌, ◌==◌, ◌+◌,
  ◌≡◌, length, ◌++◌, ◌∷◌, [], List,
}

abbrev pub payload_of : Effect → Bytes
payload_of e = elim e [
  | data_event id payload ↦ payload
  | endpoint_write handle payload ↦ payload
  | _ ↦ []
]

-- What the effects hand over to the program, in order.
unfoldable pub delivered : List Effect → Bytes
delivered [] = []
delivered (e ∷ es) = payload_of e ++ delivered es

pub delivered-append : (xs ys : List Effect) → delivered (xs ++ ys) ≡ delivered xs ++ delivered ys
unfolding delivered
delivered-append [] ys = refl
delivered-append (e ∷ xs) ys =
    rw (delivered-append xs ys, append_assoc (payload_of e) (delivered xs) (delivered ys))

delivered-send_network_segment :
    (net : Net) (segment : Outgoing) → delivered (send_network_segment net segment).1 ≡ []
unfolding delivered send_network_segment
delivered-send_network_segment net segment = ground arith

pub delivered-send_ack_only :
    (net : Net) (conn : Connection) → delivered (send_ack_only net conn) ≡ []
unfolding send_ack_only delivered
delivered-send_ack_only net conn = elim (Option-cases net.address) [
  | inl e ↦ rw e refl
  | inr (address, e) ↦ rw e (
      delivered-send_network_segment net
        (outgoing address conn conn.local_next_seq conn.remote_next_seq flag_ack []))
]

-- Noting a payload changes no more of the connection than what is pending.
note_keeps :
    (net : Net) (conn : Connection) (k : ℕ)
    → ((note_received_payload_for_ack net conn k).0.state ≡ conn.state)
      × ((note_received_payload_for_ack net conn k).0.remote_next_seq ≡ conn.remote_next_seq)
      × (delivered (note_received_payload_for_ack net conn k).1 ≡ [])
unfolding note_received_payload_for_ack send_ack_now clear_pending_ack note_pending delivered
note_keeps net conn k = ground (arith, delivered-send_ack_only net (note_pending conn k))

length_zero : (xs : Bytes) → length xs ≡ 0 → xs ≡ []
length_zero [] e = refl
length_zero (x ∷ xs) e = absurd (omega (arith, e))

pub payload_keeps :
    (net : Net) (conn : Connection) (payload : Bytes)
    → (accept_payload net conn payload).0.state ≡ conn.state
unfolding accept_payload
payload_keeps net conn payload = ground (
  arith,
  note_keeps net (record conn { remote_next_seq = u32 (conn.remote_next_seq + length payload) })
      (length payload),
)

abbrev pub ahead : Connection → Bytes → Connection
ahead conn payload = record conn { remote_next_seq = u32 (conn.remote_next_seq + length payload) }

payload_some :
    (net : Net) (conn : Connection) (payload : Bytes)
    → (length payload == 0) ≡ false
    → accept_payload net conn payload ≡ (
      (note_received_payload_for_ack net (ahead conn payload) (length payload)).0,
      send_data_event net (ahead conn payload) payload
          ++ (note_received_payload_for_ack net (ahead conn payload) (length payload)).1,
    )
unfolding accept_payload
payload_some net conn payload e = simp e

-- What an accepted payload hands over is what `send_data_event` does.
pub payload_handed :
    (net : Net) (conn : Connection) (payload : Bytes)
    → (length payload == 0) ≡ false
    → delivered (accept_payload net conn payload).1
      ≡ delivered (send_data_event net (ahead conn payload) payload)
payload_handed net conn payload e =
    let events = send_data_event net (ahead conn payload) payload in
    let acks = note_received_payload_for_ack net (ahead conn payload) (length payload) in
    ap (λ (p : Connection × List Effect). delivered p.1) (payload_some net conn payload e)
    ∙ delivered-append events acks.1
    ∙ ap (λ t. delivered events ++ t) (note_keeps net (ahead conn payload) (length payload)).2
    ∙ append-nil (delivered events)

-- An accepted payload moves the number that is expected behind it, whatever became of it.
pub payload_next :
    (net : Net) (conn : Connection) (payload : Bytes)
    → (length payload == 0) ≡ false
    → (accept_payload net conn payload).0.remote_next_seq
      ≡ u32 (conn.remote_next_seq + length payload)
payload_next net conn payload e =
    ap (λ (p : Connection × List Effect). p.0.remote_next_seq) (payload_some net conn payload e)
    ∙ (note_keeps net (ahead conn payload) (length payload)).1

-- No write fails: a pipe takes the message, and an endpoint takes at least one byte of what it is given.
pub record IsTaking (net : Net) : Type 0 where
  pub message : (handle : ℕ) (payload : Bytes) → net.takes_payload handle payload ≡ true
  pub bytes :
      (handle : ℕ) (payload : Bytes) → 0 < length payload → 0 < net.takes_bytes handle payload

-- More rounds than there are bytes make no difference.
pub write_bytes_enough :
    (net : Net) (handle n m : ℕ) (payload : Bytes)
    → length payload ≤ n
    → length payload ≤ m
    → write_bytes net handle n payload ≡ write_bytes net handle m payload
unfolding write_bytes
write_bytes_enough net handle zero zero payload hn hm = refl
write_bytes_enough net handle zero (suc m) [] hn hm = refl
write_bytes_enough net handle (suc n) zero [] hn hm = refl
write_bytes_enough net handle zero (suc m) (b ∷ bs) hn hm = absurd (omega (arith, hn))
write_bytes_enough net handle (suc n) zero (b ∷ bs) hn hm = absurd (omega (arith, hm))
write_bytes_enough net handle (suc n) (suc m) [] hn hm = refl
write_bytes_enough net handle (suc n) (suc m) (b ∷ bs) hn hm =
    let taken = net.takes_bytes handle (b ∷ bs) in
    elim (Bool-cases (taken == 0)) [
      | inl e ↦ rw e refl
      | inr e ↦ rw e (
          ap (λ t. take taken (b ∷ bs) ++ t)
            (write_bytes_enough net handle n m (drop taken (b ∷ bs))
              (ground (arith, e, hn, length-drop taken (b ∷ bs)))
              (ground (arith, e, hm, length-drop taken (b ∷ bs)))))
    ]

-- Where no write fails, all bytes are written.
write_bytes_all :
    (net : Net) (handle n : ℕ) (payload : Bytes)
    → IsTaking net
    → length payload ≤ n
    → write_bytes net handle n payload ≡ payload
unfolding write_bytes
write_bytes_all net handle zero payload takes h = sym (length_zero payload (omega (arith, h)))
write_bytes_all net handle (suc n) [] takes h = refl
write_bytes_all net handle (suc n) (b ∷ bs) takes h =
    let taken = net.takes_bytes handle (b ∷ bs) in
    let some_taken : (taken == 0) ≡ false =
      ground (arith, takes.bytes handle (b ∷ bs) (omega arith)) in
    rw some_taken (
      ap (λ t. take taken (b ∷ bs) ++ t)
        (write_bytes_all net handle n (drop taken (b ∷ bs)) takes
          (ground (arith, some_taken, h, length-drop taken (b ∷ bs))))
      ∙ take-append-drop taken (b ∷ bs))

data_delivered :
    (net : Net) (conn : Connection) (payload : Bytes)
    → IsTaking net
    → length payload ≤ max_payload
    → delivered (send_data_event net conn payload) ≡ payload
unfolding delivered send_data_event
data_delivered net conn payload takes fits =
    let small : ltb max_payload (length payload) ≡ false = ground (arith, fits) in
    elim (Bool-cases (not (conn.endpoint_handle == 0))) [
      | inl e ↦
          rw (small, e)
            (append-nil (write_bytes net conn.endpoint_handle (length payload) payload)
              ∙ write_bytes_all net conn.endpoint_handle (length payload) payload takes
                  (omega arith))
      | inr e ↦ rw (small, e, takes.message conn.app_pipe_handle payload) (append-nil payload)
    ]

pub payload_delivered :
    (net : Net) (conn : Connection) (payload : Bytes)
    → IsTaking net
    → length payload ≤ max_payload
    → delivered (accept_payload net conn payload).1 ≡ payload
unfolding accept_payload delivered
payload_delivered net conn payload takes fits = elim (Bool-cases (length payload == 0)) [
  | inl e ↦ rw e (sym (length_zero payload (ground (arith, e))))
  | inr e ↦
      payload_handed net conn payload e ∙ data_delivered net (ahead conn payload) payload takes fits
]

-- Where the first write fails, nothing is handed over.
pub data_lost :
    (net : Net) (conn : Connection) (payload : Bytes)
    → conn.endpoint_handle ≢ 0
    → net.takes_bytes conn.endpoint_handle payload ≡ 0
    → delivered (send_data_event net conn payload) ≡ []
unfolding delivered send_data_event write_bytes
data_lost net conn [] live fails =
    let opened : not (conn.endpoint_handle == 0) ≡ true = ground (arith, live) in rw opened refl
data_lost net conn (b ∷ bs) live fails =
    let opened : not (conn.endpoint_handle == 0) ≡ true = ground (arith, live) in
    let none_taken : (net.takes_bytes conn.endpoint_handle (b ∷ bs) == 0) ≡ true =
      ground (arith, fails) in
    elim (Bool-cases (ltb max_payload (length (b ∷ bs)))) [
      | inl e ↦ rw e refl
      | inr e ↦ rw (e, opened, none_taken) refl
    ]

pub payload_advances :
    (net : Net) (conn : Connection) (payload : Bytes) (base n : ℕ)
    → conn.remote_next_seq ≡ u32 (base + n)
    → (accept_payload net conn payload).0.remote_next_seq ≡ u32 (base + (n + length payload))
unfolding accept_payload
payload_advances net conn payload base n e = ground (
  arith,
  note_keeps net (record conn { remote_next_seq = u32 (conn.remote_next_seq + length payload) })
      (length payload),
)
