-- ===== src/Tcpd/Ports.antt =====
-- The local port of a connection that a program asks for.
use packages_repo_main.Tcpd.Tables.{
  find_pending_connect, find_listener, find_index, allocate_pending_connect, allocate_client_port,
  find_client_port, finds,
}
use packages_repo_main.Tcpd.Requests.{
  connect_pending, drop_client_port, refuse_connect, handle_connect_request, connect_unbound,
  client_port_for,
}
use packages_repo_main.Tcpd.Occupied.{finds-map, taken-occupied, pigeonhole, is_taken, occupied}
use packages_repo_main.Tcpd.State.{
  ClientPort, Connection, status_io, PendingConnect, Listener, Net, Context,
}
use packages_repo_main.Tcpd.Outbound.{
  cached_port, is_outbound_port_busy, ephemeral_port_end, ConnectRequest, ephemeral_port_start,
  choose_client_port, fresh_port,
}
use packages_repo_main.Prelude.{
  [], ◌∷◌, List, get_elem?, length-map, ◌++◌, zero, length-append, inr, sym, ◌==◌, ◌&&◌, ◌∙◌,
  Bool-cases, not, refl, ap, inl, arith, suc, ◌≢◌, Option-cases, map, ◌<◌, false, true, ◌≤◌, ◌+◌,
  ◌≡◌, ◌||◌, length, ℕ, Bool, Option, none, some,
}

fresh_port_taken :
    (ctx : Context) (n first : ℕ)
    → is_taken ctx first ≡ true
    → fresh_port ctx (suc n) first ≡ fresh_port ctx n (suc first)
unfolding fresh_port
fresh_port_taken ctx n first h =
    let no : (not (finds (find_client_port ctx first)) && not (is_outbound_port_busy ctx first))
        ≡ false =
      ground (arith, h) in
    ap
      (λ (b : Bool). elim b as (λ x. Option ℕ) [
        | true ↦ some first
        | false ↦ fresh_port ctx n (suc first)
      ])
      no

fresh_port_free :
    (ctx : Context) (n first : ℕ)
    → is_taken ctx first ≡ false
    → fresh_port ctx (suc n) first ≡ some first
unfolding fresh_port
fresh_port_free ctx n first h =
    let yes : (not (finds (find_client_port ctx first)) && not (is_outbound_port_busy ctx first))
        ≡ true =
      ground (arith, h) in
    ap
      (λ (b : Bool). elim b as (λ x. Option ℕ) [
        | true ↦ some first
        | false ↦ fresh_port ctx n (suc first)
      ])
      yes

fresh_port-eq-none :
    (ctx : Context) (n first k : ℕ)
    → fresh_port ctx n first ≡ none
    → first ≤ k
    → k < first + n
    → is_taken ctx k ≡ true
unfolding fresh_port
fresh_port-eq-none ctx zero first k e lo hi = absurd (omega arith)
fresh_port-eq-none ctx (suc n) first k e lo hi = elim (Bool-cases (is_taken ctx first)) [
  | inl t ↦ elim (Bool-cases (first == k)) [
    | inl same ↦ (let eq : first ≡ k = ground (arith, same) in rw⁻¹ eq t)
    | inr other ↦
        let later : suc first ≤ k = ground (arith, other, lo) in
        fresh_port-eq-none ctx n (suc first) k (sym (fresh_port_taken ctx n first t) ∙ e) later
          (omega arith)
  ]
  | inr f ↦ cc (fresh_port_free ctx n first f, e)
]

fresh_port-eq-some :
    (ctx : Context) (n first k : ℕ)
    → fresh_port ctx n first ≡ some k
    → (first ≤ k) × (k < first + n) × (is_taken ctx k ≡ false)
unfolding fresh_port
fresh_port-eq-some ctx zero first k e = cc
fresh_port-eq-some ctx (suc n) first k e = elim (Bool-cases (is_taken ctx first)) [
  | inl t ↦
      let (lo, hi, is_free) =
        fresh_port-eq-some ctx n (suc first) k (sym (fresh_port_taken ctx n first t) ∙ e) in
      (omega arith, omega arith, is_free)
  | inr f ↦
      let same : first ≡ k = cc (fresh_port_free ctx n first f, e) in
      rw⁻¹ same (omega arith, omega arith, f)
]

-- The tables have fewer entries than there are ports to choose from.
abbrev pub IsSmall : Context → Type 0
IsSmall ctx =
    length ctx.listeners
      + (length ctx.pending_connects + (length ctx.connections + length ctx.client_ports))
    < 16384

length-occupied :
    (ctx : Context)
    → length (occupied ctx)
      ≡ length ctx.listeners
        + (length ctx.pending_connects + (length ctx.connections + length ctx.client_ports))
unfolding occupied
length-occupied ctx =
    let ls = map (λ (l : Listener). l.port) ctx.listeners in
    let ps = map (λ (p : PendingConnect). p.local_port) ctx.pending_connects in
    let cs = map (λ (c : Connection). c.local_port) ctx.connections in
    let us = map (λ (p : ClientPort). p.port) ctx.client_ports in
    omega (
      arith,
      length-append ls (ps ++ (cs ++ us)),
      length-append ps (cs ++ us),
      length-append cs us,
      length-map ctx.listeners (λ (l : Listener). l.port),
      length-map ctx.pending_connects (λ (p : PendingConnect). p.local_port),
      length-map ctx.connections (λ (c : Connection). c.local_port),
      length-map ctx.client_ports (λ (p : ClientPort). p.port),
    )

fresh_port_found :
    (ctx : Context) → IsSmall ctx → (k : ℕ) × (fresh_port ctx 16384 ephemeral_port_start ≡ some k)
fresh_port_found ctx small = elim (Option-cases (fresh_port ctx 16384 ephemeral_port_start)) [
  | inl e ↦ absurd (
      omega (
        arith,
        small,
        length-occupied ctx,
        pigeonhole 16384 ephemeral_port_start (occupied ctx) (λ k lo hi.
            taken-occupied ctx k (fresh_port-eq-none ctx 16384 ephemeral_port_start k e lo hi)),
      ))
  | inr found ↦ found
]

not_found : (o : Option ℕ) → finds o ≡ false → o ≡ none
not_found none h = refl
not_found (some i) h = cc

or_false : {a b : Bool} → (a || b) ≡ false → (a ≡ false) × (b ≡ false)
or_false {a} {b} h = (ground (arith, h), ground (arith, h))

chosen_port :
    (ctx : Context)
    → IsSmall ctx
    → (ephemeral_port_start ≤ choose_client_port ctx)
      × (choose_client_port ctx ≤ ephemeral_port_end)
      × (is_taken ctx (choose_client_port ctx) ≡ false)
unfolding choose_client_port
chosen_port ctx small =
    let (k, e) = fresh_port_found ctx small in
    let (lo, hi, is_free) = fresh_port-eq-some ctx 16384 ephemeral_port_start k e in
    let chosen : choose_client_port ctx ≡ k =
      ap
        (λ (o : Option ℕ). elim o as (λ x. ℕ) [
          | some port ↦ port
          | none ↦ cached_port ctx ctx.client_ports
        ])
        e in
    rw chosen (lo, omega arith, is_free)

-- What a search by port does not find is not there.
search_missed :
    {A : Type 0} (used : A → Bool) (port : A → ℕ) (k : ℕ) (xs : List A) (i : ℕ) (x : A)
    → finds (find_index (λ x. used x && port x == k) xs) ≡ false
    → get_elem? xs i ≡ some x
    → used x ≡ true
    → port x ≢ k
unfolding find_index
search_missed used port k [] i x e h u = cc
search_missed used port k (y ∷ xs) zero x e h u =
    let same : y ≡ x = cc h in
    λ p.
      let used_y : used y ≡ true = ap used same ∙ u in
      let port_y : port y ≡ k = ap port same ∙ p in ground (arith, e, used_y, port_y)
search_missed used port k (y ∷ xs) (suc i) x e h u =
    search_missed used port k xs i x
      (ground (arith, e, finds-map (find_index (λ x. used x && port x == k) xs))) h u

-- No entry in use of any table has the port.
pub record IsUnused (ctx : Context) (port : ℕ) : Type 0 where
  pub listener :
      (i : ℕ) (l : Listener) → get_elem? ctx.listeners i ≡ some l → l.in_use ≡ true → l.port ≢ port
  pub client_port :
      (i : ℕ) (p : ClientPort)
      → get_elem? ctx.client_ports i ≡ some p
      → p.in_use ≡ true
      → p.port ≢ port
  pub connection :
      (i : ℕ) (c : Connection)
      → get_elem? ctx.connections i ≡ some c
      → c.in_use ≡ true
      → c.local_port ≢ port
  pub pending :
      (i : ℕ) (p : PendingConnect)
      → get_elem? ctx.pending_connects i ≡ some p
      → p.in_use ≡ true
      → p.local_port ≢ port

not_taken-IsUnused : (ctx : Context) (k : ℕ) → is_taken ctx k ≡ false → IsUnused ctx k
unfolding find_client_port is_outbound_port_busy find_listener find_pending_connect
not_taken-IsUnused ctx k e =
    let (no_client, idle) = or_false e in
    let (rest, no_connection) = or_false idle in
    let (no_listener, no_pending) = or_false rest in
    record {
      listener = λ i l h u.
          search_missed (λ (l : Listener). l.in_use) (λ l. l.port) k ctx.listeners i l no_listener h
            u;
      client_port = λ i p h u.
          search_missed (λ (p : ClientPort). p.in_use) (λ p. p.port) k ctx.client_ports i p
            no_client h u;
      connection = λ i c h u.
          search_missed (λ (c : Connection). c.in_use) (λ c. c.local_port) k ctx.connections i c
            no_connection h u;
      pending = λ i p h u.
          search_missed (λ (p : PendingConnect). p.in_use) (λ p. p.local_port) k
            ctx.pending_connects i p no_pending h u;
    }

-- With tables of this size, a port from 49152 to 65535 is chosen that no listener, client port,
-- connection or waiting request in use has.
pub choose_client_port_fresh :
    (ctx : Context)
    → IsSmall ctx
    → (ephemeral_port_start ≤ choose_client_port ctx)
      × (choose_client_port ctx ≤ ephemeral_port_end)
      × IsUnused ctx (choose_client_port ctx)
choose_client_port_fresh ctx small =
    let (lo, hi, is_free) = chosen_port ctx small in
    (lo, hi, not_taken-IsUnused ctx (choose_client_port ctx) is_free)

no_port_left :
    (ctx : Context) (port : ℕ)
    → find_client_port ctx port ≡ none
    → allocate_client_port ctx ≡ none
    → client_port_for ctx port ≡ none
unfolding client_port_for
no_port_left ctx port new full =
    ap
      (λ (o : Option ℕ). elim o as (λ x. Option ℕ) [
        | some i ↦ some i
        | none ↦ allocate_client_port ctx
      ])
      new
    ∙ full

connect_unbound_full :
    (net : Net) (ctx : Context) (handle port : ℕ) (request : ConnectRequest)
    → find_client_port ctx port ≡ none
    → allocate_client_port ctx ≡ none
    → connect_unbound net ctx handle port request ≡ refuse_connect ctx handle status_io 0
unfolding connect_unbound
connect_unbound_full net ctx handle port request new full =
    ap
      (λ (o : Option ℕ). elim o as (λ x. Context) [
        | none ↦ refuse_connect ctx handle status_io 0
        | some i ↦ elim (allocate_pending_connect ctx) as (λ x. Context) [
          | none ↦ refuse_connect (drop_client_port ctx (some i)) handle status_io 0
          | some k ↦ connect_pending net ctx handle port request i k
        ]
      ])
      (no_port_left ctx port new full)

-- Once every client port is in use, a program that asks for a connection is told that this failed,
-- since a port that is bound already is never the one that is chosen.
pub handle_connect_request_full :
    (net : Net) (ctx : Context) (request : ConnectRequest) (handle : ℕ)
    → IsSmall ctx
    → request.reply_pipe_id ≢ 0
    → request.remote_port ≢ 0
    → net.open_pipe request.reply_pipe_id ≡ some handle
    → allocate_client_port ctx ≡ none
    → handle_connect_request net ctx request ≡ refuse_connect ctx handle status_io 0
unfolding handle_connect_request
handle_connect_request_full net ctx request handle small pipe port opened full =
    let (lo, hi, is_free) = chosen_port ctx small in
    let new = not_found (find_client_port ctx (choose_client_port ctx)) (or_false is_free).0 in
    let asked : (request.reply_pipe_id == 0 || request.remote_port == 0) ≡ false =
      ground (arith, pipe, port) in
    let some_port : (choose_client_port ctx == 0) ≡ false = ground (arith, lo) in
    simp (
      asked,
      opened,
      some_port,
      new,
      connect_unbound_full net ctx handle (choose_client_port ctx) request new full,
    )
