-- ===== src/Tcpd/Occupied.antt =====
-- The ports that the tables of the service hold.
use packages_repo_main.Tcpd.Outbound.{is_outbound_port_busy}
use packages_repo_main.Tcpd.State.{ClientPort, Connection, PendingConnect, Listener, Context}
use packages_repo_main.Tcpd.Tables.{
  find_pending_connect, find_listener, finds, find_client_port, find_index,
}
use mathlib.Core.Option
use packages_repo_main.Prelude.{
  inr, inl, Bool-cases, zero, [], arith, refl, ◌++◌, ◌+◌, ◌≢◌, length, ◌==◌, ◌||◌, ◌&&◌, suc, ◌<◌,
  true, if◌then◌else◌, false, map, ◌≤◌, ◌≡◌, ◌∷◌, Bool, Option, ℕ, List, none, some,
}

unfoldable pub has_port : List ℕ → ℕ → Bool
has_port [] k = false
has_port (p ∷ ps) k = p == k || has_port ps k

remove_one : ℕ → List ℕ → List ℕ
remove_one k [] = []
remove_one k (p ∷ ps) = if p == k then ps else p ∷ remove_one k ps

length-remove_one :
    (k : ℕ) (ps : List ℕ) → has_port ps k ≡ true → length ps ≡ suc (length (remove_one k ps))
unfolding has_port remove_one
length-remove_one k [] h = cc
length-remove_one k (p ∷ ps) h = ground (arith, length-remove_one k ps)

has_port-remove_one :
    (k j : ℕ) (ps : List ℕ) → has_port ps j ≡ true → k ≢ j → has_port (remove_one k ps) j ≡ true
unfolding has_port remove_one
has_port-remove_one k j [] h ne = cc
has_port-remove_one k j (p ∷ ps) h ne = ground (arith, has_port-remove_one k j ps)

-- A list that has `n` ports in a row has at least `n` entries.
pub pigeonhole :
    (n first : ℕ) (ps : List ℕ)
    → ((k : ℕ) → first ≤ k → k < first + n → has_port ps k ≡ true)
    → n ≤ length ps
pigeonhole zero first ps h = omega arith
pigeonhole (suc n) first ps h = omega (
  arith,
  length-remove_one first ps (h first (omega arith) (omega arith)),
  pigeonhole n (suc first) (remove_one first ps) (λ k lo hi.
      has_port-remove_one first k ps (h k (omega arith) (omega arith)) (λ e. omega (arith, e))),
)

has_port_left : (xs ys : List ℕ) (k : ℕ) → has_port xs k ≡ true → has_port (xs ++ ys) k ≡ true
unfolding has_port
has_port_left [] ys k h = cc
has_port_left (x ∷ xs) ys k h = ground (arith, has_port_left xs ys k)

has_port_right : (xs ys : List ℕ) (k : ℕ) → has_port ys k ≡ true → has_port (xs ++ ys) k ≡ true
unfolding has_port
has_port_right [] ys k h = h
has_port_right (x ∷ xs) ys k h = ground (arith, has_port_right xs ys k h)

pub finds-map : (o : Option ℕ) → finds (Option.map suc o) ≡ finds o
finds-map none = refl
finds-map (some i) = refl

-- An entry that is found has the port that was asked for.
found_port :
    {A : Type 0} (used : A → Bool) (port : A → ℕ) (k : ℕ) (xs : List A)
    → finds (find_index (λ x. used x && port x == k) xs) ≡ true
    → has_port (map port xs) k ≡ true
unfolding has_port find_index
found_port used port k [] h = cc
found_port used port k (x ∷ xs) h =
    ground
      (arith, found_port used port k xs, finds-map (find_index (λ x. used x && port x == k) xs))

unfoldable pub occupied : Context → List ℕ
occupied ctx =
    map (λ (l : Listener). l.port) ctx.listeners
    ++ (map (λ (p : PendingConnect). p.local_port) ctx.pending_connects
        ++ (map (λ (c : Connection). c.local_port) ctx.connections
            ++ map (λ (p : ClientPort). p.port) ctx.client_ports))

abbrev pub is_taken : Context → ℕ → Bool
is_taken ctx k = finds (find_client_port ctx k) || is_outbound_port_busy ctx k

pub taken-occupied :
    (ctx : Context) (k : ℕ) → is_taken ctx k ≡ true → has_port (occupied ctx) k ≡ true
unfolding occupied find_client_port is_outbound_port_busy find_listener find_pending_connect
taken-occupied ctx k h =
    let ls = map (λ (l : Listener). l.port) ctx.listeners in
    let ps = map (λ (p : PendingConnect). p.local_port) ctx.pending_connects in
    let cs = map (λ (c : Connection). c.local_port) ctx.connections in
    let us = map (λ (p : ClientPort). p.port) ctx.client_ports in
    elim (Bool-cases (finds (find_client_port ctx k))) [
      | inl u ↦ has_port_right ls (ps ++ (cs ++ us)) k (
          has_port_right ps (cs ++ us) k (
            has_port_right cs us k
              (found_port (λ p. p.in_use) (λ (p : ClientPort). p.port) k ctx.client_ports u)))
      | inr u ↦ elim (Bool-cases (finds (find_listener ctx k))) [
        | inl l ↦
            has_port_left ls (ps ++ (cs ++ us)) k
              (found_port (λ l. l.in_use) (λ (l : Listener). l.port) k ctx.listeners l)
        | inr l ↦ elim (Bool-cases (finds (find_pending_connect ctx k))) [
          | inl p ↦ has_port_right ls (ps ++ (cs ++ us)) k (
              has_port_left ps (cs ++ us) k (
                found_port (λ p. p.in_use) (λ (p : PendingConnect). p.local_port) k
                  ctx.pending_connects p))
          | inr p ↦ has_port_right ls (ps ++ (cs ++ us)) k (
              has_port_right ps (cs ++ us) k (
                has_port_left cs us k (
                  found_port (λ c. c.in_use) (λ (c : Connection). c.local_port) k ctx.connections
                    (ground (arith, h, u, l, p)))))
        ]
      ]
    ]
