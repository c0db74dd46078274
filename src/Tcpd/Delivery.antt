-- ===== src/Tcpd/Delivery.antt =====
-- The payloads that an established connection delivers.
use packages_repo_main.Tcpd.State.{u32}
use packages_repo_main.Tcpd.Segments.{max_payload}
use packages_repo_main.Tcpd.Payload.{IsTaking, delivered}
use packages_repo_main.Tcpd.Receive.{stay, Reaction, receive}
use packages_repo_main.Text.{Bytes}
use packages_repo_main.Tcpd.State.{
  flag_fin, flag_rst, has, Net, Segment, CloseReason, Connection, established,
}
use packages_repo_main.Prelude.{
  false, drop, length, ◌∷◌, ◌++◌, [], ◌+◌, ◌≤◌, take, ◌≡◌, List, ℕ, Option, none, some,
}

abbrev followed {ℓ} : {A : Type ℓ} → Option CloseReason → A → A → A
followed none going ended = going
followed (some reason) going ended = ended

-- The segments, each with the answers of the outside, until one closes the connection.
unfoldable pub receive_segments : Connection → List (Net × Segment) → Reaction
receive_segments conn [] = stay conn []
receive_segments conn (e ∷ es) =
    let r = receive e.0 conn e.1 in
    let rest = receive_segments r.conn es in
    followed r.closing (record rest { out = r.out ++ rest.out }) r

-- A part of `stream`, numbered from `base` on, without an end or a reset.
pub record IsPartOf (stream : Bytes) (base : ℕ) (s : Segment) : Type 0 where
  pub first : ℕ
  pub inside : first + length s.payload ≤ length stream
  pub carries : s.payload ≡ take (length s.payload) (drop first stream)
  pub numbered : s.sequence_number ≡ u32 (base + first)
  pub fits : length s.payload ≤ max_payload
  pub keeps : has s.flags flag_rst ≡ false
  pub lasts : has s.flags flag_fin ≡ false

-- The first `n` bytes of the stream were taken.
pub record IsAt (stream : Bytes) (base : ℕ) (conn : Connection) (n : ℕ) : Type 0 where
  pub live : conn.state ≡ established
  pub next : conn.remote_next_seq ≡ u32 (base + n)
  pub taken : n ≤ length stream

-- What a segment of the stream does to a connection that took `n` bytes.
record Takes (stream : Bytes) (base n : ℕ) (r : Reaction) : Type 0 where
  total : ℕ
  arrives : IsAt stream base r.conn total
  stays : r.closing ≡ none
  delivers : take n stream ++ delivered r.out ≡ take total stream

unfoldable pub AreParts : Bytes → ℕ → List (Net × Segment) → Type 0
AreParts stream base [] = Unit
AreParts stream base (e ∷ es) = IsTaking e.0 × IsPartOf stream base e.1 × AreParts stream base es
