-- ===== src/Core/Contact/Choice.antt =====
-- core/contact.go: two peers that connect to each other at the same time keep the same connection.
use ricochet_go.Common.{
  ℕ, ◌*◌, ◌^◌, ◌-◌, ◌≤◌, ◌≡◌, ◌≢◌, Bool, true, false, not, some, Bytes, bytes_lt, bytes_lt_swap,
  bool_eq, arith,
}
use ricochet_go.Core.Address.{plain_host_from_address}
use ricochet_go.Core.Contact.{Contact, Connection, should_replace_connection}

-- A connection between two peers as one of them sees it: inbound if the other one made it.
abbrev pub seen : ℕ → Bool → Bytes → Connection
seen id made_here remote = record {
  id = id;
  is_inbound = not made_here;
  remote_hostname = remote;
  authenticated = true;
}

abbrev pub using : Connection → Contact → Contact
using conn c = record c { connection = some conn }

abbrev pub host : Bytes → Bytes
host address = (plain_host_from_address address).0

-- The connection in use is at most thirty seconds old.
abbrev pub IsRecent : ℕ → Contact → Type 0
IsRecent now c = now - c.time_connected ≤ 30 * 10 ^ 9

should_replace_recent :
    (mine : Bytes) (now : ℕ) (c : Contact) (i j : ℕ) (made : Bool) (remote : Bytes)
    → IsRecent now c
    → should_replace_connection mine now (using (seen i made remote) c) (seen j (not made) remote)
      ≡ not (bool_eq (bytes_lt (host mine) remote) made)
unfolding should_replace_connection
should_replace_recent mine now c i j true remote h = ground arith
should_replace_recent mine now c i j false remote h = ground arith

-- Peers `a` and `b`, whose hosts differ, have made connections `i` and `j` to each other, each within thirty seconds. Then
-- on each side it does not matter which of them came first, and both sides
-- keep the same one.
pub should_replace_connection_agrees :
    (a b : Bytes) (now_a now_b : ℕ) (at_a at_b : Contact) (i j : ℕ)
    → host a ≢ host b
    → IsRecent now_a at_a
    → IsRecent now_b at_b
    → let ia = seen i true (host b) in
      let ja = seen j false (host b) in
      let ib = seen i false (host a) in
      let jb = seen j true (host a) in
      (should_replace_connection a now_a (using ia at_a) ja
        ≡ not (should_replace_connection a now_a (using ja at_a) ia))
      × (should_replace_connection b now_b (using ib at_b) jb
          ≡ not (should_replace_connection b now_b (using jb at_b) ib))
      × (should_replace_connection a now_a (using ia at_a) ja
          ≡ should_replace_connection b now_b (using ib at_b) jb)
should_replace_connection_agrees a b now_a now_b at_a at_b i j d ra rb = ground (
  arith,
  should_replace_recent a now_a at_a i j true (host b) ra,
  should_replace_recent a now_a at_a j i false (host b) ra,
  should_replace_recent b now_b at_b i j false (host a) rb,
  should_replace_recent b now_b at_b j i true (host a) rb,
  bytes_lt_swap (host a) (host b) d,
)
