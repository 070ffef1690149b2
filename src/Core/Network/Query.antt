-- ===== src/Core/Network/Query.antt =====
-- core/network.go: what tor answers on a control connection (queryTorState).
use ricochet_go.Common.{
  ℕ, ◌-◌, Bool, true, ◌&&◌, ltb, Option, none, some, List, [], ◌∷◌, ◌++◌, codes, Bytes, bytes_eq,
  Dict, lookup, insert, has_prefix, ◌==◌, if◌then◌else◌,
}
use ricochet_go.Rpc.{TorConnectionStatus, TorConnectionState}
use ricochet_go.Core.Utils.{unquote_string_split}

pub data Result (A : Type 0) : Type 0 where
  ok : A → Result A
  failed : Bytes → Result A

-- What tor answers to a connection: an error, or nil, of `Dial` and `Authenticate`, the version of
-- `ProtocolInfo`, the answer to SETEVENTS, and the lines of GETINFO.
pub record Tor : Type 0 where
  pub dial_error : Option Bytes
  pub authenticate_error : Option Bytes
  pub protocol_info : Result Bytes
  pub set_events_error : Option Bytes
  pub get_info : Result (List Bytes)

abbrev pub invalid_format : Bytes
invalid_format = codes "Invalid GETINFO response format"

-- `strings.SplitN`, with at most `n` parts.
unfoldable pub split_n : ℕ → ℕ → Bytes → Bytes → List Bytes
split_n n sep part [] = part ∷ []
split_n n sep part (b ∷ s) =
    let next = split_n (n - 1) sep [] s in
    let longer = split_n n sep (part ++ b ∷ []) s in
    if b == sep && ltb 1 n then part ∷ next else longer

-- `strings.Contains`.
unfoldable pub contains : Bytes → Bytes → Bool
unfolding has_prefix
contains [] sub = bytes_eq sub []
contains (b ∷ s) sub = let later = contains s sub in if has_prefix (b ∷ s) sub then true else later

-- `strings.Join` with spaces.
unfoldable pub join : List Bytes → Bytes
join [] = []
join (s ∷ []) = s
join (s ∷ t ∷ rest) = s ++ codes " " ++ join (t ∷ rest)

abbrev pub value_of : Bytes → Dict Bytes → Bytes
value_of key results = elim (lookup key results) [ none ↦ [] | some v ↦ v ]

abbrev pub circuit_established : Bytes
circuit_established = codes "status/circuit-established"

abbrev pub bootstrap_phase : Bytes
bootstrap_phase = codes "status/bootstrap-phase"

-- Whether tor is offline or still starting, by its bootstrap phase.
abbrev pub without_circuit : Bytes → TorConnectionState
without_circuit progress =
    if contains progress (codes "TAG=done")
    then TorConnectionState.offline
    else TorConnectionState.bootstrapping

-- The status that the lines tell of.
unfoldable pub tor_state : Dict Bytes → Result TorConnectionStatus
unfolding unquote_string_split contains
tor_state results =
    let established = value_of circuit_established results in
    let progress = value_of bootstrap_phase results in
    let status : TorConnectionState → Result TorConnectionStatus = λ s. ok (record {
      status = s;
      bootstrap_progress = progress;
      socks_address = unquote_string_split (value_of (codes "net/listeners/socks") results) b' ';
    }) in
    if bytes_eq established (codes "0")
    then status (without_circuit progress)
    else if bytes_eq established (codes "1")
    then status TorConnectionState.ready
    else failed invalid_format

-- `strings.TrimSpace`.
module _ (trim_space : Bytes → Bytes) where
  -- The loop of `queryTorState`.
  unfoldable pub read_lines : List Bytes → Dict Bytes → Result (Dict Bytes)
  unfolding split_n
  read_lines [] results = ok results
  read_lines (line ∷ rest) results = elim (split_n 2 b'=' [] line) [
    | key ∷ value ∷ [] ↦ read_lines rest (insert key (trim_space value) results)
    | _ ↦ failed invalid_format
  ]

  unfoldable pub query_tor_state : Result (List Bytes) → Result TorConnectionStatus
  unfolding read_lines tor_state
  query_tor_state (failed e) = failed e
  query_tor_state (ok lines) = elim (read_lines lines []) [
    | failed e ↦ failed e
    | ok results ↦ tor_state results
  ]

  -- What `createConnection` and `connectControl` ask of the connection, in order.
  unfoldable pub handshake : Tor → Result (Bytes × TorConnectionStatus)
  unfolding query_tor_state
  handshake tor = elim tor.authenticate_error [
    | some e ↦ failed e
    | none ↦ elim tor.protocol_info [
      | failed e ↦ failed e
      | ok version ↦ elim tor.set_events_error [
        | some e ↦ failed e
        | none ↦ elim (query_tor_state tor.get_info) [
          | failed e ↦ failed e
          | ok status ↦ ok (version, status)
        ]
      ]
    ]
  ]
