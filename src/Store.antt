-- ===== src/Store.antt =====
-- peerstore.go: the peer store over a key book, an address book and a metadata store, which are its
-- parameters, and the latencies of metrics.go.
pub mod Protocols
pub mod Memory
pub mod Peers
pub mod Metrics
pub mod Info
pub mod Json
mod Tests
use go_libp2p_peerstore.Prelude.{
  ℕ, Bool, true, false, ◌&&◌, ◌||◌, List, [], ◌∷◌, ◌++◌, map, Option, none, some, Bytes, bytes_eq,
  ◌≡◌, refl, ◌==◌, if◌then◌else◌, is_some,
}
use go_libp2p_peerstore.Prelude.Maps.{Map, keys, lookup, insert}
use go_libp2p_peerstore.Mem.Metadata.{GetResult, value, not_found, failed}

-- `map[string]struct{}`
abbrev pub StringSet : Type 0
StringSet = Map {0, 0} Bytes Unit

-- What a metadata store holds: a set of protocols, or something else.
pub data Value (Other : Type 0) : Type 0 where
  protocols : StringSet → Value Other
  other : Other → Value Other

-- The methods of a `PeerMetadata` whose state is `Store`. `put` also tells whether its error is nil.
pub record PeerMetadata (Store V : Type 0) : Type 0 where
  pub put : Bytes → Bytes → V → Store → Bool × Store
  pub get : Bytes → Bytes → Store → GetResult V

pub data ProtocolError : Type 0 where
  get_failed : ProtocolError
  not_a_map : ProtocolError
  put_failed : ProtocolError

pub data Result (A : Type 0) : Type 0 where
  ok : A → Result A
  err : ProtocolError → Result A

-- `"protocols"`
abbrev pub protocols_key : Bytes
protocols_key = 112 ∷ 114 ∷ 111 ∷ 116 ∷ 111 ∷ 99 ∷ 111 ∷ 108 ∷ 115 ∷ []

-- `for _, proto := range protos { protomap[proto] = struct{}{} }`
unfoldable pub add_each : List Bytes → StringSet → StringSet
add_each [] protomap = protomap
add_each (proto ∷ protos) protomap = add_each protos (insert proto tt protomap)

-- The loop of `SupportsProtocols`.
unfoldable pub supported : StringSet → List Bytes → List Bytes
supported pmap [] = []
supported pmap (proto ∷ protos) =
    let rest = supported pmap protos in if is_some (lookup proto pmap) then proto ∷ rest else rest

unfoldable pub protocol_map : {Other : Type 0} → GetResult (Value Other) → Result (StringSet)
protocol_map failed = err get_failed
protocol_map not_found = ok []
protocol_map (value (protocols m)) = ok m
protocol_map (value (other x)) = err not_a_map

-- The error of the last `Put` of a method.
unfoldable pub put_error : Bool → Option ProtocolError
put_error true = none
put_error false = some put_failed

module _ {Store Other : Type 0} (md : PeerMetadata Store (Value Other)) where
  unfoldable pub get_protocol_map : Bytes → Store → Result (StringSet)
  get_protocol_map p s = protocol_map (md.get p protocols_key s)

  unfoldable pub set_protocols : Bytes → List Bytes → Store → Option ProtocolError × Store
  set_protocols p protos s =
      let (good, s') = md.put p protocols_key (protocols (add_each protos [])) s in
      (put_error good, s')

  unfoldable pub add_protocols : Bytes → List Bytes → Store → Option ProtocolError × Store
  add_protocols p protos s = elim (get_protocol_map p s) [
    | err e ↦ (some e, s)
    | ok protomap ↦
        let (good, s') = md.put p protocols_key (protocols (add_each protos protomap)) s in
        (put_error good, s')
  ]

  unfoldable pub get_protocols : Bytes → Store → Result (List Bytes)
  get_protocols p s = elim (get_protocol_map p s) [ err e ↦ err e | ok pmap ↦ ok (keys pmap) ]

  unfoldable pub supports_protocols : Bytes → List Bytes → Store → Result (List Bytes)
  supports_protocols p protos s = elim (get_protocol_map p s) [
    | err e ↦ err e
    | ok pmap ↦ ok (supported pmap protos)
  ]
