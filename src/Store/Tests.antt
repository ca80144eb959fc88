-- ===== src/Store/Tests.antt =====
-- The theorems about the peer store at concrete inputs.
use go_libp2p_peerstore.Prelude.{
  ℕ, Bool, true, ◌||◌, List, [], ◌∷◌, some, Bytes, bytes_eq, bytes_beq, ◌≡◌, refl, ◌==◌,
  if◌then◌else◌, length, pos, ltb,
}
use go_libp2p_peerstore.Prelude.Maps.{lookup, contains}
use go_libp2p_peerstore.Mem.Metadata.{MemoryPeerMetadata, get, ds_key}
use go_libp2p_peerstore.Store.{
  Value, protocols, PeerMetadata, ok, put_error, protocols_key, protocol_map, get_protocol_map,
  add_protocols, get_protocols,
}
use go_libp2p_peerstore.Store.Protocols.{get_protocols-add_protocols}
use go_libp2p_peerstore.Store.Memory.{memory_peer_metadata, memory_peer_metadata-KeepsMetadata}
use go_libp2p_peerstore.Prelude.{map, ap, ◌++◌}
use go_libp2p_peerstore.Store.Info.{
  Multiaddrs, IsEncodable, p2p_text, info, info_to_p2p_addrs, info_from_p2p_addr,
  info_from_p2p_addr-info_to_p2p_addrs,
}
use go_libp2p_peerstore.Store.Peers.{PeerInfo}
use go_libp2p_peerstore.Store.Metrics.{Float64}

abbrev Data : Type 0
Data = MemoryPeerMetadata (Value Bool)

abbrev md : PeerMetadata Data (Value Bool)
md = memory_peer_metadata

abbrev IsPeer : Bytes → Type 0
IsPeer p = length p ≡ 1

abbrev a : Bytes
a = 1 ∷ []

abbrev b : Bytes
b = 2 ∷ []

abbrev http : Bytes
http = 104 ∷ []

abbrev ping : Bytes
ping = 112 ∷ []

-- The peer `a` speaks `http`.
abbrev start : Data
start = (1 ∷ 47 ∷ protocols_key, protocols ((http, tt) ∷ [])) ∷ []

get_protocols-add_protocols_example :
    (new : List Bytes) × (get_protocols md a (add_protocols md a (ping ∷ []) start).1
      ≡ (if a == a then ok new else get_protocols md a start))
    × ((x : Bytes) → contains x new ≡ (contains x (ping ∷ []) || contains x (http ∷ [])))
unfolding add_protocols put_error get_protocol_map get_protocols protocol_map get ds_key lookup
    bytes_beq
get_protocols-add_protocols_example =
    get_protocols-add_protocols md IsPeer (λ k. Unit) (memory_peer_metadata-KeepsMetadata 1) tt a a
      (ping ∷ []) (http ∷ []) start refl refl refl refl

-- Numbers for `float64`, where 0.1 is 0: the arithmetic is exact on them.
abbrev numbers : Float64 ℕ
numbers = record {
  of_duration = λ d. 0;
  to_duration = λ f. pos f;
  zero = 0;
  tenth = 0;
  one = 1;
  plus = λ x y. x;
  minus = λ x y. x;
  times = λ x y. y;
  less_than = ltb;
}

-- A multiaddress as its first part and the others.
abbrev Parts : Type 0
Parts = Bytes × List Bytes

abbrev singles : List Bytes → List Parts
singles [] = []
singles (x ∷ xs) = (x, []) ∷ singles xs

abbrev flat : List Parts → List Bytes
flat [] = []
flat ((x, xs) ∷ ms) = x ∷ xs ++ flat ms

abbrev joined : List Parts → Parts
joined [] = ([], [])
joined ((x, xs) ∷ ms) = (x, xs ++ flat ms)

abbrev ma : Multiaddrs Parts
ma = record {
  split = λ (x, xs). (x, []) ∷ singles xs;
  join = joined;
  encapsulate = λ (x, xs) (y, ys). (x, xs ++ y ∷ ys);
  new_multiaddr = λ t. some (t, []);
  is_ipfs = λ m. true;
  text = λ (x, xs). x;
  encode = λ id. id;
  decode = λ t. some t;
  ipfs_name = 112 ∷ [];
}

singles-append : (xs : List Bytes) (y : Bytes) → singles (xs ++ y ∷ []) ≡ singles xs ++ (y, []) ∷ []
singles-append [] y = refl
singles-append (x ∷ xs) y = ap (◌∷◌ (x, [])) (singles-append xs y)

flat-singles : (xs : List Bytes) → flat (singles xs) ≡ xs
flat-singles [] = refl
flat-singles (x ∷ xs) = ap (◌∷◌ x) (flat-singles xs)

abbrev laptop : PeerInfo Parts
laptop = record { id = 5 ∷ 6 ∷ []; addrs = (1 ∷ [], (2 ∷ []) ∷ []) ∷ (3 ∷ [], []) ∷ [] }

laptop-IsEncodable : IsEncodable ma (5 ∷ 6 ∷ [])
unfolding p2p_text contains
laptop-IsEncodable = record {
  p2paddr = (47 ∷ 112 ∷ 47 ∷ 5 ∷ 6 ∷ [], []);
  parsed = refl;
  printed = refl;
  coded = refl;
  plain = refl;
  decoded = refl;
  parts = λ (x, xs). ap (◌∷◌ (x, [])) (singles-append xs (47 ∷ 112 ∷ 47 ∷ 5 ∷ 6 ∷ []));
  joined = λ (x, xs). ap (λ ys. (x, ys)) (flat-singles xs);
  filled = λ (x, xs) e. cc;
}

info_from_p2p_addr-info_to_p2p_addrs_example :
    (out : List Parts) × (info_to_p2p_addrs ma laptop ≡ some out)
    × (map (λ m. info_from_p2p_addr ma (some m)) out
        ≡ map (λ m. info (record { id = 5 ∷ 6 ∷ []; addrs = m ∷ [] })) laptop.addrs)
info_from_p2p_addr-info_to_p2p_addrs_example =
    info_from_p2p_addr-info_to_p2p_addrs ma laptop laptop-IsEncodable
