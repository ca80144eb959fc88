-- ===== src/Store/Json/Tests.antt =====
-- A coding of the objects of a `PeerInfo`, and the theorem at a concrete input.
use go_libp2p_peerstore.Prelude.{
  ℕ, zero, suc, List, [], ◌∷◌, ◌++◌, Option, none, some, Bytes, bytes_eq, int_eq, ◌≡◌, refl, length,
}
use go_libp2p_peerstore.Prelude.{take, drop}
use go_libp2p_peerstore.Store.Peers.{PeerInfo}
use go_libp2p_peerstore.Store.Json.{
  JsonValue, json_string, json_array, json_other, JsonObject, InfoCoding, read_info, info_json,
  marshal_info, unmarshal_info, unmarshal_info-marshal_info,
}

-- A string is its length and its bytes; an array, 1 and its strings; anything else, 2.
unfoldable strings_text : List (Option Bytes) → Bytes
strings_text [] = []
strings_text (none ∷ vs) = strings_text vs
strings_text (some v ∷ vs) = length v ∷ v ++ strings_text vs

unfoldable value_text : JsonValue → Bytes
value_text (json_string v) = 0 ∷ length v ∷ v
value_text (json_array vs) = 1 ∷ length vs ∷ strings_text vs
value_text json_other = 2 ∷ []

unfoldable strings_of : ℕ → Bytes → List (Option Bytes)
strings_of zero bs = []
strings_of (suc n) [] = []
strings_of (suc n) (k ∷ bs) = some (take k bs) ∷ strings_of n (drop k bs)

unfoldable value_of : Bytes → JsonValue
value_of (zero ∷ n ∷ bs) = json_string (take n bs)
value_of (suc zero ∷ n ∷ bs) = json_array (strings_of n bs)
value_of bs = json_other

unfoldable object_of : Bytes → Option JsonObject
object_of [] = none
object_of (n ∷ bs) =
    some (record { id_member = value_of (take n bs); addrs_member = value_of (drop n bs) })

unfoldable object_text : JsonObject → Bytes
object_text o =
    length (value_text o.id_member) ∷ value_text o.id_member ++ value_text o.addrs_member

abbrev plain : InfoCoding Bytes
plain = record {
  pretty = λ id. 9 ∷ id;
  decode = λ t. some (drop 1 t);
  text = λ a. a;
  string_cast = λ t. some t;
  json_text = object_text;
  json_parse = object_of;
}

abbrev laptop : PeerInfo Bytes
laptop = record { id = 5 ∷ 6 ∷ []; addrs = (1 ∷ []) ∷ (3 ∷ 4 ∷ []) ∷ [] }

abbrev known : PeerInfo Bytes
known = record { id = 7 ∷ []; addrs = (8 ∷ []) ∷ [] }

unmarshal_info-marshal_info_example :
    unmarshal_info plain (marshal_info plain laptop) known
    ≡ read_info (record { id = 5 ∷ 6 ∷ []; addrs = (8 ∷ []) ∷ (1 ∷ []) ∷ (3 ∷ 4 ∷ []) ∷ [] })
unfolding info_json object_text object_of value_text value_of strings_text strings_of
unmarshal_info-marshal_info_example =
    unmarshal_info-marshal_info plain laptop known (λ a. refl) refl refl
