-- ===== src/Store/Json.antt =====
-- peerinfo.go: the JSON forms of a `PeerInfo`. `encoding/json`, multiaddresses and the text of identifiers are
-- parameters.
mod Tests
use go_libp2p_peerstore.Prelude.{
  ℕ, zero, suc, ◌+◌, ◌≤◌, ◌<◌, Bool, true, false, not, ◌&&◌, ◌||◌, List, [], ◌∷◌, ◌++◌, map, Option,
  none, some, Bytes, bytes_eq, int_eq, ℤ, ◌≤ℤ◌, ◌<ℤ◌, ◌+ℤ◌, +ℤ_parts, ltb_ℤ, leb_ℤ, pos, negsuc,
  ◌≡◌, ◌≢◌, ◌↔◌, ◌⊎◌, refl, sym, ap, ◌∙◌, ◌==◌, ==_iff, if◌then◌else◌, arith, inl, inr, Bool-cases,
  Option-cases, is_some, All, length,
}
use go_libp2p_peerstore.Prelude.Maps.{
  Map, lookup, insert, delete, lookup-insert, lookup-delete, IsMap, AllValues, contains, IsDistinct,
  keys, contains-keys, AllValues-lookup, AllValues-insert, AllValues-delete, insert-IsMap,
  delete-IsMap,
}
use mathlib.Core.Option
use mathlib.Core.List.{append_assoc, append-nil}
use go_libp2p_peerstore.Store.Peers.{PeerInfo}

-- A JSON value as the code tells them apart. An array has its strings; an element that is none is `none`.
pub data JsonValue : Type 0 where
  json_string : Bytes → JsonValue
  json_array : List (Option Bytes) → JsonValue
  json_other : JsonValue

-- The members "ID" and "Addrs" of an object.
pub record JsonObject : Type 0 where
  pub id_member : JsonValue
  pub addrs_member : JsonValue

-- `pretty` and `decode` are `ID.Pretty` and `IDB58Decode`. `string_cast` is `none` where `StringCast`
-- panics. `json_parse` is `Unmarshal`, for an object.
pub record InfoCoding (M : Type 0) : Type 0 where
  pub pretty : Bytes → Bytes
  pub decode : Bytes → Option Bytes
  pub text : M → Bytes
  pub string_cast : Bytes → Option M
  pub json_text : JsonObject → Bytes
  pub json_parse : Bytes → Option JsonObject

pub data JsonResult (M : Type 0) : Type 0 where
  read_info : PeerInfo M → JsonResult M
  json_error : JsonResult M
  json_panic : JsonResult M

module _ {M : Type 0} (ic : InfoCoding M) where
  -- The object of `MarshalJSON`. Without addresses the slice of their texts is nil, which is null.
  unfoldable pub info_json : PeerInfo M → JsonObject
  info_json pi =
      let texts = json_array (map (λ a. some (ic.text a)) pi.addrs) in
      record {
        id_member = json_string (ic.pretty pi.id);
        addrs_member = elim pi.addrs [ [] ↦ json_other | a ∷ as' ↦ texts ];
      }

  unfoldable pub marshal_info : PeerInfo M → Bytes
  marshal_info pi = ic.json_text (info_json pi)

  -- The loop over the array: it panics on an element that is no string, or no address.
  unfoldable pub cast_addrs : List (Option Bytes) → Option (List M)
  cast_addrs [] = some []
  cast_addrs (none ∷ vs) = none
  cast_addrs (some v ∷ vs) = elim (ic.string_cast v) [
    | none ↦ none
    | some a ↦ Option.map (λ as'. a ∷ as') (cast_addrs vs)
  ]

  unfoldable pub read_addrs : JsonValue → PeerInfo M → JsonResult M
  read_addrs (json_array vs) pi = elim (cast_addrs vs) [
    | none ↦ json_panic
    | some as' ↦ read_info (record pi { addrs = pi.addrs ++ as' })
  ]
  read_addrs (json_string s) pi = read_info pi
  read_addrs json_other pi = read_info pi

  unfoldable pub read_object : JsonObject → PeerInfo M → JsonResult M
  read_object o pi = elim o.id_member [
    | json_array vs ↦ json_panic
    | json_other ↦ json_panic
    | json_string s ↦ elim (ic.decode s) [
      | none ↦ json_error
      | some id ↦ read_addrs o.addrs_member (record pi { id = id })
    ]
  ]

  -- `UnmarshalJSON`, into a `PeerInfo` that is there already.
  unfoldable pub unmarshal_info : Bytes → PeerInfo M → JsonResult M
  unmarshal_info b pi = elim (ic.json_parse b) [ none ↦ json_error | some o ↦ read_object o pi ]

  cast_addrs-map :
      ((a : M) → ic.string_cast (ic.text a) ≡ some a)
      → (as' : List M) → cast_addrs (map (λ a. some (ic.text a)) as') ≡ some as'
  unfolding cast_addrs
  cast_addrs-map cast [] = refl
  cast_addrs-map cast (a ∷ as') = rw (cast a) (rw (cast_addrs-map cast as') refl)

  read_addrs-info_json :
      ((a : M) → ic.string_cast (ic.text a) ≡ some a)
      → (as' : List M) → (pi : PeerInfo M)
      → read_addrs (info_json (record pi { addrs = as' })).addrs_member pi
        ≡ read_info (record pi { addrs = pi.addrs ++ as' })
  unfolding read_addrs info_json
  read_addrs-info_json cast [] pi =
      ap (λ xs. read_info (record pi { addrs = xs })) (sym (append-nil pi.addrs))
  read_addrs-info_json cast (a ∷ as') pi = rw (read_addrs, cast_addrs-map cast (a ∷ as')) refl

  -- Where the texts of the addresses, of the identifier and of the JSON object read back as they were written, `UnmarshalJSON` gives a `PeerInfo` the
  -- identifier that `MarshalJSON` wrote, and appends the addresses to those that it has: it is what was
  -- written where it had none.
  pub unmarshal_info-marshal_info :
      (pi into : PeerInfo M)
      → ((a : M) → ic.string_cast (ic.text a) ≡ some a)
      → ic.json_parse (ic.json_text (info_json pi)) ≡ some (info_json pi)
      → ic.decode (ic.pretty pi.id) ≡ some pi.id
      → unmarshal_info (marshal_info pi) into
        ≡ read_info (record { id = pi.id; addrs = into.addrs ++ pi.addrs })
  unfolding unmarshal_info marshal_info read_object info_json
  unmarshal_info-marshal_info pi into cast parse decoded =
      rw (unmarshal_info, parse, read_object, info_json, decoded)
        (read_addrs-info_json cast pi.addrs (record into { id = pi.id }))
