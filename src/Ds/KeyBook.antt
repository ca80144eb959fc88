-- ===== src/Ds/KeyBook.antt =====
-- pstoreds/keybook.go: `dsKeyBook`, and `uniquePeerIds` of pstoreds/peerstore.go. The datastore, its keys,
-- and the keys of peers with their coding are parameters. A nil key is `none`.
pub mod Laws
pub mod Ids
mod Tests
use go_libp2p_peerstore.Prelude.{
  ℕ, zero, suc, ◌+◌, ◌≤◌, ◌<◌, Bool, true, false, not, ◌&&◌, ◌||◌, List, [], ◌∷◌, ◌++◌, map, Option,
  none, some, Bytes, bytes_eq, int_eq, ℤ, ◌≤ℤ◌, ◌<ℤ◌, ◌+ℤ◌, +ℤ_parts, ltb_ℤ, leb_ℤ, pos, negsuc,
  ◌≡◌, ◌≢◌, ◌↔◌, ◌⊎◌, refl, sym, ap, ◌∙◌, ◌==◌, ==_iff, if◌then◌else◌, arith, inl, inr, Bool-cases,
  Option-cases, is_some, All, length,
}
use go_libp2p_peerstore.Prelude.Maps.{
  Map, lookup, insert, delete, lookup-insert, lookup-delete, IsMap, AllValues, contains, IsDistinct,
  keys, contains-keys, AllValues-lookup, AllValues-insert, AllValues-delete, insert-IsMap,
  delete-IsMap,
}
use mathlib.Core.Option
use go_libp2p_peerstore.Mem.Metadata.{GetResult, value, not_found, failed}
use go_libp2p_peerstore.Store.{StringSet, add_each}

-- The datastore: `put` also tells whether its error is nil.
pub record KeyStore (D K : Type 0) : Type 0 where
  pub get : K → D → GetResult Bytes
  pub put : K → Bytes → D → Bool × D
  pub kb_base : K
  pub pub_suffix : K
  pub priv_suffix : K
  pub child_string : K → Bytes → K
  pub child : K → K → K
  pub base32 : Bytes → Bytes

-- go-libp2p-crypto and go-libp2p-peer. `extract_public_key` has no key where its error is not nil.
pub record KeyCoding (PubKey PrivKey : Type 0) : Type 0 where
  pub extract_public_key : Bytes → Option PubKey
  pub matches_public_key : Bytes → PubKey → Bool
  pub matches_private_key : Bytes → PrivKey → Bool
  pub public_bytes : PubKey → Option Bytes
  pub private_bytes : PrivKey → Option Bytes
  pub unmarshal_public_key : Bytes → Option PubKey
  pub unmarshal_private_key : Bytes → Option PrivKey

pub data KeyBookError : Type 0 where
  public_key_differs private_key_differs private_key_is_nil : KeyBookError
  not_encoded not_stored : KeyBookError

module _ {D K : Type 0} (ks : KeyStore D K) where
  -- `/peers/keys/<b32 peer id no padding>/pub`
  unfoldable pub public_key_at : Bytes → K
  public_key_at p = ks.child (ks.child_string ks.kb_base (ks.base32 p)) ks.pub_suffix

  -- `/peers/keys/<b32 peer id no padding>/priv`
  unfoldable pub private_key_at : Bytes → K
  private_key_at p = ks.child (ks.child_string ks.kb_base (ks.base32 p)) ks.priv_suffix

module _ {D K PubKey PrivKey : Type 0} (ks : KeyStore D K) (kc : KeyCoding PubKey PrivKey) where
  -- `PubKey`, where the datastore has none: the key that the peer contains is stored.
  unfoldable pub extracted_key : Bytes → D → Option PubKey × D
  extracted_key p d = elim (kc.extract_public_key p) [
    | none ↦ (none, d)
    | some pk ↦ elim (kc.public_bytes pk) [
      | none ↦ (none, d)
      | some v ↦
          let (good, d') = ks.put (public_key_at ks p) v d in ((if good then some pk else none), d')
    ]
  ]

  -- `PubKey`
  unfoldable pub ds_pub_key : Bytes → D → Option PubKey × D
  ds_pub_key p d = elim (ks.get (public_key_at ks p) d) [
    | value v ↦ (kc.unmarshal_public_key v, d)
    | not_found ↦ extracted_key p d
    | failed ↦ (none, d)
  ]

  -- `val, err := key.Bytes()` and `kb.ds.Put(key, val)`, with the error.
  unfoldable pub put_key : K → Option Bytes → D → Option KeyBookError × D
  put_key key none d = (some not_encoded, d)
  put_key key (some v) d =
      let (good, d') = ks.put key v d in ((if good then none else some not_stored), d')

  -- `AddPubKey`, of a key that is not nil
  unfoldable pub ds_add_pub_key : Bytes → PubKey → D → Option KeyBookError × D
  ds_add_pub_key p pk d =
      if kc.matches_public_key p pk
      then put_key (public_key_at ks p) (kc.public_bytes pk) d
      else (some public_key_differs, d)

  -- `PrivKey`
  unfoldable pub ds_priv_key : Bytes → D → Option PrivKey
  ds_priv_key p d = elim (ks.get (private_key_at ks p) d) [
    | value v ↦ kc.unmarshal_private_key v
    | not_found ↦ none
    | failed ↦ none
  ]

  -- `AddPrivKey`
  unfoldable pub ds_add_priv_key : Bytes → Option PrivKey → D → Option KeyBookError × D
  ds_add_priv_key p none d = (some private_key_is_nil, d)
  ds_add_priv_key p (some sk) d =
      if kc.matches_private_key p sk
      then put_key (private_key_at ks p) (kc.private_bytes sk) d
      else (some private_key_differs, d)

-- `DecodeString` of base32 and `peer.IDFromBytes`, each with whether its error is nil.
pub record IdCoding : Type 0 where
  pub decode_string : Bytes → Bytes × Bool
  pub id_from_bytes : Bytes → Bytes × Bool

module _ (coding : IdCoding) where
  -- The peer of a name. Both errors are dropped.
  unfoldable pub peer_of_name : Bytes → Bytes
  peer_of_name name = (coding.id_from_bytes (coding.decode_string name).0).0

  -- `uniquePeerIds`, for the names that its extractor gives for the results of the query, `none` where the
  -- query fails.
  unfoldable pub unique_peer_ids : Option (List Bytes) → Option (List Bytes)
  unique_peer_ids none = none
  unique_peer_ids (some names) = some (map peer_of_name (keys (add_each names [])))

  -- `PeersWithKeys` and `PeersWithAddrs`: an error of the query is logged.
  unfoldable pub ids_or_nil : Option (List Bytes) → List Bytes
  ids_or_nil names = Option.get_or (unique_peer_ids names) []
