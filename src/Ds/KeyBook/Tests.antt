-- ===== src/Ds/KeyBook/Tests.antt =====
-- Keys in a map, and the theorems at concrete inputs.
use go_libp2p_peerstore.Prelude.{
  Bool, true, false, List, [], ◌∷◌, ◌++◌, Option, none, some, Bytes, bytes_eq, int_eq, ◌≡◌, refl,
  ap, ◌∙◌, ◌==◌, ==_iff, if◌then◌else◌, arith,
}
use go_libp2p_peerstore.Prelude.Maps.{Map, lookup, insert, lookup-insert, contains, IsDistinct}
use go_libp2p_peerstore.Prelude.{==_refl}
use go_libp2p_peerstore.Mem.Metadata.{GetResult, value, not_found}
use go_libp2p_peerstore.Ds.KeyBook.{
  KeyStore, KeyCoding, KeyBookError, public_key_at, private_key_at, ds_pub_key, ds_add_pub_key,
  ds_priv_key, ds_add_priv_key, unique_peer_ids, IdCoding, peer_of_name,
}
use go_libp2p_peerstore.Prelude.{bytes_beq}
use go_libp2p_peerstore.Store.{add_each}
use go_libp2p_peerstore.Ds.KeyBook.Ids.{unique_peer_ids_lem}
use go_libp2p_peerstore.Ds.KeyBook.Laws.{KeyStoreLaws, KeyCodingLaws, added_keys_lem}

-- A key is its suffix and the peer; a peer's public key is the peer, and its private key the peer too.
unfoldable answer : Option Bytes → GetResult Bytes
answer none = not_found
answer (some v) = value v

abbrev map_keys : KeyStore (Map Bytes Bytes) Bytes
map_keys = record {
  get = λ k d. answer (lookup k d);
  put = λ k v d. (true, insert k v d);
  kb_base = [];
  pub_suffix = 0 ∷ [];
  priv_suffix = 1 ∷ [];
  child_string = λ k b. k ++ b;
  child = λ k s. s ++ k;
  base32 = λ b. b;
}

abbrev own_keys : KeyCoding Bytes Bytes
own_keys = record {
  extract_public_key = λ p. some p;
  matches_public_key = bytes_beq;
  matches_private_key = bytes_beq;
  public_bytes = λ k. some k;
  private_bytes = λ k. some k;
  unmarshal_public_key = λ v. some v;
  unmarshal_private_key = λ v. some v;
}

map_keys-KeyStoreLaws : KeyStoreLaws map_keys
unfolding public_key_at private_key_at answer
map_keys-KeyStoreLaws = record {
  get_put = λ k v d. rw (lookup-insert k k v d, ==_refl k) refl;
  get_put_other = λ j k v d h. ap answer (lookup-insert k j v d ∙ ground (arith, ==_iff k j));
  put_works = λ k v d. refl;
  same_public = λ p q h. ground arith;
  same_private = λ p q h. ground arith;
  public_private = λ p q h. ground arith;
}

own_keys-KeyCodingLaws : KeyCodingLaws own_keys
own_keys-KeyCodingLaws = record {
  public_round = λ k. (k, refl, refl);
  private_round = λ k. (k, refl, refl);
}

abbrev alice : Bytes
alice = 7 ∷ []

added_keys_lem_example :
    let d1 : Option KeyBookError × Map Bytes Bytes =
      ds_add_pub_key map_keys own_keys alice alice [] in
    let d2 : Option KeyBookError × Map Bytes Bytes =
      ds_add_priv_key map_keys own_keys alice (some alice) d1.1 in
    (d1.0 ≡ none)
    × (d2.0 ≡ none)
    × ((ds_pub_key map_keys own_keys alice d2.1).0
        ≡ (if alice == alice then some alice else (ds_pub_key map_keys own_keys alice []).0))
    × (ds_priv_key map_keys own_keys alice d2.1
        ≡ (if alice == alice then some alice else ds_priv_key map_keys own_keys alice []))
unfolding bytes_beq
added_keys_lem_example =
    added_keys_lem map_keys own_keys map_keys-KeyStoreLaws own_keys-KeyCodingLaws alice alice alice
      alice [] refl refl

-- Names are the bytes themselves; the identifier without bytes is refused.
abbrev checked : Bytes → Bytes × Bool
checked [] = ([], false)
checked (b ∷ p) = (b ∷ p, true)

abbrev plain_ids : IdCoding
plain_ids = record { decode_string = λ b. (b, true); id_from_bytes = checked }

checked-accepted : (p : Bytes) → (checked p).1 ≡ true → (checked p).0 ≡ p
checked-accepted [] h = refl
checked-accepted (b ∷ p) h = refl

unique_peer_ids_lem_example :
    (ids : List Bytes) × (unique_peer_ids plain_ids (some (alice ∷ alice ∷ [])) ≡ some ids)
    × IsDistinct ids
    × ((p : Bytes) → contains p ids ≡ contains p (alice ∷ alice ∷ []))
unique_peer_ids_lem_example =
    unique_peer_ids_lem plain_ids (λ b. b)
      (record { decode-encode = λ p. refl; accepted = checked-accepted }) (alice ∷ alice ∷ [])
      (refl, (refl, tt))

-- Names that are no peers: the peer without bytes is listed, and more than once.
abbrev picky_ids : IdCoding
picky_ids = record { decode_string = λ b. (b, true); id_from_bytes = λ b. ([], false) }

refused_names : unique_peer_ids picky_ids (some ((1 ∷ []) ∷ (2 ∷ []) ∷ [])) ≡ some ([] ∷ [] ∷ [])
unfolding unique_peer_ids peer_of_name add_each insert bytes_beq
refused_names = refl
