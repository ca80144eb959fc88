-- ===== src/Mem/KeyBook/Peers.antt =====
-- `PeersWithKeys`, and what a key book returns for its peers.
use go_libp2p_peerstore.Prelude.{
  Bool, not, ◌&&◌, ◌||◌, List, [], ◌∷◌, Option, none, some, Bytes, bytes_eq, ◌≡◌, refl, ◌==◌,
  ==_iff, if◌then◌else◌, arith, inl, inr, Bool-cases, is_some,
}
use go_libp2p_peerstore.Prelude.Maps.{
  Map, keys, lookup, insert, lookup-insert, contains, IsDistinct, IsMap, contains-keys,
}
use go_libp2p_peerstore.Prelude.Fresh.{contains-append, IsDistinct-append}
use go_libp2p_peerstore.Mem.KeyBook.{
  MemoryKeyBook, id_does_not_match, only_private, peers_with_keys, held_pub_key, pub_key,
  add_pub_key,
}

only_private-contains :
    {PubKey : Type 0} (pks : Map Bytes (Option PubKey)) (ps : List Bytes) (p : Bytes)
    → contains p (only_private pks ps) ≡ (contains p ps && not (is_some (lookup p pks)))
unfolding only_private contains
only_private-contains pks [] p = refl
only_private-contains pks (q ∷ ps) p = ground (arith, ==_iff q p, only_private-contains pks ps p)

only_private-IsDistinct :
    {PubKey : Type 0} (pks : Map Bytes (Option PubKey)) (ps : List Bytes)
    → IsDistinct ps
    → IsDistinct (only_private pks ps)
unfolding only_private contains
only_private-IsDistinct pks [] h = tt
only_private-IsDistinct pks (q ∷ ps) h =
    ground (arith, only_private-contains pks ps q, only_private-IsDistinct pks ps)

keys-IsDistinct : {V : Type 0} (m : Map Bytes V) → IsMap m → IsDistinct (keys m)
keys-IsDistinct [] h = tt
keys-IsDistinct ((k, v) ∷ m) h = ground (arith, contains-keys k m, keys-IsDistinct m h.1)

-- In a book whose maps hold each key once, `PeersWithKeys` lists each peer that has a public or a
-- private key, once, and no other.
pub peers_with_keys_lem :
    {PubKey PrivKey : Type 0} (b : MemoryKeyBook PubKey PrivKey)
    → IsMap b.pks
    → IsMap b.sks
    → IsDistinct (peers_with_keys b)
      × ((p : Bytes)
          → contains p (peers_with_keys b) ≡ (is_some (lookup p b.pks) || is_some (lookup p b.sks)))
unfolding peers_with_keys
peers_with_keys_lem b hp hs = (
  IsDistinct-append (keys b.pks) (only_private b.pks (keys b.sks)) (keys-IsDistinct b.pks hp)
      (only_private-IsDistinct b.pks (keys b.sks) (keys-IsDistinct b.sks hs))
      (λ k q. ground (arith, only_private-contains b.pks (keys b.sks) k, contains-keys k b.pks)),
  λ p. ground (
    arith,
    contains-append p (keys b.pks) (only_private b.pks (keys b.sks)),
    only_private-contains b.pks (keys b.sks) p,
    contains-keys p b.pks,
    contains-keys p b.sks,
  ),
)

module _ {PubKey PrivKey : Type 0} (extract_public_key : Bytes → Option PubKey × Bool)
    (matches_public_key : Bytes → PubKey → Bool) where
  -- `AddPubKey` of a key that is not nil: where the key matches the peer, there is no error, and
  -- `PubKey` then returns it for the peer, and what it returned before for every other peer. Where
  -- it does not match, there is an error and `PubKey` returns what it returned before.
  pub pub_key-add_pub_key :
      (p q : Bytes) (pk : PubKey) (b : MemoryKeyBook PubKey PrivKey)
      → (b' : MemoryKeyBook PubKey PrivKey) × (add_pub_key matches_public_key p (some pk) b
          ≡ some ((if matches_public_key p pk then none else some id_does_not_match), b'))
        × ((pub_key extract_public_key q b').0 ≡ (
            if matches_public_key p pk && p == q
            then some pk
            else (pub_key extract_public_key q b).0))
  unfolding pub_key add_pub_key held_pub_key
  pub_key-add_pub_key p q pk b = elim (Bool-cases (matches_public_key p pk)) [
    | inl fits ↦ (
      record b { pks = insert p (some pk) b.pks },
      ground arith,
      ground (arith, lookup-insert p q (some pk) b.pks),
    )
    | inr other ↦ (b, ground arith, ground arith)
  ]
