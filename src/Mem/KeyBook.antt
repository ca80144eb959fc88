-- ===== src/Mem/KeyBook.antt =====
-- pstoremem/keybook.go: `memoryKeyBook`. The keys and what relates them to peers are the libraries'
-- (go-libp2p-crypto, go-libp2p-peer) and are parameters: `extract_public_key` gives the key and
-- whether the error is nil. A nil key is `none`, and so is a panic.
pub mod Sound
pub mod Peers
mod Tests
use go_libp2p_peerstore.Prelude.{
  ℕ, zero, suc, ◌+◌, Bool, true, false, not, ◌&&◌, ◌||◌, List, [], ◌∷◌, ◌++◌, map, Option, none,
  some, Bytes, bytes_eq, ◌≡◌, ◌≢◌, refl, sym, ap, ◌∙◌, ◌==◌, ==_iff, if◌then◌else◌, arith, inl, inr,
  Bool-cases, length, length-append, is_some,
}
use go_libp2p_peerstore.Prelude.Maps.{
  Map, keys, lookup, insert, lookup-insert, contains, IsDistinct, IsMap, insert-IsMap,
  contains-keys, AllValues,
}

pub record MemoryKeyBook (PubKey PrivKey : Type 0) : Type 0 where
  pub pks : Map Bytes (Option PubKey)
  pub sks : Map Bytes PrivKey

-- The errors of the methods.
pub data KeyError : Type 0 where
  id_does_not_match : KeyError
  key_is_nil : KeyError

-- The second loop of `PeersWithKeys`: the peers that the first map lacks.
unfoldable pub only_private :
    {PubKey : Type 0} → Map Bytes (Option PubKey) → List Bytes → List Bytes
only_private pks [] = []
only_private pks (p ∷ ps) =
    let rest = only_private pks ps in if is_some (lookup p pks) then rest else p ∷ rest

module _ {PubKey PrivKey : Type 0} where
  unfoldable pub new_key_book : MemoryKeyBook PubKey PrivKey
  new_key_book = record { pks = []; sks = [] }

  unfoldable pub peers_with_keys : MemoryKeyBook PubKey PrivKey → List Bytes
  peers_with_keys b = keys b.pks ++ only_private b.pks (keys b.sks)

  unfoldable pub priv_key : Bytes → MemoryKeyBook PubKey PrivKey → Option PrivKey
  priv_key p b = lookup p b.sks

  -- `mkb.pks[p]`, nil where there is no entry
  unfoldable pub held_pub_key : Bytes → MemoryKeyBook PubKey PrivKey → Option PubKey
  held_pub_key p b = elim (lookup p b.pks) [ none ↦ none | some pk ↦ pk ]

module _ {PubKey PrivKey : Type 0} (extract_public_key : Bytes → Option PubKey × Bool) where
  -- `PubKey`: a key that is not held is extracted from the peer, and kept if there was no error.
  unfoldable pub pub_key :
      Bytes → MemoryKeyBook PubKey PrivKey → Option PubKey × MemoryKeyBook PubKey PrivKey
  pub_key p b = elim (held_pub_key p b) [
    | some pk ↦ (some pk, b)
    | none ↦
        let (pk, ok) = extract_public_key p in
        (pk, if ok then record b { pks = insert p pk b.pks } else b)
  ]

module _ {PubKey PrivKey : Type 0} (matches_public_key : Bytes → PubKey → Bool) where
  -- `AddPubKey`, with the error if it is not nil. `MatchesPublicKey` calls the key, so that it panics
  -- on a nil one.
  unfoldable pub add_pub_key :
      Bytes
      → Option PubKey
      → MemoryKeyBook PubKey PrivKey
      → Option (Option KeyError × MemoryKeyBook PubKey PrivKey)
  add_pub_key p none b = none
  add_pub_key p (some pk) b =
      if matches_public_key p pk
      then some (none, record b { pks = insert p (some pk) b.pks })
      else some (some id_does_not_match, b)

module _ {PubKey PrivKey : Type 0} (matches_private_key : Bytes → PrivKey → Bool) where
  -- `AddPrivKey`
  unfoldable pub add_priv_key :
      Bytes
      → Option PrivKey
      → MemoryKeyBook PubKey PrivKey
      → Option KeyError × MemoryKeyBook PubKey PrivKey
  add_priv_key p none b = (some key_is_nil, b)
  add_priv_key p (some sk) b =
      if matches_private_key p sk
      then (none, record b { sks = insert p sk b.sks })
      else (some id_does_not_match, b)
