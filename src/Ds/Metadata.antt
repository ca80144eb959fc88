-- ===== src/Ds/Metadata.antt =====
-- pstoreds/metadata.go: `dsPeerMetadata`, over a datastore, the coding of values (gob), and the keys of
-- the datastore, which are other packages' and are parameters.
mod Tests
use go_libp2p_peerstore.Prelude.{
  Bool, true, false, ◌&&◌, Option, none, some, Bytes, bytes_eq, ◌≡◌, refl, ◌==◌, Comparable,
  if◌then◌else◌, arith, Bool-cases, Option-cases, inl, inr,
}
use go_libp2p_peerstore.Mem.Metadata.{GetResult, value, not_found, failed}
use go_libp2p_peerstore.Store.{PeerMetadata}
use go_libp2p_peerstore.Store.Protocols.{KeepsMetadata}

-- What the code uses of a datastore with the state `D` and the keys `K`: `get`, `put` with whether its
-- error is nil, `base32`, and the keys `pmBase` and `ChildString`. `encode` and `decode` are gob's.
pub record Datastore (D K V : Type 0) : Type 0 where
  pub get : K → D → GetResult Bytes
  pub put : K → Bytes → D → Bool × D
  pub pm_base : K
  pub child_string : K → Bytes → K
  pub base32 : Bytes → Bytes
  pub encode : V → Option Bytes
  pub decode : Bytes → Option V

module _ {D K V : Type 0} (ds : Datastore D K V) where
  unfoldable pub metadata_key : Bytes → Bytes → K
  metadata_key p key = ds.child_string (ds.child_string ds.pm_base (ds.base32 p)) key

  unfoldable pub decoded : GetResult Bytes → GetResult V
  decoded not_found = not_found
  decoded failed = failed
  decoded (value bytes) = elim (ds.decode bytes) [ none ↦ failed | some v ↦ value v ]

  -- `Get`
  unfoldable pub get_metadata : Bytes → Bytes → D → GetResult V
  get_metadata p key d = decoded (ds.get (metadata_key p key) d)

  -- `Put`
  unfoldable pub put_metadata : Bytes → Bytes → V → D → Bool × D
  put_metadata p key v d = elim (ds.encode v) [
    | none ↦ (false, d)
    | some bytes ↦ ds.put (metadata_key p key) bytes d
  ]

  -- The methods of `dsPeerMetadata`.
  abbrev pub ds_peer_metadata : PeerMetadata D V
  ds_peer_metadata = record { put = put_metadata; get = get_metadata }

-- What the metadata relies on: a `Put` without an error sets what `Get` returns for its key and for no
-- other, and what is encoded is decoded. `ChildString` cleans the path that it makes, so that only plain
-- names (without a slash, not empty and no dots) make different keys: the law is for the peers of
-- `IsPeer` and the names of `IsKey`.
pub record IsDatastore {D K V : Type 0} ⦃c : Comparable K⦄ (ds : Datastore D K V)
    (IsPeer IsKey : Bytes → Type 0) : Type 0 where
  pub get-put :
      (k j : K) (b : Bytes) (d : D)
      → (ds.put k b d).0 ≡ true
      → ds.get j (ds.put k b d).1 ≡ (if k == j then value b else ds.get j d)
  pub same_key :
      (p q k j : Bytes)
      → IsPeer p
      → IsPeer q
      → IsKey k
      → IsKey j
      → (metadata_key ds p k == metadata_key ds q j) ≡ (p == q && k == j)
  pub decode-encode : (v : V) (b : Bytes) → ds.encode v ≡ some b → ds.decode b ≡ some v

module _ {D K V : Type 0} ⦃c : Comparable K⦄ (ds : Datastore D K V)
    (IsPeer IsKey : Bytes → Type 0) where
  -- Over a datastore that keeps what is put and gives different keys to the peers of `IsPeer` and the
  -- names of `IsKey`, `Get` returns for such a peer and name the value of the last `Put` without an
  -- error, whatever the value is encoded as, and such a `Put` changes what `Get` returns for no other
  -- of these peers and names. So the metadata serve the peer store's protocols.
  pub ds_peer_metadata-KeepsMetadata :
      IsDatastore ds IsPeer IsKey → KeepsMetadata (ds_peer_metadata ds) IsPeer IsKey
  unfolding get_metadata put_metadata decoded
  ds_peer_metadata-KeepsMetadata laws = record {
    get-put = λ p q k j v d hp hq hk hj good. elim (Option-cases (ds.encode v)) [
      | inl bad ↦ absurd (ground arith)
      | inr (b, made) ↦
          let stored : (ds.put (metadata_key ds p k) b d).0 ≡ true =
            rw (put_metadata, made) at good in
          rw
            (
              put_metadata,
              made,
              get_metadata,
              laws.get-put (metadata_key ds p k) (metadata_key ds q j) b d stored,
              laws.same_key p q k j hp hq hk hj,
            )
            (elim (Bool-cases (p == q && k == j)) [
              | inl same ↦ ground (arith, laws.decode-encode v b made)
              | inr other ↦ ground arith
            ])
    ];
  }
