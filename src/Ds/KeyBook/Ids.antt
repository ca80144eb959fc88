-- ===== src/Ds/KeyBook/Ids.antt =====
-- What `uniquePeerIds` lists, for `PeersWithKeys` and `PeersWithAddrs`.
use go_libp2p_peerstore.Prelude.{
  true, List, [], ◌∷◌, map, some, Bytes, bytes_eq, int_eq, ◌≡◌, refl, sym, ap, ◌∙◌, ◌==◌, ==_iff,
  arith, inl, inr, Bool-cases, All,
}
use go_libp2p_peerstore.Prelude.Maps.{insert, contains, IsDistinct, keys}
use mathlib.Core.Path.{subst}
use go_libp2p_peerstore.Store.{StringSet, add_each}
use go_libp2p_peerstore.Store.Peers.{peers, peers_lem}
use go_libp2p_peerstore.Ds.KeyBook.{unique_peer_ids, IdCoding, peer_of_name}

-- The coding of peers as names: base32 reads back, and an identifier that is accepted is its bytes.
pub record IdCodingLaws (coding : IdCoding) (base32 : Bytes → Bytes) : Type 0 where
  pub decode-encode : (p : Bytes) → coding.decode_string (base32 p) ≡ (p, true)
  pub accepted : (p : Bytes) → (coding.id_from_bytes p).1 ≡ true → (coding.id_from_bytes p).0 ≡ p

module _ (coding : IdCoding) (base32 : Bytes → Bytes) (laws : IdCodingLaws coding base32) where
  -- Bytes that `IDFromBytes` accepts.
  abbrev pub IsId : Bytes → Type 0
  IsId p = (coding.id_from_bytes p).1 ≡ true

  base32-injective : (p q : Bytes) → base32 p ≡ base32 q → p ≡ q
  base32-injective p q e =
      let same = sym (laws.decode-encode p) ∙ ap coding.decode_string e ∙ laws.decode-encode q in
      ap (λ x. x.0) same

  keys-insert :
      (p : Bytes) (m n : StringSet)
      → keys n ≡ map base32 (keys m)
      → keys (insert (base32 p) tt n) ≡ map base32 (keys (insert p tt m))
  unfolding insert
  keys-insert p [] [] h = refl
  keys-insert p [] ((k, u) ∷ n) h = absurd (ground arith)
  keys-insert p ((j, t) ∷ m) [] h = absurd (ground arith)
  keys-insert p ((j, t) ∷ m) ((k, u) ∷ n) h =
      ground (arith, keys-insert p m n, ==_iff j p, ==_iff k (base32 p), base32-injective j p)

  keys-add_each :
      (ps : List Bytes) (m n : StringSet)
      → keys n ≡ map base32 (keys m)
      → keys (add_each (map base32 ps) n) ≡ map base32 (keys (add_each ps m))
  unfolding add_each
  keys-add_each [] m n h = h
  keys-add_each (p ∷ ps) m n h =
      keys-add_each ps (insert p tt m) (insert (base32 p) tt n) (keys-insert p m n h)

  peer_of_name-base32 : (p : Bytes) → IsId p → peer_of_name coding (base32 p) ≡ p
  unfolding peer_of_name
  peer_of_name-base32 p good = rw (peer_of_name, laws.decode-encode p) (laws.accepted p good)

  decoded : (ps : List Bytes) → All IsId ps → map (peer_of_name coding) (map base32 ps) ≡ ps
  decoded [] h = refl
  decoded (p ∷ ps) h = rw (peer_of_name-base32 p h.0) (ap (λ qs. p ∷ qs) (decoded ps h.1))

  contains-IsId : (p : Bytes) (ps : List Bytes) → All IsId ps → contains p ps ≡ true → IsId p
  unfolding contains
  contains-IsId p [] h c = absurd (ground arith)
  contains-IsId p (q ∷ ps) h c = elim (Bool-cases (q == p)) [
    | inl own ↦ subst IsId ((==_iff q p).0 own) h.0
    | inr other ↦ contains-IsId p ps h.1 (ground arith)
  ]

  All-contains : (qs : List Bytes) → ((p : Bytes) → contains p qs ≡ true → IsId p) → All IsId qs
  unfolding contains
  All-contains [] h = tt
  All-contains (q ∷ qs) h =
      (h q (ground (arith, ==_iff q q)), All-contains qs (λ p c. h p (ground arith)))

  -- From the names of the keys in the datastore, the base32 of peers that `IDFromBytes` accepts, in any
  -- order and any number, `uniquePeerIds` makes a list of each of these peers once, and of no other.
  pub unique_peer_ids_lem :
      (ps : List Bytes)
      → All IsId ps
      → (ids : List Bytes) × (unique_peer_ids coding (some (map base32 ps)) ≡ some ids)
        × IsDistinct ids
        × ((p : Bytes) → contains p ids ≡ contains p ps)
  unfolding unique_peer_ids peers contains add_each
  unique_peer_ids_lem ps good =
      let (distinct, listed) = peers_lem ps [] in
      let same : (p : Bytes) → contains p (keys (add_each ps [])) ≡ contains p ps =
        λ p. listed p ∙ ground arith in
      (
        keys (add_each ps []),
        ap some (
            ap (map (peer_of_name coding)) (keys-add_each ps [] [] refl)
            ∙ decoded (keys (add_each ps [])) (
                All-contains (keys (add_each ps []))
                  (λ p c. contains-IsId p ps good (sym (same p) ∙ c)))),
        distinct,
        same,
      )
