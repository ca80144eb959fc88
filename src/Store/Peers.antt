-- ===== src/Store/Peers.antt =====
-- peerstore.go: the peers and the addresses of a peer store, and its end.
use go_libp2p_peerstore.Prelude.{
  Bool, true, false, ◌||◌, List, [], ◌∷◌, ◌++◌, map, Option, none, some, Bytes, bytes_eq, ◌≡◌, refl,
  ◌∙◌, is_some, arith,
}
use go_libp2p_peerstore.Prelude.Maps.{
  keys, lookup, insert, contains, contains-keys, IsDistinct, IsMap, insert-IsMap,
}
use go_libp2p_peerstore.Store.{StringSet, add_each}
use go_libp2p_peerstore.Store.Protocols.{lookup-add_each}

-- `Peers`: the set of the peers of the key book and of the address book, which are given here as the
-- lists that `PeersWithKeys` and `PeersWithAddrs` return.
unfoldable pub peers : List Bytes → List Bytes → List Bytes
peers with_keys with_addrs = keys (add_each with_addrs (add_each with_keys []))

-- `PeerInfo`, with the addresses that the address book returns.
pub record PeerInfo (Addr : Type 0) : Type 0 where
  pub id : Bytes
  pub addrs : List Addr

module _ {Addr : Type 0} where
  unfoldable pub peer_info : (Bytes → List Addr) → Bytes → PeerInfo Addr
  peer_info addrs_of p = record { id = p; addrs = addrs_of p }

  unfoldable pub peer_infos : (Bytes → List Addr) → List Bytes → List (PeerInfo Addr)
  peer_infos addrs_of ps = map (peer_info addrs_of) ps

  unfoldable pub peer_info_ids : List (PeerInfo Addr) → List Bytes
  peer_info_ids pis = map (λ pi. pi.id) pis

-- A part of the store: it may be an `io.Closer`, and then `Close` may return an error.
abbrev pub Closer : Type 0 → Type 0
Closer E = Option (Option E)

-- `weakClose` adds the error of the part, if there is one.
unfoldable pub weak_close : {E : Type 0} → Bytes → Closer E → List (Bytes × E) → List (Bytes × E)
weak_close name none errs = errs
weak_close name (some none) errs = errs
weak_close name (some (some e)) errs = errs ++ (name, e) ∷ []

-- `"keybook"`, `"addressbook"`, `"peermetadata"`
abbrev keybook_name : Bytes
keybook_name = 107 ∷ 101 ∷ 121 ∷ 98 ∷ 111 ∷ 111 ∷ 107 ∷ []

abbrev addressbook_name : Bytes
addressbook_name = 97 ∷ 100 ∷ 100 ∷ 114 ∷ 101 ∷ 115 ∷ 115 ∷ 98 ∷ 111 ∷ 111 ∷ 107 ∷ []

abbrev peermetadata_name : Bytes
peermetadata_name = 112 ∷ 101 ∷ 101 ∷ 114 ∷ 109 ∷ 101 ∷ 116 ∷ 97 ∷ 100 ∷ 97 ∷ 116 ∷ 97 ∷ []

-- `Close`: nil, or the errors of the three parts in their order.
unfoldable pub close : {E : Type 0} → Closer E → Closer E → Closer E → Option (List (Bytes × E))
close keybook addressbook peermetadata =
    let errs =
      weak_close peermetadata_name peermetadata
        (weak_close addressbook_name addressbook (weak_close keybook_name keybook [])) in
    elim errs [ [] ↦ none | e ∷ es ↦ some (e ∷ es) ]

-- A part of the store that returns an error.
abbrev pub fails : {E : Type 0} → Closer E → Bool
fails none = false
fails (some none) = false
fails (some (some e)) = true

unfoldable is_filled : {A : Type 0} → List A → Bool
is_filled [] = false
is_filled (x ∷ xs) = true

weak_close-is_filled :
    {E : Type 0} (name : Bytes) (c : Closer E) (errs : List (Bytes × E))
    → is_filled (weak_close name c errs) ≡ (is_filled errs || fails c)
unfolding weak_close is_filled
weak_close-is_filled name none errs = ground arith
weak_close-is_filled name (some none) errs = ground arith
weak_close-is_filled name (some (some e)) [] = refl
weak_close-is_filled name (some (some e)) (x ∷ errs) = refl

errors_lem :
    {A : Type 0} (errs : List A)
    → is_some (elim errs as (λ x. Option (List A)) [ [] ↦ none | e ∷ es ↦ some (e ∷ es) ])
      ≡ is_filled errs
unfolding is_filled
errors_lem [] = refl
errors_lem (e ∷ es) = refl

-- `Close` returns no error exactly when no part of the store does: a part that fails does not hide
-- another, and is not hidden by a later one that closes well.
pub close_lem :
    {E : Type 0} (keybook addressbook peermetadata : Closer E)
    → is_some (close keybook addressbook peermetadata)
      ≡ (fails keybook || fails addressbook || fails peermetadata)
unfolding close is_filled
close_lem keybook addressbook peermetadata =
    let one = weak_close keybook_name keybook [] in
    let two = weak_close addressbook_name addressbook one in
    errors_lem (weak_close peermetadata_name peermetadata two)
    ∙ ground (
      arith,
      weak_close-is_filled peermetadata_name peermetadata two,
      weak_close-is_filled addressbook_name addressbook one,
      weak_close-is_filled keybook_name keybook [],
    )

add_each-IsMap : (ps : List Bytes) (m : StringSet) → IsMap m → IsMap (add_each ps m)
unfolding add_each
add_each-IsMap [] m h = h
add_each-IsMap (p ∷ ps) m h = add_each-IsMap ps (insert p tt m) (insert-IsMap p tt m h)

keys-IsDistinct : (m : StringSet) → IsMap m → IsDistinct (keys m)
keys-IsDistinct [] h = tt
keys-IsDistinct ((k, v) ∷ m) h = ground (arith, contains-keys k m, keys-IsDistinct m h.1)

-- `Peers` lists each peer that the key book or the address book lists, once, and no other, however
-- often they list it.
pub peers_lem :
    (with_keys with_addrs : List Bytes)
    → IsDistinct (peers with_keys with_addrs)
      × ((p : Bytes)
          → contains p (peers with_keys with_addrs)
            ≡ (contains p with_keys || contains p with_addrs))
unfolding peers lookup
peers_lem with_keys with_addrs =
    let one = add_each with_keys [] in
    (
      keys-IsDistinct (add_each with_addrs one)
          (add_each-IsMap with_addrs one (add_each-IsMap with_keys [] tt)),
      λ p. ground (
        arith,
        contains-keys p (add_each with_addrs one),
        lookup-add_each with_addrs one p,
        lookup-add_each with_keys [] p,
      ),
    )
