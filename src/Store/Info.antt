-- ===== src/Store/Info.antt =====
-- peerinfo.go: between a `PeerInfo` and addresses that end in the peer's identifier. Multiaddresses
-- and the text of identifiers are other packages' and are parameters.
use mathlib.Core.List.{append_assoc}
use go_libp2p_peerstore.Prelude.{
  Bool, true, false, List, [], ◌∷◌, ◌++◌, map, Option, none, some, Bytes, bytes_eq, nat_eq, ◌≡◌,
  ◌≢◌, refl, ap, ◌∙◌, ◌==◌, if◌then◌else◌, arith,
}
use go_libp2p_peerstore.Prelude.Maps.{contains}
use go_libp2p_peerstore.Prelude.Fresh.{contains-append}
use go_libp2p_peerstore.Mem.Metadata.{slash}
use go_libp2p_peerstore.Store.Peers.{PeerInfo}

-- What the code uses of multiaddresses: `Split`, `Join`, `Encapsulate`, `NewMultiaddr`, whether the first
-- protocol's code is `P_IPFS`, `String`, and of identifiers: `IDB58Encode`, `IDB58Decode`.
pub record Multiaddrs (M : Type 0) : Type 0 where
  pub split : M → List M
  pub join : List M → M
  pub encapsulate : M → M → M
  pub new_multiaddr : Bytes → Option M
  pub is_ipfs : M → Bool
  pub text : M → Bytes
  pub encode : Bytes → Bytes
  pub decode : Bytes → Option Bytes
  pub ipfs_name : Bytes

pub data InfoResult (M : Type 0) : Type 0 where
  info : PeerInfo M → InfoResult M
  invalid_addr : InfoResult M
  undecodable : InfoResult M

-- The last of the parts between slashes.
unfoldable pub last_part : Bytes → Bytes
last_part [] = []
last_part (c ∷ cs) =
    let rest = last_part cs in if contains 47 cs then rest else if c == 47 then cs else c ∷ cs

-- `parts[:len(parts)-1]` and `parts[len(parts)-1]`, where there is a part.
unfoldable pub split_last : {M : Type 0} → List M → Option (List M × M)
split_last [] = none
split_last (part ∷ parts) =
    let rest = split_last parts in
    elim rest [ none ↦ some ([], part) | some (front, last) ↦ some (part ∷ front, last) ]

module _ {M : Type 0} (ma : Multiaddrs M) where
  -- The address in front of the identifier, if there is one.
  unfoldable pub front_addrs : List M → List M
  front_addrs [] = []
  front_addrs (part ∷ parts) = ma.join (part ∷ parts) ∷ []

  unfoldable pub info_from_parts : List M × M → InfoResult M
  info_from_parts (front, last) =
      let decoded = ma.decode (last_part (ma.text last)) in
      let result : InfoResult M = elim decoded [
        | none ↦ undecodable
        | some id ↦ info (record { id = id; addrs = front_addrs front })
      ] in
      if ma.is_ipfs last then result else invalid_addr

  unfoldable pub info_from_p2p_addr : Option M → InfoResult M
  info_from_p2p_addr none = invalid_addr
  info_from_p2p_addr (some m) = elim (split_last (ma.split m)) [
    | none ↦ invalid_addr
    | some parts ↦ info_from_parts parts
  ]

  -- `tpl + peer.IDB58Encode(pi.ID)`
  unfoldable pub p2p_text : Bytes → Bytes
  p2p_text id = slash ++ ma.ipfs_name ++ slash ++ ma.encode id

  unfoldable pub encapsulated : Bytes → List M → Option (List M)
  encapsulated id [] = some []
  encapsulated id (addr ∷ addrs) =
      let rest = encapsulated id addrs in
      elim (ma.new_multiaddr (p2p_text id)) [
        | none ↦ none
        | some p2paddr ↦ elim rest [
          | none ↦ none
          | some out ↦ some (ma.encapsulate addr p2paddr ∷ out)
        ]
      ]

  unfoldable pub info_to_p2p_addrs : PeerInfo M → Option (List M)
  info_to_p2p_addrs pi = encapsulated pi.id pi.addrs

-- What the round trip relies on, for an identifier: its text has no slash and is decoded, the text of the
-- template is that of a multiaddress of one part, and joining undoes splitting.
pub record IsEncodable {M : Type 0} (ma : Multiaddrs M) (id : Bytes) : Type 0 where
  pub p2paddr : M
  pub parsed : ma.new_multiaddr (p2p_text ma id) ≡ some p2paddr
  pub printed : ma.text p2paddr ≡ p2p_text ma id
  pub coded : ma.is_ipfs p2paddr ≡ true
  pub plain : contains 47 (ma.encode id) ≡ false
  pub decoded : ma.decode (ma.encode id) ≡ some id
  pub parts : (m : M) → ma.split (ma.encapsulate m p2paddr) ≡ ma.split m ++ p2paddr ∷ []
  pub joined : (m : M) → ma.join (ma.split m) ≡ m
  pub filled : (m : M) → ma.split m ≢ []

last_part-append : (xs ys : Bytes) → contains 47 ys ≡ false → last_part (xs ++ 47 ∷ ys) ≡ ys
unfolding last_part contains
last_part-append [] ys h = ground (arith)
last_part-append (x ∷ xs) ys h =
    ground (arith, contains-append 47 xs (47 ∷ ys), last_part-append xs ys h)

split_last-append : {M : Type 0} (xs : List M) (q : M) → split_last (xs ++ q ∷ []) ≡ some (xs, q)
unfolding split_last
split_last-append [] q = refl
split_last-append (x ∷ xs) q = ground (arith, split_last-append xs q)

module _ {M : Type 0} (ma : Multiaddrs M) where
  front_addrs-split : (m : M) (xs : List M) → xs ≢ [] → ma.join xs ≡ m → front_addrs ma xs ≡ m ∷ []
  unfolding front_addrs
  front_addrs-split m [] some_part j = absurd (some_part refl)
  front_addrs-split m (x ∷ xs) some_part j = ap (λ y. y ∷ []) j

  last_part-text :
      (id : Bytes) → contains 47 (ma.encode id) ≡ false → last_part (p2p_text ma id) ≡ ma.encode id
  unfolding p2p_text
  last_part-text id plain =
      ap last_part (append_assoc (slash ++ ma.ipfs_name) slash (ma.encode id))
      ∙ last_part-append (slash ++ ma.ipfs_name) (ma.encode id) plain

  from_encapsulated :
      (id : Bytes) (c : IsEncodable ma id) (m : M)
      → info_from_p2p_addr ma (some (ma.encapsulate m c.p2paddr))
        ≡ info (record { id = id; addrs = m ∷ [] })
  unfolding info_from_p2p_addr info_from_parts
  from_encapsulated id c m =
      let last : ma.decode (last_part (ma.text c.p2paddr)) ≡ some id =
        ap (λ t. ma.decode (last_part t)) c.printed
        ∙ ap ma.decode (last_part-text id c.plain)
        ∙ c.decoded in
      let found : split_last (ma.split (ma.encapsulate m c.p2paddr))
          ≡ some (ma.split m, c.p2paddr) =
        ap split_last (c.parts m) ∙ split_last-append (ma.split m) c.p2paddr in
      let coded = c.coded in
      let front = front_addrs-split m (ma.split m) (c.filled m) (c.joined m) in
      rw (info_from_p2p_addr, found, info_from_parts, coded, last, front) refl

  encapsulated-some :
      (id : Bytes) (c : IsEncodable ma id) (addrs : List M)
      → encapsulated ma id addrs ≡ some (map (λ m. ma.encapsulate m c.p2paddr) addrs)
  unfolding encapsulated
  encapsulated-some id c [] = refl
  encapsulated-some id c (m ∷ addrs) =
      let parsed = c.parsed in rw (encapsulated, parsed, encapsulated-some id c addrs) refl

  each_back :
      (id : Bytes) (c : IsEncodable ma id) (addrs : List M)
      → map (λ m. info_from_p2p_addr ma (some m)) (map (λ m. ma.encapsulate m c.p2paddr) addrs)
        ≡ map (λ m. info (record { id = id; addrs = m ∷ [] })) addrs
  each_back id c [] = refl
  each_back id c (m ∷ addrs) =
      ap
        (λ r.
          r
          ∷ map (λ x. info_from_p2p_addr ma (some x)) (map (λ x. ma.encapsulate x c.p2paddr) addrs))
        (from_encapsulated id c m)
      ∙ ap (◌∷◌ (info (record { id = id; addrs = m ∷ [] }))) (each_back id c addrs)

  -- For a peer whose identifier is encodable, `InfoToP2pAddrs` returns an address for each of the
  -- peer's addresses, and `InfoFromP2pAddr` turns each of these back into the peer with that
  -- address.
  pub info_from_p2p_addr-info_to_p2p_addrs :
      (pi : PeerInfo M)
      → IsEncodable ma pi.id
      → (out : List M) × (info_to_p2p_addrs ma pi ≡ some out)
        × (map (λ m. info_from_p2p_addr ma (some m)) out
            ≡ map (λ m. info (record { id = pi.id; addrs = m ∷ [] })) pi.addrs)
  unfolding info_to_p2p_addrs
  info_from_p2p_addr-info_to_p2p_addrs pi c = (
    map (λ m. ma.encapsulate m c.p2paddr) pi.addrs,
    encapsulated-some pi.id c pi.addrs,
    each_back pi.id c pi.addrs,
  )
