-- ===== src/Store/Protocols.antt =====
-- The protocols of a peer, over any metadata store that keeps what is put.
use go_libp2p_peerstore.Prelude.{
  true, ◌&&◌, ◌||◌, List, [], ◌∷◌, none, Bytes, bytes_eq, ◌≡◌, refl, ◌⊎◌, ◌==◌, ==_refl,
  if◌then◌else◌, is_some, arith, inl, inr,
}
use go_libp2p_peerstore.Prelude.Maps.{keys, lookup, insert, lookup-insert, contains, contains-keys}
use go_libp2p_peerstore.Mem.Metadata.{value}
use go_libp2p_peerstore.Store.{
  StringSet, Value, protocols, PeerMetadata, Result, ok, err, ProtocolError, put_error,
  protocols_key, add_each, supported, protocol_map, get_protocol_map, set_protocols, add_protocols,
  get_protocols, supports_protocols,
}

-- What the peer store relies on, for the peers and the keys that it is used with: a `Put` without an error
-- sets what `Get` returns for the peer and the key, and for no other of them.
pub record KeepsMetadata {Store V : Type 0} (md : PeerMetadata Store V)
    (IsPeer IsKey : Bytes → Type 0) : Type 0 where
  pub get-put :
      (p q k j : Bytes) (v : V) (s : Store)
      → IsPeer p
      → IsPeer q
      → IsKey k
      → IsKey j
      → (md.put p k v s).0 ≡ true
      → md.get q j (md.put p k v s).1 ≡ (if p == q && k == j then value v else md.get q j s)

pub lookup-add_each :
    (protos : List Bytes) (m : StringSet) (x : Bytes)
    → is_some (lookup x (add_each protos m)) ≡ (contains x protos || is_some (lookup x m))
unfolding add_each contains
lookup-add_each [] m x = refl
lookup-add_each (proto ∷ protos) m x =
    ground (arith, lookup-add_each protos (insert proto tt m) x, lookup-insert proto x tt m)

-- The given protocols that are among the known ones.
unfoldable pub those : List Bytes → List Bytes → List Bytes
those known [] = []
those known (x ∷ xs) = let rest = those known xs in if contains x known then x ∷ rest else rest

supported-those : (m : StringSet) (protos : List Bytes) → supported m protos ≡ those (keys m) protos
unfolding supported those
supported-those m [] = refl
supported-those m (x ∷ xs) = ground (arith, contains-keys x m, supported-those m xs)

Result-cases :
    {A : Type 0} (r : Result A) → ((e : ProtocolError) × (r ≡ err e)) ⊎ ((a : A) × (r ≡ ok a))
Result-cases (err e) = inl (e, refl)
Result-cases (ok a) = inr (a, refl)

module _ {Store Other : Type 0} (md : PeerMetadata Store (Value Other))
    (IsPeer IsKey : Bytes → Type 0) (laws : KeepsMetadata md IsPeer IsKey)
    (own_key : IsKey protocols_key) where
  get_protocols-put :
      (p q : Bytes) (m : StringSet) (s : Store)
      → IsPeer p
      → IsPeer q
      → (md.put p protocols_key (protocols m) s).0 ≡ true
      → get_protocols md q (md.put p protocols_key (protocols m) s).1
        ≡ (if p == q then ok (keys m) else get_protocols md q s)
  unfolding get_protocols get_protocol_map protocol_map
  get_protocols-put p q m s hp hq good =
      rw
        (
          get_protocols,
          get_protocol_map,
          laws.get-put p q protocols_key protocols_key (protocols m) s hp hq own_key own_key good,
        )
        (ground (arith, ==_refl protocols_key))

  -- When `SetProtocols` returns no error, `GetProtocols` lists for the peer exactly the given
  -- protocols, and for every other peer what it listed before.
  pub get_protocols-set_protocols :
      (p q : Bytes) (protos : List Bytes) (s : Store)
      → IsPeer p
      → IsPeer q
      → (set_protocols md p protos s).0 ≡ none
      → (new : List Bytes) × (get_protocols md q (set_protocols md p protos s).1
          ≡ (if p == q then ok new else get_protocols md q s))
        × ((x : Bytes) → contains x new ≡ contains x protos)
  unfolding set_protocols put_error lookup
  get_protocols-set_protocols p q protos s hp hq e =
      let good : (md.put p protocols_key (protocols (add_each protos [])) s).0 ≡ true =
        ground arith in
      (
        keys (add_each protos []),
        get_protocols-put p q (add_each protos []) s hp hq good,
        λ x. ground (arith, contains-keys x (add_each protos []), lookup-add_each protos [] x),
      )

  -- The protocols that are listed are the keys of the stored set.
  listed_map :
      (p : Bytes) (old : List Bytes) (s : Store)
      → get_protocols md p s ≡ ok old
      → (m : StringSet) × (get_protocol_map md p s ≡ ok m) × (keys m ≡ old)
  unfolding get_protocols
  listed_map p old s listed = elim (Result-cases (get_protocol_map md p s)) [
    | inl (x, missing) ↦ absurd (ground arith)
    | inr (m, found) ↦ (m, found, ground arith)
  ]

  -- Where `GetProtocols` lists the protocols `old` for the peer and `AddProtocols` returns no error,
  -- `GetProtocols` then lists for the peer exactly the given protocols and the old ones, and for
  -- every other peer what it listed before.
  pub get_protocols-add_protocols :
      (p q : Bytes) (protos old : List Bytes) (s : Store)
      → IsPeer p
      → IsPeer q
      → get_protocols md p s ≡ ok old
      → (add_protocols md p protos s).0 ≡ none
      → (new : List Bytes) × (get_protocols md q (add_protocols md p protos s).1
          ≡ (if p == q then ok new else get_protocols md q s))
        × ((x : Bytes) → contains x new ≡ (contains x protos || contains x old))
  unfolding add_protocols put_error
  get_protocols-add_protocols p q protos old s hp hq listed e =
      let (m, found, same) = listed_map p old s listed in
      let good : (md.put p protocols_key (protocols (add_each protos m)) s).0 ≡ true =
        ground arith in
      (
        keys (add_each protos m),
        rw (add_protocols, found) (get_protocols-put p q (add_each protos m) s hp hq good),
        λ x. ground (
          arith,
          contains-keys x (add_each protos m),
          lookup-add_each protos m x,
          contains-keys x m,
          same,
        ),
      )

  -- Where `GetProtocols` lists the protocols `known`, `SupportsProtocols` returns those of the given
  -- ones that are known, in their order.
  pub supports_protocols-get_protocols :
      (p : Bytes) (protos known : List Bytes) (s : Store)
      → get_protocols md p s ≡ ok known
      → supports_protocols md p protos s ≡ ok (those known protos)
  unfolding supports_protocols
  supports_protocols-get_protocols p protos known s listed =
      let (m, found, same) = listed_map p known s listed in
      rw (supports_protocols, found, supported-those m protos, same) refl
