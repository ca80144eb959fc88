-- ===== src/Mem/Metadata.antt =====
-- pstoremem/metadata.go: `memoryPeerMetadata`, one map for all peers, whose keys are the peer's bytes, a
-- slash, and the key. `V` stands for `interface{}`.
use mathlib.Core.List.{append_assoc}
use go_libp2p_peerstore.Prelude.{
  ◌&&◌, [], ◌∷◌, ◌++◌, none, some, Bytes, bytes_eq, ◌≡◌, refl, sym, ap, ◌∙◌, ◌==◌, ==_iff,
  if◌then◌else◌, arith, inl, inr, Bool-cases, length, length-append,
}
use go_libp2p_peerstore.Prelude.Maps.{Map, lookup, insert, lookup-insert}

-- What `Get` returns: the value, `ErrNotFound`, or another error of an implementation.
pub data GetResult (V : Type 0) : Type 0 where
  value : V → GetResult V
  not_found : GetResult V
  failed : GetResult V

-- The byte of the slash.
abbrev pub slash : Bytes
slash = 47 ∷ []

-- `string(p) + "/" + key`
unfoldable pub ds_key : Bytes → Bytes → Bytes
ds_key p key = p ++ slash ++ key

abbrev pub MemoryPeerMetadata : Type 0 → Type 0
MemoryPeerMetadata V = Map Bytes V

unfoldable pub new_peer_metadata : {V : Type 0} → MemoryPeerMetadata V
new_peer_metadata = []

module _ {V : Type 0} where
  unfoldable pub put : Bytes → Bytes → V → MemoryPeerMetadata V → MemoryPeerMetadata V
  unfolding ds_key
  put p key v ds = insert (ds_key p key) v ds

  unfoldable pub get : Bytes → Bytes → MemoryPeerMetadata V → GetResult V
  unfolding ds_key
  get p key ds = elim (lookup (ds_key p key) ds) [ none ↦ not_found | some v ↦ value v ]

append_same_length :
    (p q xs ys : Bytes) → length p ≡ length q → p ++ xs ≡ q ++ ys → (p ≡ q) × (xs ≡ ys)
append_same_length [] [] xs ys l e = (refl, e)
append_same_length [] (b ∷ q) xs ys l e = absurd (omega arith)
append_same_length (a ∷ p) [] xs ys l e = absurd (omega arith)
append_same_length (a ∷ p) (b ∷ q) xs ys l e =
    let (same, rest) = append_same_length p q xs ys (omega arith) cc in (cc, rest)

-- The keys of two peers whose identifiers have the same length are the same only for the same peer
-- and key.
same_ds_key :
    (p q key other : Bytes)
    → length p ≡ length q
    → (ds_key p key == ds_key q other) ≡ (p == q && key == other)
unfolding ds_key
same_ds_key p q key other l = elim (Bool-cases (ds_key p key == ds_key q other)) [
  | inl e ↦
      let whole = (==_iff (ds_key p key) (ds_key q other)).0 e in
      let (head, tail) =
        append_same_length (p ++ slash) (q ++ slash) key other
          (omega (arith, length-append p slash, length-append q slash)) whole in
      let (first, rest) = append_same_length p q slash slash l head in
      ground (arith, ==_iff p q, ==_iff key other)
  | inr e ↦ ground (arith, ==_iff p q, ==_iff key other, ==_iff (ds_key p key) (ds_key q other))
]

ds_key_shared :
    (p tail key : Bytes) → ds_key (p ++ slash ++ tail) key ≡ ds_key p (tail ++ slash ++ key)
unfolding ds_key
ds_key_shared p tail key =
    append_assoc (p ++ slash ++ tail) slash key
    ∙ append_assoc (p ++ slash) tail (slash ++ key)
    ∙ ap (λ xs. p ++ slash ++ xs) (sym (append_assoc tail slash key))

module _ {V : Type 0} where
  -- Between peers whose identifiers have the same length, `Get` returns the value last put for the
  -- peer and the key, and a `Put` changes it for no other peer and no other key.
  pub get-put :
      (p q key other : Bytes) (v : V) (ds : MemoryPeerMetadata V)
      → length p ≡ length q
      → get q other (put p key v ds) ≡ (if p == q && key == other then value v else get q other ds)
  unfolding get put
  get-put p q key other v ds l =
      ground
        (arith, lookup-insert (ds_key p key) (ds_key q other) v ds, same_ds_key p q key other l)

  -- A `Put` for one peer changes what `Get` returns for another whose identifier, with a slash, begins
  -- as its own does: the part behind the slash is read as the start of the key.
  pub get-put_collides :
      (p tail key : Bytes) (v : V) (ds : MemoryPeerMetadata V)
      → get p (tail ++ slash ++ key) (put (p ++ slash ++ tail) key v ds) ≡ value v
  unfolding get put
  get-put_collides p tail key v ds = ground (
    arith,
    ds_key_shared p tail key,
    lookup-insert (ds_key (p ++ slash ++ tail) key) (ds_key p (tail ++ slash ++ key)) v ds,
    ==_iff (ds_key (p ++ slash ++ tail) key) (ds_key p (tail ++ slash ++ key)),
  )
