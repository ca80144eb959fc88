-- ===== src/Ds/Metadata/Tests.antt =====
-- The theorem at a concrete datastore: a map whose keys are paths.
use go_libp2p_peerstore.Prelude.{
  true, false, ◌&&◌, [], ◌∷◌, ◌++◌, Option, none, some, Bytes, bytes_eq, int_eq, ◌≡◌, refl, ◌==◌,
  ==_iff, arith, nat_beq,
}
use go_libp2p_peerstore.Prelude.Maps.{Map, lookup, insert, lookup-insert}
use go_libp2p_peerstore.Mem.Metadata.{GetResult, value, not_found}
use go_libp2p_peerstore.Store.Protocols.{KeepsMetadata}
use go_libp2p_peerstore.Ds.Metadata.{
  Datastore, IsDatastore, metadata_key, ds_peer_metadata, ds_peer_metadata-KeepsMetadata,
}

abbrev found : Option Bytes → GetResult Bytes
found none = not_found
found (some b) = value b

-- A name below a path. The path is cleaned of a slash at its end.
abbrev below : Bytes → Bytes → Bytes
below path [] = path
below path (c ∷ name) = path ++ 47 ∷ c ∷ name

abbrev in_memory : Datastore (Map Bytes Bytes) Bytes Bytes
in_memory = record {
  get = λ k d. found (lookup k d);
  put = λ k b d. (true, insert k b d);
  pm_base = [];
  child_string = below;
  base32 = λ p. p;
  encode = λ v. some v;
  decode = λ b. some b;
}

-- Without a slash.
abbrev IsWhole : Bytes → Type 0
IsWhole [] = Unit
IsWhole (c ∷ p) = (nat_beq c 47 ≡ false) × IsWhole p

abbrev IsPlain : Bytes → Type 0
IsPlain [] = ⊥
IsPlain (c ∷ p) = IsWhole (c ∷ p)

-- The empty name is no plain one: it is the path that it stands under.
empty_name : below (7 ∷ []) [] ≡ 7 ∷ []
empty_name = refl

path-injective :
    (p q k j : Bytes) → IsWhole p → IsWhole q → p ++ 47 ∷ k ≡ q ++ 47 ∷ j → (p ≡ q) × (k ≡ j)
path-injective [] [] k j hp hq e = ground arith
path-injective [] (b ∷ q) k j hp hq e = absurd (ground arith)
path-injective (a ∷ p) [] k j hp hq e = absurd (ground arith)
path-injective (a ∷ p) (b ∷ q) k j hp hq e =
    let (same, rest) = path-injective p q k j hp.1 hq.1 (ground arith) in (ground arith, rest)

in_memory-same_key :
    (p q k j : Bytes)
    → IsPlain p
    → IsPlain q
    → IsPlain k
    → IsPlain j
    → (metadata_key in_memory p k == metadata_key in_memory q j) ≡ (p == q && k == j)
unfolding metadata_key
in_memory-same_key [] q k j hp hq hk hj = absurd hp
in_memory-same_key (a ∷ p) [] k j hp hq hk hj = absurd hq
in_memory-same_key (a ∷ p) (b ∷ q) [] j hp hq hk hj = absurd hk
in_memory-same_key (a ∷ p) (b ∷ q) (c ∷ k) [] hp hq hk hj = absurd hj
in_memory-same_key (a ∷ p) (b ∷ q) (c ∷ k) (d ∷ j) hp hq hk hj = ground (
  arith,
  ==_iff (metadata_key in_memory (a ∷ p) (c ∷ k)) (metadata_key in_memory (b ∷ q) (d ∷ j)),
  ==_iff (a ∷ p) (b ∷ q),
  ==_iff (c ∷ k) (d ∷ j),
  path-injective (a ∷ p) (b ∷ q) (c ∷ k) (d ∷ j) hp hq,
)

in_memory-IsDatastore : IsDatastore in_memory IsPlain IsPlain
in_memory-IsDatastore = record {
  get-put = λ k j b d good. ground (arith, lookup-insert k j b d);
  same_key = in_memory-same_key;
  decode-encode = λ v b e. cc;
}

ds_peer_metadata-KeepsMetadata_example : KeepsMetadata (ds_peer_metadata in_memory) IsPlain IsPlain
ds_peer_metadata-KeepsMetadata_example =
    ds_peer_metadata-KeepsMetadata in_memory IsPlain IsPlain in_memory-IsDatastore
