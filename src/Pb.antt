-- ===== src/Pb.antt =====
-- pb/custom.go: the types with which records hold peers and addresses. `encoding/json` and multiaddresses
-- are parameters.
mod Tests
use go_libp2p_peerstore.Prelude.{
  ℕ, zero, suc, ◌+◌, ◌≤◌, ◌<◌, Bool, true, false, not, ◌&&◌, ◌||◌, List, [], ◌∷◌, ◌++◌, map, Option,
  none, some, Bytes, bytes_eq, int_eq, ℤ, ◌≤ℤ◌, ◌<ℤ◌, ◌+ℤ◌, +ℤ_parts, ltb_ℤ, leb_ℤ, pos, negsuc,
  ◌≡◌, ◌≢◌, ◌↔◌, ◌⊎◌, refl, sym, ap, ◌∙◌, ◌==◌, ==_iff, if◌then◌else◌, arith, inl, inr, Bool-cases,
  Option-cases, is_some, All, length,
}
use go_libp2p_peerstore.Prelude.Maps.{
  Map, lookup, insert, delete, lookup-insert, lookup-delete, IsMap, AllValues, contains, IsDistinct,
  keys, contains-keys, AllValues-lookup, AllValues-insert, AllValues-delete, insert-IsMap,
  delete-IsMap,
}
use go_libp2p_peerstore.Prelude.{◌-◌, take, drop, ltb}

-- What the code uses of `encoding/json`, for bytes. `json_unmarshal_value` is whether `Unmarshal` returns no
-- error where it is given a slice and not a pointer.
pub record JsonBytes : Type 0 where
  pub json_marshal : Bytes → Bytes
  pub json_unmarshal : Bytes → Option Bytes
  pub json_unmarshal_value : Bytes → Bool

-- Go's `copy`: how many bytes it copies, and the bytes of the target then.
unfoldable pub copy_bytes : Bytes → Bytes → ℕ × Bytes
copy_bytes [] src = (0, [])
copy_bytes (b ∷ dst) [] = (0, b ∷ dst)
copy_bytes (b ∷ dst) (c ∷ src) = let (n, rest) = copy_bytes dst src in (n + 1, c ∷ rest)

-- `ProtoPeerID`
pub record ProtoPeerId : Type 0 where
  pub id : Bytes

unfoldable pub marshal_id : ProtoPeerId → Bytes
marshal_id p = p.id

unfoldable pub marshal_id_to : ProtoPeerId → Bytes → ℕ × Bytes
marshal_id_to p data' = copy_bytes data' p.id

unfoldable pub unmarshal_id : Bytes → ProtoPeerId
unmarshal_id data' = record { id = data' }

unfoldable pub id_size : ProtoPeerId → ℕ
id_size p = length p.id

module _ (json : JsonBytes) where
  unfoldable pub marshal_id_json : ProtoPeerId → Bytes
  marshal_id_json p = json.json_marshal (marshal_id p)

  -- `ProtoPeerID.UnmarshalJSON`: the slice that it reads is nil, and given as it is.
  unfoldable pub unmarshal_id_json : Bytes → Option ProtoPeerId
  unmarshal_id_json data' = if json.json_unmarshal_value data' then some (unmarshal_id []) else none

-- `ProtoAddr`, over the multiaddresses `M`
module _ {M : Type 0} (bytes : M → Bytes) (new_multiaddr_bytes : Bytes → Option M) where
  unfoldable pub marshal_addr : M → Bytes
  marshal_addr a = bytes a

  unfoldable pub marshal_addr_to : M → Bytes → ℕ × Bytes
  marshal_addr_to a data' = copy_bytes data' (bytes a)

  unfoldable pub unmarshal_addr : Bytes → Option M
  unmarshal_addr data' = new_multiaddr_bytes data'

  unfoldable pub addr_size : M → ℕ
  addr_size a = length (bytes a)

  unfoldable pub marshal_addr_json : JsonBytes → M → Bytes
  marshal_addr_json json a = json.json_marshal (marshal_addr a)

  unfoldable pub unmarshal_addr_json : JsonBytes → Bytes → Option M
  unmarshal_addr_json json data' = elim (json.json_unmarshal data') [
    | none ↦ none
    | some v ↦ unmarshal_addr v
  ]

copy_bytes-fits :
    (dst src : Bytes)
    → length src ≤ length dst
    → copy_bytes dst src ≡ (length src, src ++ drop (length src) dst)
unfolding copy_bytes
copy_bytes-fits [] [] h = refl
copy_bytes-fits [] (c ∷ src) h = absurd (omega arith)
copy_bytes-fits (b ∷ dst) [] h = refl
copy_bytes-fits (b ∷ dst) (c ∷ src) h = rw (copy_bytes-fits dst src (omega arith)) (ground arith)

module _ {M : Type 0} (bytes : M → Bytes) (new_multiaddr_bytes : Bytes → Option M) where
  -- `MarshalTo` of a peer or an address, into a buffer of at least the bytes that `Size` asks for, writes
  -- the bytes of `Marshal` to its front, counts them as `Size` does, and leaves the others.
  pub marshal_to_lem :
      (p : ProtoPeerId) (a : M) (buffer : Bytes)
      → id_size p ≤ length buffer
      → addr_size bytes new_multiaddr_bytes a ≤ length buffer
      → (marshal_id_to p buffer ≡ (id_size p, marshal_id p ++ drop (id_size p) buffer))
        × (marshal_addr_to bytes new_multiaddr_bytes a buffer ≡ (
          addr_size bytes new_multiaddr_bytes a,
          marshal_addr bytes new_multiaddr_bytes a
              ++ drop (addr_size bytes new_multiaddr_bytes a) buffer,
        ))
  unfolding marshal_id_to id_size marshal_id marshal_addr_to addr_size marshal_addr
  marshal_to_lem p a buffer h g =
      (copy_bytes-fits buffer p.id h, copy_bytes-fits buffer (bytes a) g)
