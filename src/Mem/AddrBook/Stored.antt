-- ===== src/Mem/AddrBook/Stored.antt =====
-- What the book holds for a peer and the bytes of an address, its invariant, and the loops of
-- `gc` and `Addrs` seen through look-ups.
use mathlib.Core.Option.{get_or}
use go_libp2p_peerstore.Prelude.{
  [], ◌∷◌, Option, none, some, Bytes, bytes_eq, ℤ, ◌≤ℤ◌, ltb_ℤ, ◌≡◌, refl, ◌==◌, ==_iff,
  if◌then◌else◌, arith,
}
use go_libp2p_peerstore.Prelude.Maps.{Map, lookup, IsMap, AllValues}
use go_libp2p_peerstore.Mem.AddrBook.{ExpiringAddr, AddrMap, drop_expired, keep_peer, gc_loop}

module _ {A : Type 0} where
  -- The entry for an address of a peer.
  unfoldable pub stored : Bytes → Bytes → Map Bytes (AddrMap A) → Option (ExpiringAddr A)
  stored p k m = lookup k (get_or (lookup p m) [])

  -- An entry as it counts at a time: what has expired is as good as absent.
  unfoldable pub live_at : ℤ → Option (ExpiringAddr A) → Option (ExpiringAddr A)
  live_at t none = none
  live_at t (some e) = if ltb_ℤ e.expires t then none else some e

  pub live_at-live_at :
      (now t : ℤ) (o : Option (ExpiringAddr A)) → now ≤ℤ t → live_at t (live_at now o) ≡ live_at t o
  unfolding live_at
  live_at-live_at now t none h = refl
  live_at-live_at now t (some e) h = ground arith

  pub lookup-drop_expired-none :
      (now : ℤ) (k : Bytes) (amap : AddrMap A)
      → lookup k amap ≡ none
      → lookup k (drop_expired now amap) ≡ none
  unfolding lookup drop_expired
  lookup-drop_expired-none now k [] h = refl
  lookup-drop_expired-none now k ((j, e) ∷ amap) h =
      ground (arith, lookup-drop_expired-none now k amap)

  -- The loop leaves exactly the live entries.
  pub lookup-drop_expired :
      (now : ℤ) (k : Bytes) (amap : AddrMap A)
      → IsMap amap
      → lookup k (drop_expired now amap) ≡ live_at now (lookup k amap)
  unfolding lookup drop_expired live_at
  lookup-drop_expired now k [] h = refl
  lookup-drop_expired now k ((j, e) ∷ amap) h =
      ground
        (arith, ==_iff j k, lookup-drop_expired now k amap, lookup-drop_expired-none now j amap)

  pub drop_expired-IsMap : (now : ℤ) (amap : AddrMap A) → IsMap amap → IsMap (drop_expired now amap)
  unfolding drop_expired
  drop_expired-IsMap now [] h = h
  drop_expired-IsMap now ((j, e) ∷ amap) h =
      ground (arith, lookup-drop_expired-none now j amap, drop_expired-IsMap now amap)

  pub lookup-gc_loop-none :
      (now : ℤ) (p : Bytes) (m : Map Bytes (AddrMap A))
      → lookup p m ≡ none
      → lookup p (gc_loop now m) ≡ none
  unfolding lookup gc_loop
  lookup-gc_loop-none now p [] h = refl
  lookup-gc_loop-none now p ((q, amap) ∷ m) h = ground (arith, lookup-gc_loop-none now p m)

  -- A round of `gc` for a peer: an empty map is as good as none.
  stored-keep_peer :
      (p q k : Bytes) (amap : AddrMap A) (rest : Map Bytes (AddrMap A))
      → (q ≡ p → lookup p rest ≡ none)
      → stored p k (keep_peer q amap rest) ≡ (if q == p then lookup k amap else stored p k rest)
  unfolding stored lookup keep_peer
  stored-keep_peer p q k [] rest h = ground (arith, ==_iff q p)
  stored-keep_peer p q k (x ∷ amap) rest h = ground arith

  pub stored-gc_loop :
      (now : ℤ) (p k : Bytes) (m : Map Bytes (AddrMap A))
      → IsMap m
      → AllValues (λ amap. IsMap amap) m
      → stored p k (gc_loop now m) ≡ live_at now (stored p k m)
  unfolding stored lookup gc_loop live_at
  stored-gc_loop now p k [] h g = refl
  stored-gc_loop now p k ((q, amap) ∷ m) h g = ground (
    arith,
    ==_iff q p,
    stored-keep_peer p q k (drop_expired now amap) (gc_loop now m),
    lookup-gc_loop-none now p m,
    lookup-drop_expired now k amap,
    stored-gc_loop now p k m,
  )
