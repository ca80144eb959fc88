-- ===== src/Mem/AddrBook/Gc.antt =====
-- `gc`: what it drops, and that a look-up at a later time does not see it.
use go_libp2p_peerstore.Prelude.{
  true, false, [], ◌∷◌, Bytes, bytes_eq, int_eq, ℤ, ◌≤ℤ◌, ◌<ℤ◌, ◌+ℤ◌, ltb_ℤ, ◌≡◌, ◌≢◌, refl, arith,
  All,
}
use go_libp2p_peerstore.Prelude.Maps.{Map, IsMap, AllValues}
use go_libp2p_peerstore.Mem.AddrBook.{
  AddrMap, MemoryAddrBook, address_ttl, gc, gc_loop, expired_by, drop_expired, keep_peer,
}
use go_libp2p_peerstore.Mem.AddrBook.Stored.{stored, live_at, stored-gc_loop, live_at-live_at}
use go_libp2p_peerstore.Mem.AddrBook.Valid.{IsValid, IsAddrMap}

module _ {A : Type 0} where
  AllValues-distinct :
      (bytes : A → Bytes) (m : Map Bytes (AddrMap A))
      → AllValues (IsAddrMap bytes) m
      → AllValues (λ amap. IsMap amap) m
  AllValues-distinct bytes [] h = h
  AllValues-distinct bytes ((p, amap) ∷ m) h = (h.0.distinct, AllValues-distinct bytes m h.1)

  drop_expired-live :
      (now : ℤ) (amap : AddrMap A) → All (λ e. expired_by e.1 now ≡ false) (drop_expired now amap)
  unfolding drop_expired
  drop_expired-live now [] = tt
  drop_expired-live now ((k, e) ∷ amap) = ground (arith, drop_expired-live now amap)

  -- A peer's map with addresses, none of them expired.
  abbrev pub IsLive : ℤ → AddrMap A → Type 0
  IsLive now amap = (amap ≢ []) × All (λ e. expired_by e.1 now ≡ false) amap

  keep_peer-IsLive :
      (now : ℤ) (p : Bytes) (amap : AddrMap A) (m : Map Bytes (AddrMap A))
      → All (λ e. expired_by e.1 now ≡ false) amap
      → AllValues (IsLive now) m
      → AllValues (IsLive now) (keep_peer p amap m)
  unfolding keep_peer
  keep_peer-IsLive now p [] m h g = g
  keep_peer-IsLive now p (x ∷ amap) m h g = (((λ q. cc), h), g)

  gc_loop-IsLive : (now : ℤ) (m : Map Bytes (AddrMap A)) → AllValues (IsLive now) (gc_loop now m)
  unfolding gc_loop
  gc_loop-IsLive now [] = tt
  gc_loop-IsLive now ((p, amap) ∷ m) =
      keep_peer-IsLive now p (drop_expired now amap) (gc_loop now m) (drop_expired-live now amap)
        (gc_loop-IsLive now m)

  -- When the collection is due, every peer that is left has an address, and none of the addresses
  -- left has expired. The next collection is due an `AddressTTL` after the second clock reading.
  -- When it is not due, the book stays as it is.
  pub gc_collects :
      (now next : ℤ) (b : MemoryAddrBook A)
      → (b.next_gc <ℤ now
          → AllValues (IsLive now) (gc now next b).addrs
            × ((gc now next b).next_gc ≡ next +ℤ address_ttl))
        × (now ≤ℤ b.next_gc → gc now next b ≡ b)
  unfolding gc
  gc_collects now next b = (
    (λ due.
        let e : ltb_ℤ b.next_gc now ≡ true = ground arith in
        rw e (gc_loop-IsLive now b.addrs, refl)),
    (λ early. let e : ltb_ℤ b.next_gc now ≡ false = ground arith in rw e),
  )

  -- On a valid book the collection is not seen by any look-up from its time on: for every peer and
  -- address the live entry is the same with it and without.
  pub live_at-gc :
      (bytes : A → Bytes) (now next t : ℤ) (b : MemoryAddrBook A) (p k : Bytes)
      → IsValid bytes b
      → now ≤ℤ t
      → live_at t (stored p k (gc now next b).addrs) ≡ live_at t (stored p k b.addrs)
  unfolding gc
  live_at-gc bytes now next t b p k v h = ground (
    arith,
    stored-gc_loop now p k b.addrs v.peers (AllValues-distinct bytes b.addrs v.entries),
    live_at-live_at now t (stored p k b.addrs) h,
  )
