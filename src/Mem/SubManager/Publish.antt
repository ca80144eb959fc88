-- ===== src/Mem/SubManager/Publish.antt =====
-- `BroadcastAddr` and what `AddAddrs` publishes to the subscriptions of a peer.
use go_libp2p_peerstore.Prelude.{
  not, ◌&&◌, List, [], ◌∷◌, ◌++◌, map, Option, none, some, Bytes, bytes_eq, int_eq, ℤ, ◌<ℤ◌, ◌+ℤ◌,
  ltb_ℤ, pos, ◌≡◌, refl, ◌==◌, ==_iff, if◌then◌else◌, arith,
}
use go_libp2p_peerstore.Prelude.Maps.{lookup, lookup-insert, contains}
use mathlib.Core.Option
use mathlib.Core.List.{append_assoc, append-nil}
use go_libp2p_peerstore.Mem.SubManager.{AddrSub, AddrSubManager, pub_addr, broadcast_addr}
use go_libp2p_peerstore.Mem.AddrBook.{
  AddrMap, MemoryAddrBook, Clock, is_outdated, addr_map, add_step, add_loop, add_addrs, gc,
}

module _ {A : Type 0} where
  -- The subscriptions of a peer.
  unfoldable pub subs_of : AddrSubManager A → Bytes → List (AddrSub A)
  subs_of mgr p = Option.get_or (lookup p mgr) []

  -- A subscription that took all of `as'`, unless its context was done.
  unfoldable pub publish : List A → AddrSub A → AddrSub A
  publish as' s = if s.done then s else record s { received = s.received ++ as' }

  pub subs_of-broadcast_addr :
      (p q : Bytes) (a : A) (mgr : AddrSubManager A)
      → subs_of (broadcast_addr mgr p a) q
        ≡ (if p == q then map (pub_addr a) (subs_of mgr q) else subs_of mgr q)
  unfolding broadcast_addr subs_of
  subs_of-broadcast_addr p q a mgr =
      ground (arith, ==_iff p q, lookup-insert p q (map (pub_addr a) (subs_of mgr p)) mgr)

  publish-pub_addr :
      (a : A) (as' : List A) (s : AddrSub A) → publish as' (pub_addr a s) ≡ publish (a ∷ as') s
  unfolding publish pub_addr
  publish-pub_addr a as' s = ground (arith, append_assoc s.received (a ∷ []) as')

  map-publish-pub_addr :
      (a : A) (as' : List A) (subs : List (AddrSub A))
      → map (publish as') (map (pub_addr a) subs) ≡ map (publish (a ∷ as')) subs
  map-publish-pub_addr a as' [] = refl
  map-publish-pub_addr a as' (s ∷ subs) =
      cc (publish-pub_addr a as' s, map-publish-pub_addr a as' subs)

  map-publish-nil : (subs : List (AddrSub A)) → map (publish []) subs ≡ subs
  unfolding publish
  map-publish-nil [] = refl
  map-publish-nil (s ∷ subs) = ground (arith, append-nil s.received, map-publish-nil subs)

module _ {A : Type 0} (bytes : A → Bytes) where
  -- The addresses that are new to the map, or whose entry there expires before `exp`: each one
  -- once, in the order given. `seen` are the bytes of those before.
  unfoldable pub accepted : ℤ → AddrMap A → List Bytes → List (Option A) → List A
  accepted exp amap seen [] = []
  accepted exp amap seen (none ∷ as') = accepted exp amap seen as'
  accepted exp amap seen (some a ∷ as') =
      let rest = accepted exp amap (bytes a ∷ seen) as' in
      if contains (bytes a) seen then rest else elim (lookup (bytes a) amap) [
        | none ↦ a ∷ rest
        | some e ↦ if ltb_ℤ e.expires exp then a ∷ rest else rest
      ]

  -- The loop's map calls for a write where the first map did, except for what was seen.
  abbrev Written : ℤ → AddrMap A → List Bytes → AddrMap A → Type 0
  Written exp amap seen new =
      (k : Bytes)
      → is_outdated exp (lookup k new) ≡ (not (contains k seen) && is_outdated exp (lookup k amap))

  new-Written : (exp : ℤ) (amap : AddrMap A) → Written exp amap [] amap
  unfolding contains
  new-Written exp amap k = refl

  add_step-Written :
      (p : Bytes) (exp ttl : ℤ) (amap : AddrMap A) (seen : List Bytes) (a : A) (new : AddrMap A)
      (mgr : AddrSubManager A)
      → Written exp amap seen new
      → Written exp amap (bytes a ∷ seen) (add_step bytes p exp ttl a (new, mgr)).0
  unfolding add_step contains
  add_step-Written p exp ttl amap seen a new mgr w k = ground (
    arith,
    w k,
    w (bytes a),
    ==_iff (bytes a) k,
    lookup-insert (bytes a) k (record { addr = a; ttl = ttl; expires = exp }) new,
  )

  add_loop-publishes :
      (p q : Bytes) (exp ttl : ℤ) (amap : AddrMap A) (seen : List Bytes) (as' : List (Option A))
      (s : AddrMap A × AddrSubManager A)
      → Written exp amap seen s.0
      → subs_of (add_loop bytes p exp ttl as' s).1 q ≡ (
          if p == q
          then map (publish (accepted exp amap seen as')) (subs_of s.1 q)
          else subs_of s.1 q)
  unfolding add_loop accepted add_step
  add_loop-publishes p q exp ttl amap seen [] s w = ground (arith, map-publish-nil (subs_of s.1 q))
  add_loop-publishes p q exp ttl amap seen (none ∷ as') s w =
      add_loop-publishes p q exp ttl amap seen as' s w
  add_loop-publishes p q exp ttl amap seen (some a ∷ as') (new, mgr) w = ground (
    arith,
    w (bytes a),
    add_loop-publishes p q exp ttl amap (bytes a ∷ seen) as' (add_step bytes p exp ttl a (new, mgr))
        (add_step-Written p exp ttl amap seen a new mgr w),
    subs_of-broadcast_addr p q a mgr,
    map-publish-pub_addr a (accepted exp amap (bytes a ∷ seen) as') (subs_of mgr q),
  )

  -- `AddAddrs` with a positive TTL sends to each subscription of the peer whose context is not done
  -- exactly the given addresses that are new or whose entry would expire sooner, each once and in
  -- order; the other subscriptions, and those of other peers, get nothing.
  pub add_addrs-publishes :
      (b : MemoryAddrBook A) (c : Clock) (p q : Bytes) (as' : List (Option A)) (ttl : ℤ)
      → pos 0 <ℤ ttl
      → subs_of (add_addrs bytes b c p as' ttl).sub_manager q ≡ (
          if p == q
          then map
              (publish (accepted (c.now +ℤ ttl) (addr_map b p) [] as'))
              (subs_of b.sub_manager q)
          else subs_of b.sub_manager q)
  unfolding add_addrs gc
  add_addrs-publishes b c p q as' ttl h = ground (
    arith,
    add_loop-publishes p q (c.now +ℤ ttl) ttl (addr_map b p) [] as' (addr_map b p, b.sub_manager)
        (new-Written (c.now +ℤ ttl) (addr_map b p)),
  )
