-- ===== src/Mem/AddrBook/Methods.antt =====
-- Each method of the book: it keeps the invariant, and what a look-up finds after it.
use go_libp2p_peerstore.Prelude.{
  List, [], ◌∷◌, map, Option, none, Bytes, bytes_eq, int_eq, ℤ, ◌≤ℤ◌, ◌+ℤ◌, leb_ℤ, pos, ◌≡◌, refl,
  ap, ◌∙◌, ◌==◌, ==_iff, if◌then◌else◌, arith, inl, inr, Bool-cases, Option-cases, is_some,
}
use go_libp2p_peerstore.Prelude.Maps.{
  lookup, insert, contains, keys, contains-keys, AllValues-lookup, AllValues-delete, delete-IsMap,
}
use mathlib.Core.Option
use mathlib.Core.Path.{ap₂}
use go_libp2p_peerstore.Mem.SubManager.{AddrSubManager}
use go_libp2p_peerstore.Mem.AddrBook
use go_libp2p_peerstore.Mem.AddrBook.{
  AddrMap, ExpiringAddr, MemoryAddrBook, Clock, add_addrs, set_addrs, clear_addrs, addr_map,
  add_loop, set_loop, update_loop, update_addrs, is_outdated, drop_expired, expired_by,
  new_addr_book, gc,
}
use go_libp2p_peerstore.Mem.AddrBook.Stored.{stored, live_at, live_at-live_at, lookup-drop_expired}
use go_libp2p_peerstore.Mem.AddrBook.Valid.{
  IsValid, IsAddrMap, KeysMatch, put-IsValid, gc-IsValid, addr_map-IsAddrMap, add_loop-IsAddrMap,
  set_loop-IsAddrMap, drop_expired-IsAddrMap, update_loop-IsAddrMap,
}
use go_libp2p_peerstore.Mem.AddrBook.Loops.{
  extended, overridden, retimed, find_first, find_last, lookup-add_loop, lookup-set_loop,
  lookup-update_loop, stored-insert, stored-delete,
}
use go_libp2p_peerstore.Mem.AddrBook.Gc.{live_at-gc}

-- What is live after `ClearAddrs`: nothing of the peer, and the rest as before.
pub live_at-clear_addrs :
    {A : Type 0} (b : MemoryAddrBook A) (u : ℤ) (p q k : Bytes)
    → live_at u (stored q k (clear_addrs b p).addrs)
      ≡ live_at u (if p == q then none else stored q k b.addrs)
unfolding clear_addrs
live_at-clear_addrs b u p q k = ap (live_at u) (stored-delete p q k b.addrs)

module _ {A : Type 0} (bytes : A → Bytes) where
  pub new_addr_book-IsValid : IsValid bytes new_addr_book
  unfolding new_addr_book
  new_addr_book-IsValid = record { peers = tt; entries = tt }

  -- The addresses of a map, by their bytes, are its keys.
  map-bytes :
      (amap : AddrMap A)
      → KeysMatch bytes amap
      → map bytes (map (λ (k, e). e.addr) amap) ≡ keys amap
  map-bytes [] h = refl
  map-bytes ((k, e) ∷ amap) h = ap₂ (◌∷◌) h.0 (map-bytes amap h.1)

  module _ (b : MemoryAddrBook A) (v : IsValid bytes b) where
    pub add_addrs-IsValid :
        (c : Clock) (p : Bytes) (as' : List (Option A)) (ttl : ℤ)
        → IsValid bytes (add_addrs bytes b c p as' ttl)
    unfolding add_addrs
    add_addrs-IsValid c p as' ttl = elim (Bool-cases (leb_ℤ ttl (pos 0))) [
      | inl over ↦ rw over v
      | inr more ↦ rw more (
          gc-IsValid bytes c.gc_now c.gc_next _ (
            put-IsValid bytes b p _ _ v (
              add_loop-IsAddrMap bytes p (c.now +ℤ ttl) ttl as' (addr_map b p, b.sub_manager)
                (addr_map-IsAddrMap bytes b p v))))
    ]

    pub set_addrs-IsValid :
        (c : Clock) (p : Bytes) (as' : List (Option A)) (ttl : ℤ)
        → IsValid bytes (set_addrs bytes b c p as' ttl)
    unfolding set_addrs
    set_addrs-IsValid c p as' ttl = gc-IsValid bytes c.gc_now c.gc_next _ (
        put-IsValid bytes b p _ _ v (
          set_loop-IsAddrMap bytes p (c.now +ℤ ttl) ttl as' (addr_map b p, b.sub_manager)
            (addr_map-IsAddrMap bytes b p v)))

    pub update_addrs-IsValid :
        (c : Clock) (p : Bytes) (old_ttl new_ttl : ℤ)
        → IsValid bytes (update_addrs b c p old_ttl new_ttl)
    unfolding update_addrs
    update_addrs-IsValid c p old_ttl new_ttl = elim (Option-cases (lookup p b.addrs)) [
      | inl absent ↦ rw (absent, update_addrs) v
      | inr (amap, found) ↦
          rw (found, update_addrs)
            (gc-IsValid bytes c.gc_now c.gc_next _ (
              put-IsValid bytes b p _ _ v (
                update_loop-IsAddrMap bytes old_ttl new_ttl (c.now +ℤ new_ttl) amap
                  (AllValues-lookup (IsAddrMap bytes) p b.addrs v.entries found))))
    ]

    pub clear_addrs-IsValid : (p : Bytes) → IsValid bytes (clear_addrs b p)
    unfolding clear_addrs
    clear_addrs-IsValid p = record {
      peers = delete-IsMap p b.addrs v.peers;
      entries = AllValues-delete (IsAddrMap bytes) p b.addrs v.entries;
    }

    pub addrs-IsValid : (now : ℤ) (p : Bytes) → IsValid bytes (AddrBook.addrs b now p).0
    unfolding AddrBook.addrs
    addrs-IsValid now p = elim (Option-cases (lookup p b.addrs)) [
      | inl absent ↦ rw (absent, AddrBook.addrs) v
      | inr (amap, found) ↦
          rw (found, AddrBook.addrs)
            (put-IsValid bytes b p _ _ v (
              drop_expired-IsAddrMap bytes now amap
                (AllValues-lookup (IsAddrMap bytes) p b.addrs v.entries found)))
    ]

    -- What is live after a peer's map is written and the collection has run.
    live_at-gc-put :
        (now next u : ℤ) (p q k : Bytes) (amap : AddrMap A) (mgr : AddrSubManager A)
        → IsAddrMap bytes amap
        → now ≤ℤ u
        → live_at u (
            stored q k
              (gc now next (record b { addrs = insert p amap b.addrs; sub_manager = mgr })).addrs)
          ≡ live_at u (if p == q then lookup k amap else stored q k b.addrs)
    live_at-gc-put now next u p q k amap mgr h g =
        live_at-gc bytes now next u _ q k (put-IsValid bytes b p amap mgr v h) g
        ∙ ap (live_at u) (stored-insert p q k amap b.addrs)

    -- What is live after `AddAddrs`, from its collection on.
    pub live_at-add_addrs :
        (c : Clock) (p : Bytes) (as' : List (Option A)) (ttl u : ℤ) (q k : Bytes)
        → c.gc_now ≤ℤ u
        → live_at u (stored q k (add_addrs bytes b c p as' ttl).addrs)
          ≡ live_at u (
              if leb_ℤ ttl (pos 0)
              then stored q k b.addrs
              else if p == q
              then extended (c.now +ℤ ttl) ttl (find_first bytes k as') (stored p k b.addrs)
              else stored q k b.addrs)
    unfolding add_addrs stored
    live_at-add_addrs c p as' ttl u q k h =
        let s : AddrMap A × AddrSubManager A = (addr_map b p, b.sub_manager) in
        let exp = c.now +ℤ ttl in
        let new = add_loop bytes p exp ttl as' s in
        elim (Bool-cases (leb_ℤ ttl (pos 0))) [
          | inl over ↦ rw over
          | inr more ↦
              rw (more, ← lookup-add_loop bytes p exp ttl k as' s)
                (live_at-gc-put c.gc_now c.gc_next u p q k new.0 new.1
                  (add_loop-IsAddrMap bytes p exp ttl as' s (addr_map-IsAddrMap bytes b p v)) h)
        ]

    -- What is live after `SetAddrs`, from its collection on.
    pub live_at-set_addrs :
        (c : Clock) (p : Bytes) (as' : List (Option A)) (ttl u : ℤ) (q k : Bytes)
        → c.gc_now ≤ℤ u
        → live_at u (stored q k (set_addrs bytes b c p as' ttl).addrs)
          ≡ live_at u (
              if p == q
              then overridden (c.now +ℤ ttl) ttl (find_last bytes k as') (stored p k b.addrs)
              else stored q k b.addrs)
    unfolding set_addrs stored
    live_at-set_addrs c p as' ttl u q k h =
        let s : AddrMap A × AddrSubManager A = (addr_map b p, b.sub_manager) in
        let exp = c.now +ℤ ttl in
        let new = set_loop bytes p exp ttl as' s in
        rw (← lookup-set_loop bytes p exp ttl k as' s) (
          live_at-gc-put c.gc_now c.gc_next u p q k new.0 new.1
            (set_loop-IsAddrMap bytes p exp ttl as' s (addr_map-IsAddrMap bytes b p v)) h)

    -- What is live after `UpdateAddrs`: of the peer's entries, those with the old TTL have the new
    -- TTL and expiry, also those that had expired and were not yet collected.
    pub live_at-update_addrs :
        (c : Clock) (p : Bytes) (old_ttl new_ttl u : ℤ) (q k : Bytes)
        → c.gc_now ≤ℤ u
        → live_at u (stored q k (update_addrs b c p old_ttl new_ttl).addrs)
          ≡ live_at u (
              if p == q
              then Option.map (retimed old_ttl new_ttl (c.now +ℤ new_ttl)) (stored p k b.addrs)
              else stored q k b.addrs)
    unfolding update_addrs stored lookup
    live_at-update_addrs c p old_ttl new_ttl u q k h = elim (Option-cases (lookup p b.addrs)) [
      | inl absent ↦ ground (arith, ==_iff p q)
      | inr (amap, found) ↦
          let exp = c.now +ℤ new_ttl in
          let new = update_loop old_ttl new_ttl exp amap in
          let valid = AllValues-lookup (IsAddrMap bytes) p b.addrs v.entries found in
          rw (found, update_addrs, ← lookup-update_loop old_ttl new_ttl exp k amap)
            (live_at-gc-put c.gc_now c.gc_next u p q k new b.sub_manager
              (update_loop-IsAddrMap bytes old_ttl new_ttl exp amap valid) h)
    ]

    -- What is live after `Addrs`, from its reading of the clock on: what was before.
    pub live_at-addrs :
        (now u : ℤ) (p q k : Bytes)
        → now ≤ℤ u
        → live_at u (stored q k (AddrBook.addrs b now p).0.addrs) ≡ live_at u (stored q k b.addrs)
    unfolding AddrBook.addrs stored
    live_at-addrs now u p q k h = elim (Option-cases (lookup p b.addrs)) [
      | inl absent ↦ rw (absent, AddrBook.addrs)
      | inr (amap, found) ↦
          let valid = AllValues-lookup (IsAddrMap bytes) p b.addrs v.entries found in
          ground (
            arith,
            ==_iff p q,
            stored-insert p q k (drop_expired now amap) b.addrs,
            lookup-drop_expired now k amap valid.distinct,
            live_at-live_at now u (lookup k amap) h,
          )
    ]

    -- `Addrs` returns an address with the bytes `k` exactly when there is a live entry for them.
    pub contains-addrs :
        (now : ℤ) (p k : Bytes)
        → contains k (map bytes (AddrBook.addrs b now p).1)
          ≡ is_some (live_at now (stored p k b.addrs))
    unfolding AddrBook.addrs stored lookup contains live_at
    contains-addrs now p k = elim (Option-cases (lookup p b.addrs)) [
      | inl absent ↦ rw (absent, AddrBook.addrs)
      | inr (amap, found) ↦
          let valid = AllValues-lookup (IsAddrMap bytes) p b.addrs v.entries found in
          let good = drop_expired-IsAddrMap bytes now amap valid in
          rw (found, AddrBook.addrs, map-bytes _ good.keyed, contains-keys)
            (ap is_some (lookup-drop_expired now k amap valid.distinct))
    ]

  -- A new book satisfies the invariant, and every method that changes a book keeps it, whatever the
  -- clock reads: each map holds each key once, and each address lies under its own bytes.
  pub methods-IsValid :
      (b : MemoryAddrBook A) (c : Clock) (now old_ttl new_ttl ttl : ℤ) (p : Bytes)
      (as' : List (Option A))
      → IsValid bytes b
      → IsValid bytes new_addr_book
        × IsValid bytes (add_addrs bytes b c p as' ttl)
        × IsValid bytes (set_addrs bytes b c p as' ttl)
        × IsValid bytes (update_addrs b c p old_ttl new_ttl)
        × IsValid bytes (AddrBook.addrs b now p).0
        × IsValid bytes (clear_addrs b p)
  methods-IsValid b c now old_ttl new_ttl ttl p as' v = (
    new_addr_book-IsValid,
    add_addrs-IsValid b v c p as' ttl,
    set_addrs-IsValid b v c p as' ttl,
    update_addrs-IsValid b v c p old_ttl new_ttl,
    addrs-IsValid b v now p,
    clear_addrs-IsValid b v p,
  )
