-- ===== src/Mem/AddrBook/Valid.antt =====
-- The book's invariant: every map holds each key once, and an address lies under its own bytes.
use go_libp2p_peerstore.Prelude.{
  List, [], ◌∷◌, Option, none, some, Bytes, bytes_eq, int_eq, ℤ, ltb_ℤ, ◌≡◌, refl, sym, ap, ◌∙◌,
  ◌==◌, ==_iff, arith, inl, inr, Bool-cases, Option-cases, All,
}
use go_libp2p_peerstore.Prelude.Maps.{
  Map, lookup, insert, delete, IsMap, AllValues, AllValues-lookup, AllValues-insert, insert-IsMap,
  delete-IsMap,
}
use go_libp2p_peerstore.Mem.SubManager.{AddrSubManager}
use go_libp2p_peerstore.Mem.AddrBook.{
  ExpiringAddr, AddrMap, MemoryAddrBook, drop_expired, keep_peer, gc_loop, gc, addr_map, add_step,
  add_loop, set_step, set_loop, update_loop,
}
use go_libp2p_peerstore.Mem.AddrBook.Stored.{drop_expired-IsMap, lookup-gc_loop-none}

module _ {A : Type 0} (bytes : A → Bytes) where
  -- Each address lies under its bytes.
  abbrev pub KeysMatch : AddrMap A → Type 0
  KeysMatch = All (λ e. bytes e.1.addr ≡ e.0)

  pub record IsAddrMap (amap : AddrMap A) : Type 0 where
    pub distinct : IsMap amap
    pub keyed : KeysMatch amap

  pub record IsValid (b : MemoryAddrBook A) : Type 0 where
    pub peers : IsMap b.addrs
    pub entries : AllValues IsAddrMap b.addrs

  KeysMatch-insert :
      (a : A) (e : ExpiringAddr A) (amap : AddrMap A)
      → e.addr ≡ a
      → KeysMatch amap
      → KeysMatch (insert (bytes a) e amap)
  unfolding insert
  KeysMatch-insert a e [] q h = (ap bytes q, h)
  KeysMatch-insert a e ((j, w) ∷ amap) q h = elim (Bool-cases (j == bytes a)) [
    | inl same ↦ rw same (ap bytes q ∙ sym ((==_iff j (bytes a)).0 same), h.1)
    | inr other ↦ rw other (h.0, KeysMatch-insert a e amap q h.1)
  ]

  KeysMatch-delete : (k : Bytes) (amap : AddrMap A) → KeysMatch amap → KeysMatch (delete k amap)
  unfolding delete
  KeysMatch-delete k [] h = h
  KeysMatch-delete k ((j, w) ∷ amap) h = ground (arith, KeysMatch-delete k amap)

  KeysMatch-drop_expired :
      (now : ℤ) (amap : AddrMap A) → KeysMatch amap → KeysMatch (drop_expired now amap)
  unfolding drop_expired
  KeysMatch-drop_expired now [] h = h
  KeysMatch-drop_expired now ((j, w) ∷ amap) h = ground (arith, KeysMatch-drop_expired now amap)

  pub drop_expired-IsAddrMap :
      (now : ℤ) (amap : AddrMap A) → IsAddrMap amap → IsAddrMap (drop_expired now amap)
  drop_expired-IsAddrMap now amap h = record {
    distinct = drop_expired-IsMap now amap h.distinct;
    keyed = KeysMatch-drop_expired now amap h.keyed;
  }

  pub insert-IsAddrMap :
      (a : A) (e : ExpiringAddr A) (amap : AddrMap A)
      → e.addr ≡ a
      → IsAddrMap amap
      → IsAddrMap (insert (bytes a) e amap)
  insert-IsAddrMap a e amap q h = record {
    distinct = insert-IsMap (bytes a) e amap h.distinct;
    keyed = KeysMatch-insert a e amap q h.keyed;
  }

  pub delete-IsAddrMap : (k : Bytes) (amap : AddrMap A) → IsAddrMap amap → IsAddrMap (delete k amap)
  delete-IsAddrMap k amap h = record {
    distinct = delete-IsMap k amap h.distinct;
    keyed = KeysMatch-delete k amap h.keyed;
  }

  update_loop-none :
      (old_ttl new_ttl exp : ℤ) (k : Bytes) (amap : AddrMap A)
      → lookup k amap ≡ none
      → lookup k (update_loop old_ttl new_ttl exp amap) ≡ none
  unfolding lookup update_loop
  update_loop-none old_ttl new_ttl exp k [] h = refl
  update_loop-none old_ttl new_ttl exp k ((j, e) ∷ amap) h =
      ground (arith, update_loop-none old_ttl new_ttl exp k amap)

  pub update_loop-IsAddrMap :
      (old_ttl new_ttl exp : ℤ) (amap : AddrMap A)
      → IsAddrMap amap
      → IsAddrMap (update_loop old_ttl new_ttl exp amap)
  unfolding update_loop
  update_loop-IsAddrMap old_ttl new_ttl exp [] h = h
  update_loop-IsAddrMap old_ttl new_ttl exp ((j, e) ∷ amap) h =
      let rest : IsAddrMap amap = record { distinct = h.distinct.1; keyed = h.keyed.1 } in
      let ih = update_loop-IsAddrMap old_ttl new_ttl exp amap rest in
      record {
        distinct = (update_loop-none old_ttl new_ttl exp j amap h.distinct.0, ih.distinct);
        keyed = (ground arith, ih.keyed);
      }

  gc_loop-peers : (now : ℤ) (m : Map Bytes (AddrMap A)) → IsMap m → IsMap (gc_loop now m)
  unfolding gc_loop keep_peer
  gc_loop-peers now [] h = h
  gc_loop-peers now ((p, amap) ∷ m) h =
      ground (arith, lookup-gc_loop-none now p m, gc_loop-peers now m)

  keep_peer-entries :
      (p : Bytes) (amap : AddrMap A) (m : Map Bytes (AddrMap A))
      → IsAddrMap amap
      → AllValues IsAddrMap m
      → AllValues IsAddrMap (keep_peer p amap m)
  unfolding keep_peer
  keep_peer-entries p [] m h g = g
  keep_peer-entries p (x ∷ amap) m h g = (h, g)

  gc_loop-entries :
      (now : ℤ) (m : Map Bytes (AddrMap A))
      → AllValues IsAddrMap m
      → AllValues IsAddrMap (gc_loop now m)
  unfolding gc_loop
  gc_loop-entries now [] h = h
  gc_loop-entries now ((p, amap) ∷ m) h =
      keep_peer-entries p (drop_expired now amap) (gc_loop now m)
        (drop_expired-IsAddrMap now amap h.0) (gc_loop-entries now m h.1)

  pub gc-IsValid : (now next : ℤ) (b : MemoryAddrBook A) → IsValid b → IsValid (gc now next b)
  unfolding gc
  gc-IsValid now next b v = elim (Bool-cases (ltb_ℤ b.next_gc now)) [
    | inl due ↦ rw due (record {
      peers = gc_loop-peers now b.addrs v.peers;
      entries = gc_loop-entries now b.addrs v.entries;
    })
    | inr early ↦ rw early v
  ]

  pub addr_map-IsAddrMap : (b : MemoryAddrBook A) (p : Bytes) → IsValid b → IsAddrMap (addr_map b p)
  addr_map-IsAddrMap b p v = elim (Option-cases (lookup p b.addrs)) [
    | inl absent ↦ rw absent (record { distinct = tt; keyed = tt })
    | inr (amap, found) ↦ rw found (AllValues-lookup IsAddrMap p b.addrs v.entries found)
  ]

  -- A write of a peer's map keeps the invariant.
  pub put-IsValid :
      (b : MemoryAddrBook A) (p : Bytes) (amap : AddrMap A) (mgr : AddrSubManager A)
      → IsValid b
      → IsAddrMap amap
      → IsValid (record b { addrs = insert p amap b.addrs; sub_manager = mgr })
  put-IsValid b p amap mgr v h = record {
    peers = insert-IsMap p amap b.addrs v.peers;
    entries = AllValues-insert IsAddrMap p amap b.addrs h v.entries;
  }

  pub add_loop-IsAddrMap :
      (p : Bytes) (exp ttl : ℤ) (as' : List (Option A)) (s : AddrMap A × AddrSubManager A)
      → IsAddrMap s.0
      → IsAddrMap (add_loop bytes p exp ttl as' s).0
  unfolding add_loop
  add_loop-IsAddrMap p exp ttl [] s h = h
  add_loop-IsAddrMap p exp ttl (none ∷ as') s h = add_loop-IsAddrMap p exp ttl as' s h
  add_loop-IsAddrMap p exp ttl (some a ∷ as') (amap, mgr) h =
      add_loop-IsAddrMap p exp ttl as' (add_step bytes p exp ttl a (amap, mgr))
        (ground (arith, insert-IsAddrMap a (record { addr = a; ttl = ttl; expires = exp }) amap))

  pub set_loop-IsAddrMap :
      (p : Bytes) (exp ttl : ℤ) (as' : List (Option A)) (s : AddrMap A × AddrSubManager A)
      → IsAddrMap s.0
      → IsAddrMap (set_loop bytes p exp ttl as' s).0
  unfolding set_loop
  set_loop-IsAddrMap p exp ttl [] s h = h
  set_loop-IsAddrMap p exp ttl (none ∷ as') s h = set_loop-IsAddrMap p exp ttl as' s h
  set_loop-IsAddrMap p exp ttl (some a ∷ as') (amap, mgr) h =
      set_loop-IsAddrMap p exp ttl as' (set_step bytes p exp ttl a (amap, mgr)) (
        ground (
          arith,
          insert-IsAddrMap a (record { addr = a; ttl = ttl; expires = exp }) amap,
          delete-IsAddrMap (bytes a) amap,
        ))
