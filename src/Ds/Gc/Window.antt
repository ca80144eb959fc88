-- ===== src/Ds/Gc/Window.antt =====
-- The look-ahead window that `populateLookahead` opens, and the next purge.
use go_libp2p_peerstore.Prelude.{
  ℕ, true, false, List, ◌∷◌, some, Bytes, int_eq, ℤ, ◌≤ℤ◌, ◌+ℤ◌, +ℤ_parts, pos, negsuc, ◌≡◌, refl,
  inr, arith, ◌==◌, bytes_eq,
}
use go_libp2p_peerstore.Ds.Cache.{Cache}
use go_libp2p_peerstore.Ds.Record.{AddrEntry, unix}
use go_libp2p_peerstore.Ds.Store.{AddrStore, StoreOp}
use go_libp2p_peerstore.Ds.Batch.{Batching, CyclicBatch, new_cyclic_batch}
use go_libp2p_peerstore.Ds.Options.{Options, GcPlan, new_address_book_gc}
use go_libp2p_peerstore.Ds.Gc.{GcStore, GcBook, due_expiry, default_ops, populate_lookahead}

unix-mono : (a b : ℤ) → a ≤ℤ b → unix a ≤ℤ unix b
unfolding unix
unix-mono (pos m) (pos n) h = omega arith
unix-mono (pos m) (negsuc n) h = absurd (omega arith)
unix-mono (negsuc m) (pos n) h = omega arith
unix-mono (negsuc m) (negsuc n) h = omega arith

+ℤ-mono : (a b c : ℤ) → b ≤ℤ c → (a +ℤ b) ≤ℤ (a +ℤ c)
+ℤ-mono a b c h = let p = +ℤ_parts a b in let q = +ℤ_parts a c in omega arith

-- Where a collector that looks ahead is made, its window is no shorter than the time between purges, and
-- not 0.
accepted-window :
    (o : Options) (plan : GcPlan)
    → new_address_book_gc o ≡ inr plan
    → plan.lookahead_enabled ≡ true
    → (o.gc_purge_interval ≤ℤ o.gc_lookahead_interval)
      × ((o.gc_lookahead_interval == pos 0) ≡ false)
unfolding new_address_book_gc
accepted-window o plan made ahead = (ground arith, ground arith)

due-in :
    {A : Type 0} (end : ℤ) (e : AddrEntry A) (es : List (AddrEntry A))
    → e.expiry ≤ℤ end
    → due_expiry end (e ∷ es) ≡ some e.expiry
unfolding due_expiry
due-in end e es h = ground arith

module _ {C D K A B : Type 0} (cache : Cache C Bytes ℕ) (st : AddrStore D K A) (gs : GcStore D K)
    (bt : Batching D B (StoreOp K)) (sort : List (AddrEntry A) → List (AddrEntry A)) where
  populated-window :
      (interval now : ℤ) (g : GcBook C D A) (ks : List K) (cb : CyclicBatch B)
      → (interval == pos 0) ≡ false
      → g.running ≡ false
      → gs.query_record_keys g.book.ds ≡ some ks
      → new_cyclic_batch bt g.book.ds default_ops ≡ some cb
      → (populate_lookahead cache st gs bt sort interval now g).curr_window_end
        ≡ unix (now +ℤ interval)
  unfolding populate_lookahead
  populated-window interval now g ks cb on idle listed made =
      rw (populate_lookahead, on, idle, listed, made) refl

  -- Let `newAddressBookGc` make a collector that looks ahead, and let `populateLookahead` run at `now`, with
  -- no other cycle running, a query that succeeds and a batch. Then a record whose first entry expires by
  -- `tick`, which is at most the interval between purges later, is due in the window that is opened.
  pub populate_lookahead-due :
      (o : Options) (plan : GcPlan) (now tick : ℤ) (g : GcBook C D A) (ks : List K)
      (cb : CyclicBatch B) (e : AddrEntry A) (es : List (AddrEntry A))
      → new_address_book_gc o ≡ inr plan
      → plan.lookahead_enabled ≡ true
      → g.running ≡ false
      → gs.query_record_keys g.book.ds ≡ some ks
      → new_cyclic_batch bt g.book.ds default_ops ≡ some cb
      → tick ≤ℤ (now +ℤ o.gc_purge_interval)
      → e.expiry ≤ℤ unix tick
      → due_expiry
          (populate_lookahead cache st gs bt sort o.gc_lookahead_interval now g).curr_window_end
          (e ∷ es)
        ≡ some e.expiry
  populate_lookahead-due o plan now tick g ks cb e es accepted ahead idle listed made soon expires =
      let (long, on) = accepted-window o plan accepted ahead in
      let opened = populated-window o.gc_lookahead_interval now g ks cb on idle listed made in
      let first = unix-mono tick (now +ℤ o.gc_purge_interval) soon in
      let later =
        unix-mono (now +ℤ o.gc_purge_interval) (now +ℤ o.gc_lookahead_interval)
          (+ℤ-mono now o.gc_purge_interval o.gc_lookahead_interval long) in
      rw opened (due-in (unix (now +ℤ o.gc_lookahead_interval)) e es (omega arith))
