-- ===== src/Ds/Gc/Populate.antt =====
-- `populateLookahead`: what the collection of the look-ahead window keeps.
use go_libp2p_peerstore.Prelude.{
  ℕ, ◌||◌, List, [], ◌∷◌, none, some, Bytes, bytes_eq, int_eq, ℤ, ◌+ℤ◌, pos, ◌≡◌, ◌≢◌, refl, sym,
  ◌==◌, inl, inr, Bool-cases, Option-cases,
}
use mathlib.Core.Path.{subst}
use go_libp2p_peerstore.Prelude.{get_elem?}
use go_libp2p_peerstore.Mem.Metadata.{GetResult, value, not_found, failed}
use go_libp2p_peerstore.Ds.Cache.{Cache}
use go_libp2p_peerstore.Ds.Record.{AddrEntry, unix}
use go_libp2p_peerstore.Ds.Store.{AddrStore, StoreOp, put_op, addr_key}
use go_libp2p_peerstore.Ds.Batch.{Batching}
use go_libp2p_peerstore.Ds.Book.Laws.{CacheLaws, StoreLaws}
use go_libp2p_peerstore.Ds.Book.Spec.{SpecBook}
use go_libp2p_peerstore.Ds.Book.Represents.{Represents}
use go_libp2p_peerstore.Ds.Record.Clean.{SortLaws}
use go_libp2p_peerstore.Ds.Gc.{
  GcStore, GcBook, Purge, due_expiry, schedule, populate_entry, populate_entries,
  populate_lookahead,
}
use go_libp2p_peerstore.Ds.Gc.Settled.{
  BatchLaws, commit_batch-IsSettling, new_cyclic_batch-IsSettling,
}
use go_libp2p_peerstore.Ds.Gc.Cycle.{IsCycling, batch_write-IsCycling}

module _ {C D K A B : Type 0} (cache : Cache C Bytes ℕ) (st : AddrStore D K A) (gs : GcStore D K)
    (bt : Batching D B (StoreOp K)) (sort : List (AddrEntry A) → List (AddrEntry A))
    (held : B → List (StoreOp K)) (laws : StoreLaws st) (cache_laws : CacheLaws cache)
    (batch_laws : BatchLaws st bt held) (sort_laws : SortLaws sort) where
  module _ (visit_keys : (t : ℤ) (n q : Bytes) → gs.visit_key t n ≢ addr_key st q) where
    schedule-IsCycling :
        (now until : ℤ) (key : K) (es : List (AddrEntry A)) (s : SpecBook A) (pu : Purge C D A B)
        → IsCycling cache st gs bt sort held laws cache_laws batch_laws sort_laws now s pu
        → IsCycling cache st gs bt sort held laws cache_laws batch_laws sort_laws now s
            (schedule cache st gs bt sort until key es pu)
    unfolding schedule
    schedule-IsCycling now until key es s pu cyc = elim (Option-cases (due_expiry until es)) [
      | inl later ↦ rw (schedule, later) cyc
      | inr (t, due) ↦
          rw (schedule, due)
            (batch_write-IsCycling cache st gs bt sort held laws cache_laws batch_laws sort_laws now
              s (put_op (gs.visit_key t (gs.name key)) []) pu (visit_keys t (gs.name key)) cyc)
    ]

    populate_stored-IsCycling :
        (now until : ℤ) (key : K) (raw : Bytes) (s : SpecBook A) (pu : Purge C D A B)
        → gs.decode32 (gs.name key) ≡ some raw
        → cache.peek (gs.id_from_bytes raw).0 pu.book.cache ≡ none
        → IsCycling cache st gs bt sort held laws cache_laws batch_laws sort_laws now s pu
        → IsCycling cache st gs bt sort held laws cache_laws batch_laws sort_laws now s
            (populate_entry cache st gs bt sort until key pu)
    unfolding populate_entry
    populate_stored-IsCycling now until key raw s pu decoded miss cyc =
        by_answer (st.get key pu.book.ds) refl
      where
        by_answer :
            (r : GetResult Bytes)
            → st.get key pu.book.ds ≡ r
            → IsCycling cache st gs bt sort held laws cache_laws batch_laws sort_laws now s
                (populate_entry cache st gs bt sort until key pu)
        by_answer not_found h = rw (populate_entry, decoded, miss, h) cyc
        by_answer failed h = rw (populate_entry, decoded, miss, h) cyc
        by_answer (value v) h = elim (Option-cases (st.unmarshal v)) [
          | inl bad ↦ rw (populate_entry, decoded, miss, h, bad) cyc
          | inr ((id, es), dec) ↦
              rw (populate_entry, decoded, miss, h, dec)
                (schedule-IsCycling now until key es s pu cyc)
        ]

    populate_entry-IsCycling :
        (now until : ℤ) (key : K) (s : SpecBook A) (pu : Purge C D A B)
        → IsCycling cache st gs bt sort held laws cache_laws batch_laws sort_laws now s pu
        → IsCycling cache st gs bt sort held laws cache_laws batch_laws sort_laws now s
            (populate_entry cache st gs bt sort until key pu)
    unfolding populate_entry
    populate_entry-IsCycling now until key s pu cyc =
        elim (Option-cases (gs.decode32 (gs.name key))) [
          | inl bad ↦ rw (populate_entry, bad) cyc
          | inr (raw, decoded) ↦
              elim (Option-cases (cache.peek (gs.id_from_bytes raw).0 pu.book.cache)) [
                | inl miss ↦ populate_stored-IsCycling now until key raw s pu decoded miss cyc
                | inr (ptr, hit) ↦ elim (Option-cases (get_elem? pu.book.heap ptr)) [
                  | inl dangling ↦ rw (populate_entry, decoded, hit, dangling) cyc
                  | inr (cell, at) ↦
                      rw (populate_entry, decoded, hit, at)
                        (schedule-IsCycling now until key cell.value.addrs s pu cyc)
                ]
              ]
        ]

    populate_entries-IsCycling :
        (now until : ℤ) (ks : List K) (s : SpecBook A) (pu : Purge C D A B)
        → IsCycling cache st gs bt sort held laws cache_laws batch_laws sort_laws now s pu
        → IsCycling cache st gs bt sort held laws cache_laws batch_laws sort_laws now s
            (populate_entries cache st gs bt sort until ks pu)
    unfolding populate_entries
    populate_entries-IsCycling now until [] s pu cyc = cyc
    populate_entries-IsCycling now until (key ∷ ks) s pu cyc =
        populate_entries-IsCycling now until ks s _
          (populate_entry-IsCycling now until key s pu cyc)

    -- `populateLookahead` changes nothing that can be seen.
    pub populate_lookahead-Represents :
        (t interval now : ℤ) (s : SpecBook A) (g : GcBook C D A)
        → Represents cache st t s g.book
        → Represents cache st t s (populate_lookahead cache st gs bt sort interval now g).book
    unfolding populate_lookahead
    populate_lookahead-Represents t interval now s g rep =
        elim (Bool-cases (interval == pos 0 || g.running)) [
          | inl off ↦ rw (populate_lookahead, off) rep
          | inr on ↦ elim (Option-cases (gs.query_record_keys g.book.ds)) [
            | inl fails ↦ rw (populate_lookahead, on, fails) rep
            | inr (ks, listed) ↦
                let until = unix (now +ℤ interval) in
                let (cb, made, fresh) =
                  new_cyclic_batch-IsSettling st bt held batch_laws cache gs sort g.book in
                let start : Purge C D A B = record { book = g.book; batch = cb } in
                let cyc = populate_entries-IsCycling t until ks s start (record {
                  after = g.book.ds;
                  settling = fresh;
                  represents = rep;
                  reading = rep;
                }) in
                rw (populate_lookahead, on, listed, made)
                  (subst (Represents cache st t s)
                    (sym (
                      commit_batch-IsSettling st bt held batch_laws cache gs sort cyc.after _
                        cyc.settling))
                    cyc.represents)
          ]
        ]
