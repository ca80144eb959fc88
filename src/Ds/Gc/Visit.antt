-- ===== src/Ds/Gc/Visit.antt =====
-- `purgeLookahead`: what a purge of the look-ahead window keeps.
use go_libp2p_peerstore.Prelude.{
  ℕ, false, List, [], ◌∷◌, some, Bytes, bytes_eq, int_eq, ℤ, ◌≤ℤ◌, ltb_ℤ, ◌≡◌, ◌≢◌, refl, sym, ap,
  ◌∙◌, inl, inr, Bool-cases, Option-cases, All,
}
use mathlib.Core.Path.{subst}
use go_libp2p_peerstore.Prelude.{get_elem?}
use go_libp2p_peerstore.Mem.Metadata.{GetResult, value, not_found, failed}
use go_libp2p_peerstore.Ds.Cache.{Cache}
use go_libp2p_peerstore.Ds.Record.{AddrEntry, AddrsRecord}
use go_libp2p_peerstore.Ds.Store.{AddrStore, StoreOp, put_op, delete_op, addr_key}
use go_libp2p_peerstore.Ds.Batch.{Batching}
use go_libp2p_peerstore.Ds.Book.Laws.{CacheLaws, StoreLaws}
use go_libp2p_peerstore.Ds.Book.Spec.{SpecBook}
use go_libp2p_peerstore.Ds.Book.Flush.{IsWritten, disk_value}
use go_libp2p_peerstore.Ds.Book.Represents.{Represents, Represents-later, IsRecordAt}
use go_libp2p_peerstore.Ds.Record.Clean.{SortLaws, live_entries}
use go_libp2p_peerstore.Ds.Gc.{
  GcStore, GcBook, Purge, clean_batch, drop_entry, drop_or_reschedule, due_expiry, visit_cached,
  visit_stored, visit, visit_due, purge_lookahead, commit_batch,
}
use go_libp2p_peerstore.Ds.Gc.Settled.{
  BatchLaws, commit_batch-IsSettling, new_cyclic_batch-IsSettling,
}
use go_libp2p_peerstore.Ds.Book.Change.{clean-empty}
use go_libp2p_peerstore.Ds.Gc.Cycle.{
  IsCycling, batch_write-IsCycling, clean_batch-IsCycling, set_cell-IsCycling, trimmed-IsWritten,
}

module _ {C D K A B : Type 0} (cache : Cache C Bytes ℕ) (st : AddrStore D K A) (gs : GcStore D K)
    (bt : Batching D B (StoreOp K)) (sort : List (AddrEntry A) → List (AddrEntry A))
    (held : B → List (StoreOp K)) (laws : StoreLaws st) (cache_laws : CacheLaws cache)
    (batch_laws : BatchLaws st bt held) (sort_laws : SortLaws sort) where
  module _ (visit_keys : (t : ℤ) (n q : Bytes) → gs.visit_key t n ≢ addr_key st q) where
    drop_or_reschedule-IsCycling :
        (now end : ℤ) (key : K) (s : SpecBook A) (r : AddrsRecord A) (pu : Purge C D A B)
        → ((q : Bytes) → key ≢ addr_key st q)
        → IsCycling cache st gs bt sort held laws cache_laws batch_laws sort_laws now s pu
        → IsCycling cache st gs bt sort held laws cache_laws batch_laws sort_laws now s
            (drop_or_reschedule cache st gs bt sort end key r pu)
    unfolding drop_or_reschedule drop_entry
    drop_or_reschedule-IsCycling now end key s r pu unseen cyc =
        let dropped =
          batch_write-IsCycling cache st gs bt sort held laws cache_laws batch_laws sort_laws now s
            (delete_op key) pu unseen cyc in
        elim (Option-cases (due_expiry end r.addrs)) [
          | inl later ↦ rw (drop_or_reschedule, later) dropped
          | inr (t, due) ↦
              rw (drop_or_reschedule, due)
                (batch_write-IsCycling cache st gs bt sort held laws cache_laws batch_laws sort_laws
                  now s (put_op (gs.visit_key t (gs.name key)) []) _ (visit_keys t (gs.name key))
                  dropped)
        ]

    module _ (clean_at : K → ℤ) where
      visit_cached-IsCycling :
          (now end : ℤ) (key : K) (s : SpecBook A) (p : Bytes) (ptr : ℕ) (pu : Purge C D A B)
          → clean_at key ≤ℤ now
          → ((q : Bytes) → key ≢ addr_key st q)
          → cache.peek p pu.book.cache ≡ some ptr
          → IsCycling cache st gs bt sort held laws cache_laws batch_laws sort_laws now s pu
          → (found : IsRecordAt cache st p ptr now (s.entries p) pu.book.heap)
          → IsCycling cache st gs bt sort held laws cache_laws batch_laws sort_laws now s
              (visit_cached cache st gs bt sort clean_at end key ptr found.cell pu)
      unfolding visit_cached
      visit_cached-IsCycling now end key s p ptr pu le unseen hit cyc found =
          let c = clean_at key in
          let r = found.cell.value in
          let (cyc', this, same, same_book) =
            clean_batch-IsCycling cache st gs bt sort held laws cache_laws batch_laws sort_laws now
              c s p r pu le found.written found.same cyc in
          let out = clean_batch cache st gs bt sort c r pu in
          let before = same_book pu.book.ds in
          let written : IsWritten p out.0 = subst (IsWritten p) (sym this) (
            trimmed-IsWritten cache st gs bt sort held laws cache_laws batch_laws sort_laws c p r
              found.written) in
          drop_or_reschedule-IsCycling now end key s out.0 _ unseen (
            set_cell-IsCycling cache st gs bt sort held laws cache_laws batch_laws sort_laws now s p
              ptr found.cell (record found.cell { value = out.0 }) out.1
              (ap (λ b. cache.peek p b.cache) before ∙ hit)
              (ap (λ b. get_elem? b.heap ptr) before ∙ found.at) found.written.peer written
              (λ v g. ap (λ x. live_entries v x.addrs) this ∙ same v g)
              (λ h. ap (λ x. x.addrs) this ∙ clean-empty sort c r (found.nil h)) cyc')

      visit_stored-IsCycling :
          (now end : ℤ) (key : K) (s : SpecBook A) (p : Bytes) (pu : Purge C D A B)
          → clean_at key ≤ℤ now
          → ((q : Bytes) → key ≢ addr_key st q)
          → gs.name key ≡ st.base32 p
          → IsCycling cache st gs bt sort held laws cache_laws batch_laws sort_laws now s pu
          → IsCycling cache st gs bt sort held laws cache_laws batch_laws sort_laws now s
              (visit_stored cache st gs bt sort clean_at end key pu)
      unfolding visit_stored drop_entry addr_key
      visit_stored-IsCycling now end key s p pu le unseen name cyc =
          by_answer (st.get entry pu.book.ds) refl
        where
          entry : K
          entry = st.child_string st.addr_book_base (gs.name key)

          dropped :
              IsCycling cache st gs bt sort held laws cache_laws batch_laws sort_laws now s
                (drop_entry cache st gs bt sort key pu)
          dropped =
              batch_write-IsCycling cache st gs bt sort held laws cache_laws batch_laws sort_laws
                now s (delete_op key) pu unseen cyc

          by_answer :
              (r : GetResult Bytes)
              → st.get entry pu.book.ds ≡ r
              → IsCycling cache st gs bt sort held laws cache_laws batch_laws sort_laws now s
                  (visit_stored cache st gs bt sort clean_at end key pu)
          by_answer not_found h = rw (visit_stored, h) dropped
          by_answer failed h = rw (visit_stored, h) dropped
          by_answer (value v) h =
              let here : st.get (addr_key st p) pu.book.ds ≡ value v =
                ap (λ n. st.get (st.child_string st.addr_book_base n) pu.book.ds) (sym name) ∙ h in
              let (es, dec, sorted) = cyc.reading.stored p v here in
              let read : AddrsRecord A = record { id = p; addrs = es; dirty = false } in
              let on_disk = disk_value st p v p es pu.book.ds here dec in
              let (cyc', this, same, same_book) =
                clean_batch-IsCycling cache st gs bt sort held laws cache_laws batch_laws sort_laws
                  now (clean_at key) s p read pu le
                  (record { peer = refl; not_dirty = refl; sorted = sorted })
                  (λ u g. ap (live_entries u) (sym on_disk) ∙ cyc.reading.on_disk p u g) cyc in
              rw (visit_stored, h, dec) (drop_or_reschedule-IsCycling now end key s _ _ unseen cyc')

      -- The keys of the window: none is that of a record, and the name of each is the base32 of the
      -- peer that it decodes to.
      abbrev pub IsVisit : K → Type 0
      IsVisit key =
          ((q : Bytes) → key ≢ addr_key st q)
          × ((p : Bytes) → gs.decode32 (gs.name key) ≡ some p → gs.name key ≡ st.base32 p)

      visit-IsCycling :
          (now end : ℤ) (key : K) (s : SpecBook A) (pu : Purge C D A B)
          → clean_at key ≤ℤ now
          → IsVisit key
          → IsCycling cache st gs bt sort held laws cache_laws batch_laws sort_laws now s pu
          → IsCycling cache st gs bt sort held laws cache_laws batch_laws sort_laws now s
              (visit cache st gs bt sort clean_at end key pu)
      unfolding visit drop_entry
      visit-IsCycling now end key s pu le (unseen, names) cyc =
          elim (Option-cases (gs.decode32 (gs.name key))) [
            | inl bad ↦ rw (visit, bad) dropped
            | inr (raw, decoded) ↦ elim (Bool-cases (gs.id_from_bytes raw).1) [
              | inr bad ↦ rw (visit, decoded, bad) dropped
              | inl good ↦ elim (Option-cases (cache.peek (gs.id_from_bytes raw).0 pu.book.cache)) [
                | inl miss ↦
                    rw (visit, decoded, good, miss)
                      (visit_stored-IsCycling now end key s raw pu le unseen (names raw decoded)
                        cyc)
                | inr (ptr, hit) ↦
                    let found = cyc.reading.cached (gs.id_from_bytes raw).0 ptr hit in
                    rw (visit, decoded, good, hit, found.at)
                      (visit_cached-IsCycling now end key s (gs.id_from_bytes raw).0 ptr pu le
                        unseen hit cyc found)
              ]
            ]
          ]
        where
          dropped :
              IsCycling cache st gs bt sort held laws cache_laws batch_laws sort_laws now s
                (drop_entry cache st gs bt sort key pu)
          dropped =
              batch_write-IsCycling cache st gs bt sort held laws cache_laws batch_laws sort_laws
                now s (delete_op key) pu unseen cyc

      visit_due-IsCycling :
          (now end at : ℤ) (ks : List K) (s : SpecBook A) (pu : Purge C D A B)
          → All (λ k. clean_at k ≤ℤ now) ks
          → All IsVisit ks
          → IsCycling cache st gs bt sort held laws cache_laws batch_laws sort_laws now s pu
          → IsCycling cache st gs bt sort held laws cache_laws batch_laws sort_laws now s
              (visit_due cache st gs bt sort clean_at at end ks pu)
      unfolding visit_due drop_entry
      visit_due-IsCycling now end at [] s pu le visits cyc = cyc
      visit_due-IsCycling now end at (key ∷ ks) s pu le visits cyc =
          elim (Option-cases (gs.timestamp key)) [
            | inl bad ↦
                rw (visit_due, bad)
                  (visit_due-IsCycling now end at ks s _ le.1 visits.1 (
                    batch_write-IsCycling cache st gs bt sort held laws cache_laws batch_laws
                      sort_laws now s (delete_op key) pu visits.0.0 cyc))
            | inr (ts, parsed) ↦ elim (Bool-cases (ltb_ℤ at ts)) [
              | inl later ↦ rw (visit_due, parsed, later) cyc
              | inr due ↦
                  rw (visit_due, parsed, due)
                    (visit_due-IsCycling now end at ks s _ le.1 visits.1
                      (visit-IsCycling now end key s pu le.0 visits.0 cyc))
            ]
          ]

      -- Where no other cycle runs and the query succeeds, a purge of the look-ahead window changes nothing
      -- that can be seen: the book stands for the same map, though the cycle reads a datastore to which
      -- its own last write has not come yet, and may visit a peer twice.
      pub purge_lookahead-Represents :
          (t now at : ℤ) (s : SpecBook A) (g : GcBook C D A) (ks : List K)
          → t ≤ℤ now
          → Represents cache st t s g.book
          → gs.query_visits g.book.ds ≡ some ks
          → All IsVisit ks
          → All (λ k. clean_at k ≤ℤ now) ks
          → g.running ≡ false
          → (g' : GcBook C D A) × (purge_lookahead cache st gs bt sort clean_at at g ≡ some g')
            × Represents cache st now s g'.book
      unfolding purge_lookahead
      purge_lookahead-Represents t now at s g ks later rep listed visits le idle =
          let (cb, made, fresh) =
            new_cyclic_batch-IsSettling st bt held batch_laws cache gs sort g.book in
          let rep' = Represents-later cache st t now s s g.book later (λ q v h. refl) refl rep in
          let start : Purge C D A B = record { book = g.book; batch = cb } in
          let pu = visit_due cache st gs bt sort clean_at at g.curr_window_end ks start in
          let cyc =
            visit_due-IsCycling now g.curr_window_end at ks s start le visits
              (record { after = g.book.ds; settling = fresh; represents = rep'; reading = rep' }) in
          let done =
            commit_batch-IsSettling st bt held batch_laws cache gs sort cyc.after pu cyc.settling in
          (
            record g { book = commit_batch cache st gs bt sort pu },
            rw (purge_lookahead, idle, listed, made)
                (ap
                  (λ x. some (record g { book = commit_batch cache st gs bt sort pu; running = x }))
                  idle),
            subst (Represents cache st now s) (sym done) cyc.represents,
          )
