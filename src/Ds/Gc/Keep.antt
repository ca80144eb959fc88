-- ===== src/Ds/Gc/Keep.antt =====
-- `purgeStore`: what the purge of one record keeps, and what it removes.
use go_libp2p_peerstore.Prelude.{
  ℕ, false, List, Bytes, bytes_eq, int_eq, ℤ, ◌≤ℤ◌, ◌≡◌, ◌≢◌, refl, sym, ap, ◌∙◌, ◌==◌, ==_iff,
  arith, inl, inr, Bool-cases, Option-cases,
}
use mathlib.Core.Path.{subst}
use go_libp2p_peerstore.Mem.Metadata.{value}
use go_libp2p_peerstore.Ds.Cache.{Cache}
use go_libp2p_peerstore.Ds.Record.{AddrEntry, AddrsRecord, clean}
use go_libp2p_peerstore.Ds.Store.{AddrStore, StoreOp, addr_key, flush_write}
use go_libp2p_peerstore.Ds.Book.{DsAddrBook}
use go_libp2p_peerstore.Ds.Batch.{Batching}
use go_libp2p_peerstore.Ds.Gc.{GcStore, Purge, batch_write}
use go_libp2p_peerstore.Ds.Store.{flush}
use go_libp2p_peerstore.Ds.Gc.{flush_batch, purge_entry}
use go_libp2p_peerstore.Ds.Gc.Settled.{BatchLaws, IsSettling, batch_write-IsSettling}
use go_libp2p_peerstore.Ds.Book.Laws.{CacheLaws, StoreLaws}
use go_libp2p_peerstore.Ds.Book.Spec.{SpecBook}
use go_libp2p_peerstore.Ds.Book.Flush.{
  SameLive, disk, disk-same, disk_value, IsStored, Flushed, flush-Flushed, clean-IsWritten,
  live_entries-IsSorted, live_entries-live_entries,
}
use go_libp2p_peerstore.Ds.Book.Represents.{Represents}
use go_libp2p_peerstore.Ds.Record.Clean.{IsSorted, SortLaws, clean-Cleaned, live_entries}

module _ {C D K A : Type 0} (cache : Cache C Bytes ℕ) (st : AddrStore D K A) (laws : StoreLaws st)
    (cache_laws : CacheLaws cache) where
  -- To write a peer's record with the same live entries to the datastore changes nothing that can be
  -- seen.
  pub Represents-flushed :
      (t : ℤ) (p : Bytes) (r : AddrsRecord A) (s : SpecBook A) (b : DsAddrBook C D A)
      → Represents cache st t s b
      → r.id ≡ p
      → IsSorted r.addrs
      → SameLive t r.addrs (s.entries p)
      → Represents cache st t s (record b { ds = (flush st r b.ds).1.1 })
  Represents-flushed t p r s b rep own sorted same = record {
    cached = rep.cached;
    on_disk = λ q v g. elim (Bool-cases (p == q)) [
      | inl own_peer ↦
          subst
            (λ x. live_entries v (disk st x (flush st r b.ds).1.1) ≡ live_entries v (s.entries x))
            ((==_iff p q).0 own_peer) (ap (live_entries v) out.own ∙ same v g)
      | inr other_peer ↦
          ap (live_entries v) (disk-same st q _ b.ds (out.others q (apart q other_peer)))
          ∙ rep.on_disk q v g
    ];
    stored = λ q. elim (Bool-cases (p == q)) [
      | inl own_peer ↦
          subst (λ x. IsStored st x (flush st r b.ds).1.1) ((==_iff p q).0 own_peer) out.own_stored
      | inr other_peer ↦ λ v e. rep.stored q v (sym (out.others q (apart q other_peer)) ∙ e)
    ];
    subs = rep.subs;
  }
    where
      out : Flushed st laws p r b.ds (flush st r b.ds)
      out = flush-Flushed st laws p r b.ds own sorted

      apart : (q : Bytes) → (p == q) ≡ false → p ≢ q
      apart q h e = ground (arith, ==_iff p q)

  -- To write a peer's record with the same live entries to the datastore, and drop it from the cache,
  -- changes nothing that can be seen.
  Represents-rewritten :
      (t : ℤ) (p : Bytes) (r : AddrsRecord A) (s : SpecBook A) (b : DsAddrBook C D A)
      → Represents cache st t s b
      → r.id ≡ p
      → IsSorted r.addrs
      → SameLive t r.addrs (s.entries p)
      → Represents cache st t s
          (record b { cache = cache.remove p b.cache; ds = (flush st r b.ds).1.1 })
  Represents-rewritten t p r s b rep own sorted same =
      let written = Represents-flushed t p r s b rep own sorted same in
      record {
        cached = λ q ptr hit. rep.cached q ptr (cache_laws.peek_remove q p ptr b.cache hit).1;
        on_disk = written.on_disk;
        stored = written.stored;
        subs = written.subs;
      }

module _ {C D K A B : Type 0} (cache : Cache C Bytes ℕ) (st : AddrStore D K A) (gs : GcStore D K)
    (bt : Batching D B (StoreOp K)) (sort : List (AddrEntry A) → List (AddrEntry A))
    (held : B → List (StoreOp K)) (laws : StoreLaws st) (cache_laws : CacheLaws cache)
    (batch_laws : BatchLaws st bt held) (sort_laws : SortLaws sort) where
  -- A flush to the batch is one to the datastore, once the batch is committed.
  pub flush_batch-IsSettling :
      (r : AddrsRecord A) (d : D) (s : Purge C D A B)
      → IsSettling st bt held batch_laws cache gs sort d s
      → IsSettling st bt held batch_laws cache gs sort
          (flush st r d).1.1
          (flush_batch cache st gs bt sort r s).1
        × ((x : D)
            → record (flush_batch cache st gs bt sort r s).1.book { ds = x }
              ≡ record s.book { ds = x })
  unfolding flush_batch batch_write flush
  flush_batch-IsSettling r d s settling = elim (Option-cases (flush_write st r)) [
    | inl fails ↦ rw (flush, flush_batch, fails) (settling, λ x. refl)
    | inr (op, writes) ↦
        rw (flush, flush_batch, writes)
          (
            (batch_write-IsSettling st bt held batch_laws cache gs sort op d s settling).1,
            λ x. refl,
          )
  ]

  module _ (clean_at : K → ℤ) where
    -- What the purge of one result does to the book, for the book that is had once the batch is
    -- committed.
    pub record IsPurged (now : ℤ) (key : K) (p : Bytes) (d : D) (s : SpecBook A)
        (out : Purge C D A B) : Type 0 where
      pub after : D
      pub settling : IsSettling st bt held batch_laws cache gs sort after out
      pub represents : Represents cache st now s (record out.book { ds = after })
      pub collected : disk st p after ≡ live_entries (clean_at key) (disk st p d)
      pub others : (q : Bytes) → p ≢ q → st.get (addr_key st q) after ≡ st.get (addr_key st q) d

    pub purge_entry-IsPurged :
        (now : ℤ) (key : K) (p v : Bytes) (d : D) (s : SpecBook A) (pu : Purge C D A B)
        → clean_at key ≤ℤ now
        → IsSettling st bt held batch_laws cache gs sort d pu
        → Represents cache st now s (record pu.book { ds = d })
        → st.get (addr_key st p) d ≡ value v
        → IsPurged now key p d s (purge_entry cache st gs bt sort clean_at key v pu)
    unfolding purge_entry
    purge_entry-IsPurged now key p v d s pu le settling rep bytes =
        let (es, dec, sorted) = rep.stored p v bytes in
        let c = clean_at key in
        let read : AddrsRecord A = record { id = p; addrs = es; dirty = false } in
        let r = (clean sort c read).0 in
        let trimmed =
          clean-IsWritten sort c p read
            (record { peer = refl; not_dirty = refl; sorted = sorted }) in
        let on_disk = disk_value st p v p es d bytes dec in
        elim (Bool-cases (clean sort c read).1) [
          | inl changed ↦
              let (settling', same_book) = flush_batch-IsSettling r d pu settling in
              let own = ap (λ x. x.id) trimmed in
              let trimmed_sorted : IsSorted r.addrs =
                subst (λ x. IsSorted x.addrs) (sym trimmed) (live_entries-IsSorted c es sorted) in
              let out = flush-Flushed st laws p r d own trimmed_sorted in
              rw (purge_entry, dec, changed)
                (record {
                  after = (flush st r d).1.1;
                  settling = settling';
                  represents =
                      subst
                        (λ x.
                          Represents cache st now s (record x { cache = cache.remove p x.cache }))
                        (sym (same_book (flush st r d).1.1))
                        (Represents-rewritten cache st laws cache_laws now p r s
                          (record pu.book { ds = d }) rep own trimmed_sorted
                          (λ u g.
                            ap (λ x. live_entries u x.addrs) trimmed
                            ∙ live_entries-live_entries c u es (omega arith)
                            ∙ ap (live_entries u) (sym on_disk)
                            ∙ rep.on_disk p u g));
                  collected =
                      out.own ∙ ap (λ x. x.addrs) trimmed ∙ ap (live_entries c) (sym on_disk);
                  others = out.others;
                })
          | inr unchanged ↦
              let (kept, unmarked, filled) =
                (clean-Cleaned sort sort_laws c read (λ _. sorted)).no_change unchanged in
              rw (purge_entry, dec, unchanged)
                (record {
                  after = d;
                  settling = settling;
                  represents = rep;
                  collected =
                      on_disk
                      ∙ ap (λ x. x.addrs) (sym kept ∙ trimmed)
                      ∙ ap (live_entries c) (sym on_disk);
                  others = λ q n. refl;
                })
        ]
