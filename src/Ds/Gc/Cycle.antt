-- ===== src/Ds/Gc/Cycle.antt =====
-- What a cycle of the collector keeps while its writes wait in the batch.
use go_libp2p_peerstore.Prelude.{
  ℕ, Bool, true, false, List, [], some, Bytes, bytes_eq, int_eq, ℤ, ◌≤ℤ◌, ◌≡◌, ◌≢◌, refl, sym, ap,
  ◌∙◌, if◌then◌else◌, arith, inl, inr, Bool-cases, Option-cases,
}
use mathlib.Core.Path.{subst}
use go_libp2p_peerstore.Prelude.{set, get_elem?}
use go_libp2p_peerstore.Ds.Cache.{Cache}
use go_libp2p_peerstore.Ds.Record.{AddrEntry, AddrsRecord, flushed, clean}
use go_libp2p_peerstore.Ds.Store.{
  AddrStore, StoreOp, put_op, delete_op, addr_key, flush, flush_write, write_store,
}
use go_libp2p_peerstore.Ds.Batch.{Batching}
use go_libp2p_peerstore.Ds.Book.{Cell, DsAddrBook}
use go_libp2p_peerstore.Ds.Book.Laws.{CacheLaws, StoreLaws}
use go_libp2p_peerstore.Ds.Book.Spec.{SpecBook}
use go_libp2p_peerstore.Ds.Book.Flush.{
  SameLive, IsWritten, disk-same, clean-IsWritten, live_entries-IsSorted, live_entries-live_entries,
}
use go_libp2p_peerstore.Ds.Book.Represents.{Represents, set-AreCached}
use go_libp2p_peerstore.Ds.Record.Clean.{IsSorted, SortLaws, live_entries}
use go_libp2p_peerstore.Ds.Gc.{GcStore, Purge, batch_write, flush_batch, clean_batch}
use go_libp2p_peerstore.Ds.Gc.Settled.{
  BatchLaws, IsSettling, batch_write-IsSettling, batch_write-reads,
}
use mathlib.Core.Option.{some-injective}
use go_libp2p_peerstore.Ds.Gc.Keep.{Represents-flushed, flush_batch-IsSettling}

module _ {C D K A B : Type 0} (cache : Cache C Bytes ℕ) (st : AddrStore D K A) (gs : GcStore D K)
    (bt : Batching D B (StoreOp K)) (sort : List (AddrEntry A) → List (AddrEntry A))
    (held : B → List (StoreOp K)) (laws : StoreLaws st) (cache_laws : CacheLaws cache)
    (batch_laws : BatchLaws st bt held) (sort_laws : SortLaws sort) where
  -- In a cycle: the book stands for the map, with what the datastore holds now, which is what the cycle
  -- reads, and with what it holds once the batch is committed.
  pub record IsCycling (now : ℤ) (s : SpecBook A) (pu : Purge C D A B) : Type 0 where
    pub after : D
    pub settling : IsSettling st bt held batch_laws cache gs sort after pu
    pub represents : Represents cache st now s (record pu.book { ds = after })
    pub reading : Represents cache st now s pu.book

  Represents-unseen :
      (now : ℤ) (s : SpecBook A) (b : DsAddrBook C D A) (d : D)
      → ((q : Bytes) → st.get (addr_key st q) d ≡ st.get (addr_key st q) b.ds)
      → Represents cache st now s b
      → Represents cache st now s (record b { ds = d })
  Represents-unseen now s b d same rep = record {
    cached = rep.cached;
    on_disk = λ q v g. ap (live_entries v) (disk-same st q d b.ds (same q)) ∙ rep.on_disk q v g;
    stored = λ q v e. rep.stored q v (sym (same q) ∙ e);
    subs = rep.subs;
  }

  -- The operation is on a key that is no peer's.
  abbrev pub IsUnseen : StoreOp K → Type 0
  IsUnseen (put_op k v) = (q : Bytes) → k ≢ addr_key st q
  IsUnseen (delete_op k) = (q : Bytes) → k ≢ addr_key st q

  write_store-unseen :
      (op : StoreOp K) (d : D) (q : Bytes)
      → IsUnseen op
      → st.get (addr_key st q) (write_store st op d).1 ≡ st.get (addr_key st q) d
  unfolding write_store
  write_store-unseen (put_op k v) d q h =
      laws.get_put_other (addr_key st q) k v d (λ e. h q (sym e))
  write_store-unseen (delete_op k) d q h =
      laws.get_delete_other (addr_key st q) k d (λ e. h q (sym e))

  -- What is read after a write stands for the map, since both what was read before and what is had once the
  -- batch is committed do.
  reading_after :
      (now : ℤ) (s : SpecBook A) (op : StoreOp K) (pu : Purge C D A B)
      → IsCycling now s pu
      → Represents cache st now s (batch_write cache st gs bt sort op pu).1.book
  unfolding batch_write
  reading_after now s op pu cyc =
      elim (batch_write-reads st bt held batch_laws cache gs sort op cyc.after pu cyc.settling) [
        | inl same ↦
            subst (λ x. Represents cache st now s (record pu.book { ds = x })) (sym same)
              cyc.reading
        | inr done ↦
            subst (λ x. Represents cache st now s (record pu.book { ds = x })) (sym done)
              cyc.represents
      ]

  pub batch_write-IsCycling :
      (now : ℤ) (s : SpecBook A) (op : StoreOp K) (pu : Purge C D A B)
      → IsUnseen op
      → IsCycling now s pu
      → IsCycling now s (batch_write cache st gs bt sort op pu).1
  unfolding batch_write
  batch_write-IsCycling now s op pu unseen cyc = record {
    after = (write_store st op cyc.after).1;
    settling =
        (batch_write-IsSettling st bt held batch_laws cache gs sort op cyc.after pu cyc.settling).1;
    represents =
        Represents-unseen now s (record pu.book { ds = cyc.after }) _
          (λ q. write_store-unseen op cyc.after q unseen) cyc.represents;
    reading = reading_after now s op pu cyc;
  }

  unmarked :
      (r : AddrsRecord A) → r.dirty ≡ false → (good : Bool) → (if good then flushed r else r) ≡ r
  unfolding flushed
  unmarked r h false = refl
  unmarked r h true = ap (λ x. record r { dirty = x }) (sym h)

  -- A flush to the batch of a record that has the live entries of its peer.
  flush_batch-IsCycling :
      (now : ℤ) (s : SpecBook A) (p : Bytes) (r : AddrsRecord A) (pu : Purge C D A B)
      → IsWritten p r
      → SameLive now r.addrs (s.entries p)
      → IsCycling now s pu
      → IsCycling now s (flush_batch cache st gs bt sort r pu).1
        × ((flush_batch cache st gs bt sort r pu).0 ≡ r)
  unfolding flush_batch batch_write flushed
  flush_batch-IsCycling now s p r pu w same cyc = elim (Option-cases (flush_write st r)) [
    | inl fails ↦ rw (flush_batch, fails) (cyc, refl)
    | inr (op, writes) ↦
        let (settling', same_book) =
          flush_batch-IsSettling cache st gs bt sort held laws cache_laws batch_laws sort_laws r
            cyc.after pu cyc.settling in
        (
          record {
            after = (flush st r cyc.after).1.1;
            settling = settling';
            represents =
                subst (Represents cache st now s) (sym (same_book (flush st r cyc.after).1.1)) (
                  Represents-flushed cache st laws cache_laws now p r s
                    (record pu.book { ds = cyc.after }) cyc.represents w.peer w.sorted same);
            reading = rw (flush_batch, writes) (reading_after now s op pu cyc);
          },
          rw (flush_batch, writes)
              (unmarked r w.not_dirty (batch_write cache st gs bt sort op pu).0),
        )
  ]

  pub trimmed-IsWritten :
      (c : ℤ) (p : Bytes) (r : AddrsRecord A) → IsWritten p r → IsWritten p (clean sort c r).0
  trimmed-IsWritten c p r w =
      let trimmed = clean-IsWritten sort c p r w in
      record {
        peer = ap (λ x. x.id) trimmed;
        not_dirty = ap (λ x. x.dirty) trimmed;
        sorted =
            subst (λ x. IsSorted x.addrs) (sym trimmed) (live_entries-IsSorted c r.addrs w.sorted);
      }

  -- To clean a record, and to flush it where it changed.
  pub clean_batch-IsCycling :
      (now c : ℤ) (s : SpecBook A) (p : Bytes) (r : AddrsRecord A) (pu : Purge C D A B)
      → c ≤ℤ now
      → IsWritten p r
      → SameLive now r.addrs (s.entries p)
      → IsCycling now s pu
      → IsCycling now s (clean_batch cache st gs bt sort c r pu).1
        × ((clean_batch cache st gs bt sort c r pu).0 ≡ (clean sort c r).0)
        × SameLive now (clean sort c r).0.addrs (s.entries p)
        × ((x : D)
            → record (clean_batch cache st gs bt sort c r pu).1.book { ds = x }
              ≡ record pu.book { ds = x })
  unfolding clean_batch
  clean_batch-IsCycling now c s p r pu le w same cyc =
      let w' = trimmed-IsWritten c p r w in
      let same' : SameLive now (clean sort c r).0.addrs (s.entries p) = λ v g.
        ap (λ x. live_entries v x.addrs) (clean-IsWritten sort c p r w)
        ∙ live_entries-live_entries c v r.addrs (omega arith)
        ∙ same v g in
      elim (Bool-cases (clean sort c r).1) [
        | inr kept ↦ rw (clean_batch, kept) (cyc, refl, same', λ x. refl)
        | inl changed ↦
            let (cyc', this) = flush_batch-IsCycling now s p (clean sort c r).0 pu w' same' cyc in
            let (settling', same_book) =
              flush_batch-IsSettling cache st gs bt sort held laws cache_laws batch_laws sort_laws
                (clean sort c r).0 cyc.after pu cyc.settling in
            rw (clean_batch, changed) (cyc', this, same', same_book)
      ]

  -- A cached record is changed where it is.
  pub set_cell-IsCycling :
      (now : ℤ) (s : SpecBook A) (p : Bytes) (ptr : ℕ) (old new : Cell A) (pu : Purge C D A B)
      → cache.peek p pu.book.cache ≡ some ptr
      → get_elem? pu.book.heap ptr ≡ some old
      → old.value.id ≡ p
      → IsWritten p new.value
      → SameLive now new.value.addrs (s.entries p)
      → (new.is_nil ≡ true → new.value.addrs ≡ [])
      → IsCycling now s pu
      → IsCycling now s (record pu { book = record pu.book { heap = set pu.book.heap ptr new } })
  set_cell-IsCycling now s p ptr old new pu hit at own written same nil cyc =
      let cached =
        set-AreCached cache st now p ptr old new s.entries s.entries pu.book.cache pu.book.heap
          cyc.reading.cached (λ other g. some-injective other ptr (sym g ∙ hit)) at own written same
          nil (λ q n. refl) in
      record {
        after = cyc.after;
        settling = cyc.settling;
        represents = record {
          cached = cached;
          on_disk = cyc.represents.on_disk;
          stored = cyc.represents.stored;
          subs = cyc.represents.subs;
        };
        reading = record {
          cached = cached;
          on_disk = cyc.reading.on_disk;
          stored = cyc.reading.stored;
          subs = cyc.reading.subs;
        };
      }
