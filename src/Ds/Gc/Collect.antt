-- ===== src/Ds/Gc/Collect.antt =====
-- `purgeStore`: what a whole cycle keeps, and what it removes.
use go_libp2p_peerstore.Prelude.{
  ℕ, false, List, [], ◌∷◌, some, Bytes, bytes_eq, int_eq, ℤ, ◌≤ℤ◌, ◌≡◌, ◌≢◌, ◌⊎◌, refl, sym, ap,
  ◌∙◌, ◌==◌, ==_iff, arith, inl, inr, Bool-cases, All,
}
use mathlib.Core.Path.{subst}
use go_libp2p_peerstore.Mem.Metadata.{value}
use go_libp2p_peerstore.Ds.Cache.{Cache}
use go_libp2p_peerstore.Ds.Record.{AddrEntry}
use go_libp2p_peerstore.Ds.Store.{AddrStore, StoreOp, addr_key}
use go_libp2p_peerstore.Ds.Batch.{Batching}
use go_libp2p_peerstore.Ds.Gc.{GcStore, Purge, commit_batch}
use go_libp2p_peerstore.Ds.Gc.{purge_entry, purge_entries, purge_store, GcBook}
use go_libp2p_peerstore.Ds.Gc.Settled.{
  BatchLaws, IsSettling, commit_batch-IsSettling, new_cyclic_batch-IsSettling,
}
use go_libp2p_peerstore.Ds.Book.Laws.{CacheLaws, StoreLaws}
use go_libp2p_peerstore.Ds.Book.Spec.{SpecBook}
use go_libp2p_peerstore.Ds.Book.Flush.{disk, disk-same}
use go_libp2p_peerstore.Ds.Book.Represents.{Represents, Represents-later}
use go_libp2p_peerstore.Ds.Record.Clean.{SortLaws, live_entries}
use go_libp2p_peerstore.Ds.Gc.Keep.{purge_entry-IsPurged}

module _ {C D K A B : Type 0} (cache : Cache C Bytes ℕ) (st : AddrStore D K A) (gs : GcStore D K)
    (bt : Batching D B (StoreOp K)) (sort : List (AddrEntry A) → List (AddrEntry A))
    (held : B → List (StoreOp K)) (laws : StoreLaws st) (cache_laws : CacheLaws cache)
    (batch_laws : BatchLaws st bt held) (sort_laws : SortLaws sort) where
  module _ (clean_at : K → ℤ) where
    -- The results of the query: each is the record that the datastore has for a peer, and no peer is
    -- listed twice.
    abbrev pub AreRecords : D → List (K × Bytes) → Type 0
    AreRecords d [] = Unit
    AreRecords d ((key, v) ∷ rs) =
        (p : Bytes) × (key ≡ addr_key st p)
        × (st.get (addr_key st p) d ≡ value v)
        × All (λ e. e.0 ≢ key) rs
        × AreRecords d rs

    AreRecords-later :
        (d d' : D) (key : K) (p : Bytes) (rs : List (K × Bytes))
        → key ≡ addr_key st p
        → All (λ e. e.0 ≢ key) rs
        → ((q : Bytes) → p ≢ q → st.get (addr_key st q) d' ≡ st.get (addr_key st q) d)
        → AreRecords d rs
        → AreRecords d' rs
    AreRecords-later d d' key p [] own apart same h = tt
    AreRecords-later d d' key p ((k, v) ∷ rs) own apart same (q, own', bytes, distinct, rest) =
        let other : p ≢ q = λ e. apart.0 (own' ∙ ap (addr_key st) (sym e) ∙ sym own) in
        (
          q,
          own',
          same q other ∙ bytes,
          distinct,
          AreRecords-later d d' key p rs own apart.1 same rest,
        )

    -- What the purge of the results does.
    record ArePurged (now : ℤ) (rs : List (K × Bytes)) (d : D) (s : SpecBook A)
        (out : Purge C D A B) : Type 0 where
      pub after : D
      pub settling : IsSettling st bt held batch_laws cache gs sort after out
      pub represents : Represents cache st now s (record out.book { ds = after })
      pub collected :
          (q : Bytes)
          → All (λ e. e.0 ≢ addr_key st q) rs
            ⊎ (disk st q after ≡ live_entries (clean_at (addr_key st q)) (disk st q d))
      pub others :
          (q : Bytes)
          → All (λ e. e.0 ≢ addr_key st q) rs
          → st.get (addr_key st q) after ≡ st.get (addr_key st q) d

    purge_entries-ArePurged :
        (now : ℤ) (rs : List (K × Bytes)) (d : D) (s : SpecBook A) (pu : Purge C D A B)
        → All (λ e. clean_at e.0 ≤ℤ now) rs
        → IsSettling st bt held batch_laws cache gs sort d pu
        → Represents cache st now s (record pu.book { ds = d })
        → AreRecords d rs
        → ArePurged now rs d s (purge_entries cache st gs bt sort clean_at rs pu)
    unfolding purge_entries
    purge_entries-ArePurged now [] d s pu le settling rep h = record {
      after = d;
      settling = settling;
      represents = rep;
      collected = λ q. inl tt;
      others = λ q n. refl;
    }
    purge_entries-ArePurged now ((key, v) ∷ rs) d s pu le settling rep
          (p, own, bytes, distinct, rest) =
        let one =
          purge_entry-IsPurged cache st gs bt sort held laws cache_laws batch_laws sort_laws
            clean_at now key p v d s pu le.0 settling rep bytes in
        let pu' = purge_entry cache st gs bt sort clean_at key v pu in
        let all =
          purge_entries-ArePurged now rs one.after s pu' le.1 one.settling one.represents
            (AreRecords-later d one.after key p rs own distinct one.others rest) in
        record {
          after = all.after;
          settling = all.settling;
          represents = all.represents;
          collected = λ q. elim (Bool-cases (p == q)) [
            | inl own_peer ↦
                let e : p ≡ q = (==_iff p q).0 own_peer in
                inr (
                  subst
                    (λ x.
                      disk st x all.after ≡ live_entries (clean_at (addr_key st x)) (disk st x d))
                    e
                    (disk-same st p all.after one.after
                        (all.others p (subst (λ k. All (λ x. x.0 ≢ k) rs) own distinct))
                      ∙ subst (λ k. disk st p one.after ≡ live_entries (clean_at k) (disk st p d))
                          own one.collected))
            | inr other_peer ↦
                let apart : p ≢ q = λ e. ground (arith, ==_iff p q) in
                elim (all.collected q) [
                  | inl unlisted ↦ inl (λ e. apart (laws.same_key p q (sym own ∙ e)), unlisted)
                  | inr live ↦ inr (
                      live
                      ∙ ap (live_entries (clean_at (addr_key st q)))
                          (disk-same st q one.after d (one.others q apart)))
                ]
          ];
          others = λ q n. all.others q n.1 ∙ one.others q (λ e. n.0 (own ∙ ap (addr_key st) e));
        }

    -- Where no other cycle runs and the query succeeds, a purge of the store changes nothing that can be
    -- seen: the book stands for the same map. And each peer that the query lists has only those entries
    -- left in the datastore that had not expired when its record was cleaned.
    pub purge_store-Represents :
        (t now : ℤ) (s : SpecBook A) (g : GcBook C D A) (rs : List (K × Bytes))
        → t ≤ℤ now
        → Represents cache st t s g.book
        → gs.query_records g.book.ds ≡ some rs
        → AreRecords g.book.ds rs
        → All (λ e. clean_at e.0 ≤ℤ now) rs
        → g.running ≡ false
        → (g' : GcBook C D A) × (purge_store cache st gs bt sort clean_at g ≡ some g')
          × Represents cache st now s g'.book
          × ((q : Bytes)
              → All (λ e. e.0 ≢ addr_key st q) rs
                ⊎ (disk st q g'.book.ds
                    ≡ live_entries (clean_at (addr_key st q)) (disk st q g.book.ds)))
    unfolding purge_store
    purge_store-Represents t now s g rs later rep listed records le idle =
        let (cb, made, fresh) =
          new_cyclic_batch-IsSettling st bt held batch_laws cache gs sort g.book in
        let rep' = Represents-later cache st t now s s g.book later (λ q v h. refl) refl rep in
        let pu =
          purge_entries cache st gs bt sort clean_at rs (record { book = g.book; batch = cb }) in
        let all =
          purge_entries-ArePurged now rs g.book.ds s (record { book = g.book; batch = cb }) le fresh
            rep' records in
        let done =
          commit_batch-IsSettling st bt held batch_laws cache gs sort all.after pu all.settling in
        (
          record g { book = commit_batch cache st gs bt sort pu },
          rw (purge_store, idle, listed, made)
              (ap (λ x. some (record g { book = commit_batch cache st gs bt sort pu; running = x }))
                idle),
          subst (Represents cache st now s) (sym done) all.represents,
          rw done all.collected,
        )
