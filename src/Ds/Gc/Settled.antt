-- ===== src/Ds/Gc/Settled.antt =====
-- What a cycle's batch comes to when it is committed.
use go_libp2p_peerstore.Prelude.{
  ℕ, true, List, [], ◌∷◌, ◌⊎◌, ◌++◌, none, some, Bytes, bytes_eq, int_eq, ◌≡◌, refl, ap, ◌∙◌, inl,
  inr, Bool-cases,
}
use go_libp2p_peerstore.Prelude.{ltb}
use go_libp2p_peerstore.Ds.Cache.{Cache}
use go_libp2p_peerstore.Ds.Record.{AddrEntry}
use go_libp2p_peerstore.Ds.Store.{AddrStore, StoreOp}
use go_libp2p_peerstore.Ds.Book.{DsAddrBook}
use go_libp2p_peerstore.Ds.Batch
use go_libp2p_peerstore.Ds.Batch.{Batching, CyclicBatch, BatchError, new_cyclic_batch, commit}
use go_libp2p_peerstore.Ds.Store.{write_store}
use go_libp2p_peerstore.Ds.Batch.{renew, cycle, write_current}
use go_libp2p_peerstore.Ds.Gc.{GcStore, Purge, batch_write, commit_batch, default_ops}

module _ {D K A : Type 0} (st : AddrStore D K A) where
  -- The writes one after the other.
  unfoldable pub apply_ops : List (StoreOp K) → D → D
  apply_ops [] d = d
  apply_ops (op ∷ ops) d = apply_ops ops (write_store st op d).1

  apply_ops-snoc :
      (ops : List (StoreOp K)) (op : StoreOp K) (d : D)
      → apply_ops (ops ++ op ∷ []) d ≡ (write_store st op (apply_ops ops d)).1
  unfolding apply_ops
  apply_ops-snoc [] op d = refl
  apply_ops-snoc (o ∷ ops) op d = apply_ops-snoc ops op (write_store st o d).1

-- A datastore whose batches work: a new batch is empty, a write adds its operation, and a commit does the
-- operations that the batch holds, in their order.
pub record BatchLaws {D K A B : Type 0} (st : AddrStore D K A) (bt : Batching D B (StoreOp K))
    (held : B → List (StoreOp K)) : Type 0 where
  pub batch_works : (d : D) → (b : B) × (bt.batch d ≡ some b) × (held b ≡ [])
  pub write_works :
      (op : StoreOp K) (b : B)
      → ((bt.write op b).0 ≡ true) × (held (bt.write op b).1 ≡ held b ++ op ∷ [])
  pub commit_works :
      (b : B) (d : D) → ((bt.commit b d).0 ≡ true) × ((bt.commit b d).1 ≡ apply_ops st (held b) d)

module _ {D K A B : Type 0} (st : AddrStore D K A) (bt : Batching D B (StoreOp K))
    (held : B → List (StoreOp K)) (laws : BatchLaws st bt held) where
  write_current-settled :
      (op : StoreOp K) (cb : CyclicBatch B) (b : B) (d : D)
      → cb.current ≡ some b
      → ((write_current bt op cb d).0 ≡ none)
        × ((write_current bt op cb d).1.0.current ≡ some (bt.write op b).1)
        × ((write_current bt op cb d).1.1 ≡ d)
  unfolding write_current
  write_current-settled op cb b d h =
      rw (h, write_current, (laws.write_works op b).0) (refl, refl, refl)

  cycle-settled :
      (cb : CyclicBatch B) (b : B) (d : D)
      → cb.current ≡ some b
      → ((cycle bt cb d).0 ≡ none)
        × (b' : B) × ((cycle bt cb d).1.0.current ≡ some b')
        × (apply_ops st (held b') (cycle bt cb d).1.1 ≡ apply_ops st (held b) d)
  unfolding cycle renew apply_ops
  cycle-settled cb b d h = elim (Bool-cases (ltb cb.pending cb.threshold)) [
    | inl few ↦ rw (h, cycle, few) (refl, b, h, refl)
    | inr many ↦
        let (good, all) = laws.commit_works b d in
        let (b', made, empty) = laws.batch_works (bt.commit b d).1 in
        rw (h, cycle, many, renew, good, made) (refl, b', refl, rw empty all)
  ]

  write-settled :
      (op : StoreOp K) (cb : CyclicBatch B) (b : B) (d : D)
      → cb.current ≡ some b
      → ((Batch.write bt op cb d).0 ≡ none)
        × (b' : B) × ((Batch.write bt op cb d).1.0.current ≡ some b')
        × (apply_ops st (held b') (Batch.write bt op cb d).1.1
            ≡ (write_store st op (apply_ops st (held b) d)).1)
  unfolding Batch.write
  write-settled op cb b d h =
      let (fine, b1, is_open1, same1) = cycle-settled cb b d h in
      let s1 = (cycle bt cb d).1 in
      let (written, is_open2, same2) = write_current-settled op s1.0 b1 s1.1 is_open1 in
      rw (Batch.write, fine)
        (
          written,
          (bt.write op b1).1,
          is_open2,
          ap (λ x. apply_ops st (held (bt.write op b1).1) x) same2
              ∙ ap (λ ops. apply_ops st ops s1.1) (laws.write_works op b1).1
              ∙ apply_ops-snoc st (held b1) op s1.1
              ∙ ap (λ x. (write_store st op x).1) same1,
        )

  cycle-reads :
      (cb : CyclicBatch B) (b : B) (d : D)
      → cb.current ≡ some b
      → ((cycle bt cb d).1.1 ≡ d) ⊎ ((cycle bt cb d).1.1 ≡ apply_ops st (held b) d)
  unfolding cycle renew
  cycle-reads cb b d h = elim (Bool-cases (ltb cb.pending cb.threshold)) [
    | inl few ↦ rw (h, cycle, few) (inl refl)
    | inr many ↦
        let (good, all) = laws.commit_works b d in rw (h, cycle, many, renew, good) (inr all)
  ]

  write-reads :
      (op : StoreOp K) (cb : CyclicBatch B) (b : B) (d : D)
      → cb.current ≡ some b
      → (Batch.write bt op cb d).1.1 ≡ (cycle bt cb d).1.1
  unfolding Batch.write
  write-reads op cb b d h =
      let (fine, b1, is_open1, same1) = cycle-settled cb b d h in
      let s1 = (cycle bt cb d).1 in
      let (written, is_open2, same2) = write_current-settled op s1.0 b1 s1.1 is_open1 in
      rw (Batch.write, fine) same2

  module _ {C : Type 0} (cache : Cache C Bytes ℕ) (gs : GcStore D K)
      (sort : List (AddrEntry A) → List (AddrEntry A)) where
    -- The batch of the cycle is open, and the datastore is `d` once it is committed.
    abbrev pub IsSettling : D → Purge C D A B → Type 0
    IsSettling d s = (b : B) × (s.batch.current ≡ some b) × (apply_ops st (held b) s.book.ds ≡ d)

    -- A write to the batch is one to the datastore, once the batch is committed.
    pub batch_write-IsSettling :
        (op : StoreOp K) (d : D) (s : Purge C D A B)
        → IsSettling d s
        → ((batch_write cache st gs bt sort op s).0 ≡ true)
          × IsSettling (write_store st op d).1 (batch_write cache st gs bt sort op s).1
    unfolding batch_write
    batch_write-IsSettling op d s (b, is_open, same) =
        let (fine, b', is_open', same') = write-settled op s.batch b s.book.ds is_open in
        rw (batch_write, fine)
          (refl, (b', is_open', same' ∙ ap (λ x. (write_store st op x).1) same))

    -- What a cycle reads is the datastore as it was, or as it is once the batch is committed.
    pub batch_write-reads :
        (op : StoreOp K) (d : D) (s : Purge C D A B)
        → IsSettling d s
        → ((batch_write cache st gs bt sort op s).1.book.ds ≡ s.book.ds)
          ⊎ ((batch_write cache st gs bt sort op s).1.book.ds ≡ d)
    unfolding batch_write
    batch_write-reads op d s (b, is_open, same) =
        let passed = write-reads op s.batch b s.book.ds is_open in
        elim (cycle-reads s.batch b s.book.ds is_open) [
          | inl kept ↦ inl (passed ∙ kept)
          | inr done ↦ inr (passed ∙ done ∙ same)
        ]

    pub commit_batch-IsSettling :
        (d : D) (s : Purge C D A B)
        → IsSettling d s
        → commit_batch cache st gs bt sort s ≡ record s.book { ds = d }
    unfolding commit_batch commit
    commit_batch-IsSettling d s (b, is_open, same) =
        let (good, all) = laws.commit_works b s.book.ds in
        rw (commit_batch, commit, is_open, good) (ap (λ x. record s.book { ds = x }) (all ∙ same))

    pub new_cyclic_batch-IsSettling :
        (book : DsAddrBook C D A)
        → (cb : CyclicBatch B) × (new_cyclic_batch bt book.ds default_ops ≡ some cb)
          × IsSettling book.ds (record { book = book; batch = cb })
    unfolding new_cyclic_batch apply_ops
    new_cyclic_batch-IsSettling book =
        let (b, made, empty) = laws.batch_works book.ds in
        (
          record { threshold = 0; current = some b; pending = 0 },
          rw (new_cyclic_batch, made) refl,
          (b, refl, rw empty refl),
        )
