-- ===== src/Ds/Batch/Order.antt =====
-- What reaches the datastore through a `cyclicBatch`, and when.
use mathlib.Core.List.{append_assoc, append-nil}
use mathlib.Core.Option.{some-injective}
use go_libp2p_peerstore.Prelude.{
  ℕ, true, List, [], ◌∷◌, ◌++◌, none, some, ◌≡◌, refl, sym, ap, ◌∙◌, ltb, arith, Bool-cases,
  Option-cases, inl, inr,
}
use go_libp2p_peerstore.Ds.Batch
use go_libp2p_peerstore.Ds.Batch.{
  Batching, CyclicBatch, BatchError, closed, new_cyclic_batch, renew, cycle, write_current,
  write_each,
}

-- A new batch is empty, a write adds its operation, and a commit applies the batch in order: `held` is
-- what a batch holds, `applied` the operations that the datastore has applied.
pub record Keeps {D B Op : Type 0} (ds : Batching D B Op) (held : B → List Op)
    (applied : D → List Op) : Type 0 where
  pub held-batch : (d : D) (b : B) → ds.batch d ≡ some b → held b ≡ []
  pub held-write :
      (op : Op) (b : B) → (ds.write op b).0 ≡ true → held (ds.write op b).1 ≡ held b ++ op ∷ []
  pub applied-commit :
      (b : B) (d : D) → (ds.commit b d).0 ≡ true → applied (ds.commit b d).1 ≡ applied d ++ held b

module _ {D B Op : Type 0} (ds : Batching D B Op) (held : B → List Op) (applied : D → List Op)
    (laws : Keeps ds held applied) where
  -- The operations in the current batch; a closed one has none.
  unfoldable pub waiting : CyclicBatch B → List Op
  waiting cb = elim cb.current [ none ↦ [] | some b ↦ held b ]

  waiting_some : (cb : CyclicBatch B) (b : B) → cb.current ≡ some b → waiting cb ≡ held b
  unfolding waiting
  waiting_some cb b some_b = rw (waiting, some_b) refl

  renew-applied :
      (cb : CyclicBatch B) (b : B) (d : D)
      → cb.current ≡ some b
      → (renew ds cb b d).0 ≡ none
      → (b' : B) × ((renew ds cb b d).1.0.current ≡ some b')
        × (held b' ≡ [])
        × (applied (renew ds cb b d).1.1 ≡ applied d ++ held b)
        × ((renew ds cb b d).1.0.threshold ≡ cb.threshold)
  unfolding renew
  renew-applied cb b d some_b ok = elim (Bool-cases (ds.commit b d).0) [
    | inr bad ↦ absurd (ground arith)
    | inl good ↦ elim (Option-cases (ds.batch (ds.commit b d).1)) [
      | inl missing ↦ absurd (ground arith)
      | inr (b', made) ↦ (
        b',
        rw (renew, good, made) refl,
        laws.held-batch (ds.commit b d).1 b' made,
        rw (renew, good) (laws.applied-commit b d good),
        rw (renew, good) refl,
      )
    ]
  ]

  cycle-applied :
      (cb : CyclicBatch B) (b : B) (d : D)
      → cb.current ≡ some b
      → (cycle ds cb d).0 ≡ none
      → (b' : B) × ((cycle ds cb d).1.0.current ≡ some b')
        × (applied (cycle ds cb d).1.1 ++ held b' ≡ applied d ++ held b)
        × ((cycle ds cb d).1.0.threshold ≡ cb.threshold)
        × (cb.threshold ≡ 0 → held b' ≡ [])
  unfolding cycle
  cycle-applied cb b d some_b ok = elim (Bool-cases (ltb cb.pending cb.threshold)) [
    | inl few ↦ (
      b,
      rw (cycle, some_b, few) some_b,
      rw (cycle, some_b, few) refl,
      rw (cycle, some_b, few) refl,
      λ z. absurd (ground arith),
    )
    | inr many ↦
        let (b', e, empty, all, same) =
          renew-applied cb b d some_b (rw (cycle, some_b, many) at ok) in
        (
          b',
          rw (cycle, some_b, many) e,
          rw (cycle, some_b, many)
              (ap (◌++◌ (applied (renew ds cb b d).1.1)) empty ∙ append-nil _ ∙ all),
          rw (cycle, some_b, many) same,
          λ z. empty,
        )
  ]

  cycle_closed : (cb : CyclicBatch B) (d : D) → cb.current ≡ none → (cycle ds cb d).0 ≡ none → ⊥
  unfolding cycle
  cycle_closed cb d none_left ok = ground arith

  -- A write that returns no error is a cycle without an error and a write of the batch.
  write_passes :
      (op : Op) (cb : CyclicBatch B) (d : D)
      → (Batch.write ds op cb d).0 ≡ none
      → ((cycle ds cb d).0 ≡ none)
        × (Batch.write ds op cb d ≡ write_current ds op (cycle ds cb d).1.0 (cycle ds cb d).1.1)
  unfolding Batch.write
  write_passes op cb d ok = elim (Option-cases (cycle ds cb d).0) [
    | inl good ↦ (good, rw (Batch.write, good) refl)
    | inr (e, bad) ↦ absurd (ground arith)
  ]

  write_current-applied :
      (op : Op) (cb : CyclicBatch B) (b : B) (d : D)
      → cb.current ≡ some b
      → (write_current ds op cb d).0 ≡ none
      → ((write_current ds op cb d).1.1 ≡ d)
        × (waiting (write_current ds op cb d).1.0 ≡ held b ++ op ∷ [])
        × ((write_current ds op cb d).1.0.threshold ≡ cb.threshold)
  unfolding write_current waiting
  write_current-applied op cb b d some_b ok = elim (Bool-cases (ds.write op b).0) [
    | inl good ↦ (
      rw (write_current, some_b) refl,
      rw (write_current, some_b) (laws.held-write op b good),
      rw (write_current, some_b) refl,
    )
    | inr bad ↦ absurd (ground arith)
  ]

  write-applied :
      (op : Op) (cb : CyclicBatch B) (d : D)
      → (Batch.write ds op cb d).0 ≡ none
      → (applied (Batch.write ds op cb d).1.1 ++ waiting (Batch.write ds op cb d).1.0
          ≡ applied d ++ waiting cb ++ op ∷ [])
        × ((Batch.write ds op cb d).1.0.threshold ≡ cb.threshold)
        × (cb.threshold ≡ 0 → applied (Batch.write ds op cb d).1.1 ≡ applied d ++ waiting cb)
  write-applied op cb d ok =
      let (good, w) = write_passes op cb d ok in
      elim (Option-cases cb.current) [
        | inl none_left ↦ absurd (cycle_closed cb d none_left good)
        | inr (b, some_b) ↦
            let (b', e, all, same, empty) = cycle-applied cb b d some_b good in
            let c = cycle ds cb d in
            let ok' : (write_current ds op c.1.0 c.1.1).0 ≡ none = sym (ap (λ x. x.0) w) ∙ ok in
            let (still, wait, same') = write_current-applied op c.1.0 b' c.1.1 e ok' in
            let here = waiting_some cb b some_b in
            rw w (
              ap (λ x. applied x ++ waiting (write_current ds op c.1.0 c.1.1).1.0) still
                  ∙ ap (◌++◌ (applied c.1.1)) wait
                  ∙ sym (append_assoc (applied c.1.1) (held b') (op ∷ []))
                  ∙ ap (λ xs. xs ++ op ∷ []) (all ∙ ap (◌++◌ (applied d)) (sym here)),
              same' ∙ same,
              λ z.
                  ap applied still
                  ∙ sym (append-nil (applied c.1.1))
                  ∙ sym (ap (◌++◌ (applied c.1.1)) (empty z))
                  ∙ all
                  ∙ ap (◌++◌ (applied d)) (sym here),
            )
      ]

  write_each-applied :
      (ops : List Op) (cb : CyclicBatch B) (d : D)
      → (write_each ds ops cb d).0 ≡ none
      → (applied (write_each ds ops cb d).1.1 ++ waiting (write_each ds ops cb d).1.0
          ≡ applied d ++ waiting cb ++ ops)
        × ((write_each ds ops cb d).1.0.threshold ≡ cb.threshold)
  unfolding write_each
  write_each-applied [] cb d ok = (sym (append-nil (applied d ++ waiting cb)), refl)
  write_each-applied (op ∷ ops) cb d ok = elim (Option-cases (Batch.write ds op cb d).0) [
    | inr (e, bad) ↦ absurd (ground arith)
    | inl good ↦
        let s = (Batch.write ds op cb d).1 in
        let (one, same, each) = write-applied op cb d good in
        let (all, same') = write_each-applied ops s.0 s.1 (rw (write_each, good) at ok) in
        rw (write_each, good)
          (
            all ∙ ap (λ xs. xs ++ ops) one ∙ append_assoc (applied d ++ waiting cb) (op ∷ []) ops,
            same' ∙ same,
          )
  ]

  -- When the writes of a list of operations and the following `Commit` return no error, the datastore has
  -- applied what the batch held before and then the operations, in their order, and the batch is
  -- closed, whatever the threshold.
  pub commit-write_each :
      (ops : List Op) (cb cb' : CyclicBatch B) (d d' : D)
      → write_each ds ops cb d ≡ (none, (cb', d'))
      → (Batch.commit ds cb' d').0 ≡ none
      → (applied (Batch.commit ds cb' d').1.1 ≡ applied d ++ waiting cb ++ ops)
        × ((Batch.commit ds cb' d').1.0.current ≡ none)
  unfolding Batch.commit
  commit-write_each ops cb cb' d d' e ok =
      let (all, same) = write_each-applied ops cb d (ap (λ x. x.0) e) in
      let all' : applied d' ++ waiting cb' ≡ applied d ++ waiting cb ++ ops =
        sym (ap (λ x. applied x.1.1 ++ waiting x.1.0) e) ∙ all in
      elim (Option-cases cb'.current) [
        | inl none_left ↦ absurd (ground arith)
        | inr (b, some_b) ↦ elim (Bool-cases (ds.commit b d').0) [
          | inr bad ↦ absurd (ground arith)
          | inl good ↦
              let here = waiting_some cb' b some_b in
              rw (Batch.commit, some_b, good)
                (laws.applied-commit b d' good ∙ ap (◌++◌ (applied d')) (sym here) ∙ all', refl)
        ]
      ]

  -- A batch made for any threshold commits before every write: once operations and then one more are
  -- written without an error, the datastore has applied all but the last.
  pub write-commits_each :
      (threshold : ℕ) (ops : List Op) (op : Op) (cb cb' : CyclicBatch B) (d d' : D)
      → new_cyclic_batch ds d threshold ≡ some cb
      → write_each ds ops cb d ≡ (none, (cb', d'))
      → (Batch.write ds op cb' d').0 ≡ none
      → applied (Batch.write ds op cb' d').1.1 ≡ applied d ++ ops
  unfolding new_cyclic_batch
  write-commits_each threshold ops op cb cb' d d' made e ok = elim (Option-cases (ds.batch d)) [
    | inl missing ↦ absurd (ground arith)
    | inr (b, fresh) ↦
        let which : record { threshold = 0; current = some b; pending = 0 } ≡ cb =
          some-injective _ _ (rw (new_cyclic_batch, fresh) at made) in
        let (all, same) = write_each-applied ops cb d (ap (λ x. x.0) e) in
        let (one, same', each) = write-applied op cb' d' ok in
        let zero_threshold : cb'.threshold ≡ 0 =
          sym (ap (λ x. x.1.0.threshold) e) ∙ same ∙ sym (ap (λ x. x.threshold) which) in
        let empty : waiting cb ≡ [] =
          waiting_some cb b (sym (ap (λ x. x.current) which)) ∙ laws.held-batch d b fresh in
        each zero_threshold
        ∙ sym (ap (λ x. applied x.1.1 ++ waiting x.1.0) e)
        ∙ all
        ∙ ap (λ xs. applied d ++ xs ++ ops) empty
        ∙ ap (λ xs. xs ++ ops) (append-nil (applied d))
  ]
