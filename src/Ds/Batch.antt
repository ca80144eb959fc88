-- ===== src/Ds/Batch.antt =====
-- pstoreds/cyclic_batch.go: `cyclicBatch`. The datastore `D` and its batches `B` are another
-- package's (go-datastore) and are parameters; an operation `Op` is a put or a delete with its arguments.
pub mod Order
mod Tests
use go_libp2p_peerstore.Prelude.{
  ℕ, ◌+◌, Bool, true, false, List, [], ◌∷◌, ◌++◌, Option, none, some, ◌≡◌, if◌then◌else◌, ltb,
}

-- What the code uses of the datastore. A Boolean tells that the error is nil.
pub record Batching (D B Op : Type 0) : Type 0 where
  pub batch : D → Option B
  pub write : Op → B → Bool × B
  pub commit : B → D → Bool × D

pub data BatchError : Type 0 where
  closed : BatchError
  not_committed : BatchError
  not_renewed : BatchError
  not_written : BatchError

-- A nil `Batch` is `none`.
pub record CyclicBatch (B : Type 0) : Type 0 where
  pub threshold : ℕ
  pub current : Option B
  pub pending : ℕ

module _ {D B Op : Type 0} (ds : Batching D B Op) where
  -- `newCyclicBatch`: the threshold that it is given is not used, and stays 0.
  unfoldable pub new_cyclic_batch : D → ℕ → Option (CyclicBatch B)
  new_cyclic_batch d threshold = elim (ds.batch d) [
    | none ↦ none
    | some b ↦ some (record { threshold = 0; current = some b; pending = 0 })
  ]

  -- `cycle`, on a batch that is not nil. `pending` stays as it is.
  unfoldable pub renew : CyclicBatch B → B → D → Option BatchError × (CyclicBatch B × D)
  renew cb b d =
      let (good, d') = ds.commit b d in
      let next = ds.batch d' in
      let renewed : Option BatchError = elim next [ none ↦ some not_renewed | some b' ↦ none ] in
      if good then (renewed, (record cb { current = next }, d')) else (some not_committed, (cb, d'))

  unfoldable pub cycle : CyclicBatch B → D → Option BatchError × (CyclicBatch B × D)
  cycle cb d = elim cb.current [
    | none ↦ (some closed, (cb, d))
    | some b ↦ if ltb cb.pending cb.threshold then (none, (cb, d)) else renew cb b d
  ]

  -- `Put` and `Delete` behind their call of `cycle`. A nil batch would be a nil dereference; `cycle`
  -- leaves none where it returns no error.
  unfoldable pub write_current : Op → CyclicBatch B → D → Option BatchError × (CyclicBatch B × D)
  write_current op cb d = elim cb.current [
    | none ↦ (some closed, (cb, d))
    | some b ↦
        let (good, b') = ds.write op b in
        (
          if good then none else some not_written,
          (record cb { current = some b'; pending = cb.pending + 1 }, d),
        )
  ]

  -- `Put` and `Delete`
  unfoldable pub write : Op → CyclicBatch B → D → Option BatchError × (CyclicBatch B × D)
  write op cb d =
      let (error, s) = cycle cb d in
      elim error [ none ↦ write_current op s.0 s.1 | some e ↦ (some e, s) ]

  -- `Commit`
  unfoldable pub commit : CyclicBatch B → D → Option BatchError × (CyclicBatch B × D)
  commit cb d = elim cb.current [
    | none ↦ (some closed, (cb, d))
    | some b ↦
        let (good, d') = ds.commit b d in
        if good
        then (none, (record cb { current = none; pending = 0 }, d'))
        else (some not_committed, (cb, d'))
  ]

  -- Writes one after the other, up to the first error.
  unfoldable pub write_each : List Op → CyclicBatch B → D → Option BatchError × (CyclicBatch B × D)
  write_each [] cb d = (none, (cb, d))
  write_each (op ∷ ops) cb d =
      let (error, s) = write op cb d in
      let rest = write_each ops s.0 s.1 in elim error [ none ↦ rest | some e ↦ (some e, s) ]
