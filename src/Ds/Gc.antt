-- ===== src/Ds/Gc.antt =====
-- pstoreds/addr_book_gc.go: the collector of a `dsAddrBook`. A write goes to a cyclic batch, and its error
-- is only logged. `clean_at` gives the clock reading with which the record of an entry is cleaned.
-- `none` is a panic: a batch that could not be made is nil, and the first call of it panics, which is the
-- `Commit` at the end at the latest. The goroutine recovers from no panic, so that the process ends with it,
-- and the model does not say what was cleaned before.
pub mod Settled
pub mod Keep
pub mod Collect
pub mod Cycle
pub mod Visit
pub mod Populate
pub mod Window
pub mod Background
mod Tests
use go_libp2p_peerstore.Prelude.{
  ℕ, zero, suc, ◌+◌, ◌≤◌, ◌<◌, Bool, true, false, not, ◌&&◌, ◌||◌, List, [], ◌∷◌, ◌++◌, map, Option,
  none, some, Bytes, bytes_eq, int_eq, ℤ, ◌≤ℤ◌, ◌<ℤ◌, ◌+ℤ◌, +ℤ_parts, ltb_ℤ, leb_ℤ, pos, negsuc,
  ◌≡◌, ◌≢◌, ◌↔◌, ◌⊎◌, refl, sym, ap, ◌∙◌, ◌==◌, ==_iff, if◌then◌else◌, arith, inl, inr, Bool-cases,
  Option-cases, is_some, All, length,
}
use go_libp2p_peerstore.Prelude.Maps.{
  Map, lookup, insert, delete, lookup-insert, lookup-delete, IsMap, AllValues, contains, IsDistinct,
  keys, contains-keys, AllValues-lookup, AllValues-insert, AllValues-delete, insert-IsMap,
  delete-IsMap,
}
use mathlib.Core.Option
use mathlib.Core.Path.{subst}
use go_libp2p_peerstore.Prelude.{
  ◌-◌, take, drop, set, get_elem?, ltb, nat_beq, length-append, ==_refl, Comparable,
}
use go_libp2p_peerstore.Mem.Metadata.{GetResult, value, not_found, failed}
use go_libp2p_peerstore.Mem.SubManager.{AddrSubManager, AddrSub, broadcast_addr, add_sub}
use go_libp2p_peerstore.Ds.Cache.{Cache}
use go_libp2p_peerstore.Ds.Record.{
  AddrEntry, AddrsRecord, TtlWriteMode, ttl_override, ttl_extend, unix, WriteOp, put, remove,
  flush_op, flushed, clean_addrs, clean, update_record, set_record, delete_record,
}
use go_libp2p_peerstore.Ds.Store.{AddrStore, StoreOp, put_op, delete_op, addr_key, flush_write}
use go_libp2p_peerstore.Ds.Book.{Cell, DsAddrBook}
use go_libp2p_peerstore.Ds.Batch
use go_libp2p_peerstore.Ds.Batch.{Batching, CyclicBatch, BatchError, new_cyclic_batch, commit}

-- What the collector uses of the datastore's queries and keys, and of the coding of peers. A query gives
-- the results in the order of their keys. `id_from_bytes` also tells whether its error is nil.
pub record GcStore (D K : Type 0) : Type 0 where
  pub query_records : D → Option (List (K × Bytes))
  pub query_record_keys : D → Option (List K)
  pub query_visits : D → Option (List K)
  pub timestamp : K → Option ℤ
  pub name : K → Bytes
  pub decode32 : Bytes → Option Bytes
  pub id_from_bytes : Bytes → Bytes × Bool
  pub visit_key : ℤ → Bytes → K

-- `dsAddrBookGc` with its address book: whether a cycle is running, and the end of the window.
pub record GcBook (C D A : Type 0) : Type 0 where
  pub book : DsAddrBook C D A
  pub running : Bool
  pub curr_window_end : ℤ

-- The address book and the batch in a cycle.
pub record Purge (C D A B : Type 0) : Type 0 where
  pub book : DsAddrBook C D A
  pub batch : CyclicBatch B

-- `defaultOpsPerCyclicBatch`
abbrev pub default_ops : ℕ
default_ops = 20

module _ {A : Type 0} where
  -- `len(r.Addrs) != 0 && r.Addrs[0].Expiry <= end`, with that expiry
  unfoldable pub due_expiry : ℤ → List (AddrEntry A) → Option ℤ
  due_expiry end [] = none
  due_expiry end (e ∷ es) = if leb_ℤ e.expiry end then some e.expiry else none

module _ {C D K A B : Type 0} (cache : Cache C Bytes ℕ) (st : AddrStore D K A) (gs : GcStore D K)
    (bt : Batching D B (StoreOp K)) (sort : List (AddrEntry A) → List (AddrEntry A)) where
  -- `batch.Put` or `batch.Delete`, with whether the error is nil.
  unfoldable pub batch_write : StoreOp K → Purge C D A B → Bool × Purge C D A B
  batch_write op s =
      let (error, (cb, d)) = Batch.write bt op s.batch s.book.ds in
      (not (is_some error), record s { batch = cb; book = record s.book { ds = d } })

  -- `flush` to the batch
  unfoldable pub flush_batch : AddrsRecord A → Purge C D A B → AddrsRecord A × Purge C D A B
  flush_batch r s = elim (flush_write st r) [
    | none ↦ (r, s)
    | some op ↦ let (good, s') = batch_write op s in ((if good then flushed r else r), s')
  ]

  -- `if record.clean() { record.flush(batch) }`
  unfoldable pub clean_batch : ℤ → AddrsRecord A → Purge C D A B → AddrsRecord A × Purge C D A B
  clean_batch now r s =
      let (r', changed) = clean sort now r in
      let written = flush_batch r' s in if changed then written else (r', s)

  -- `dropInError`
  unfoldable pub drop_entry : K → Purge C D A B → Purge C D A B
  drop_entry key s = (batch_write (delete_op key) s).1

  -- `dropOrReschedule`
  unfoldable pub drop_or_reschedule : ℤ → K → AddrsRecord A → Purge C D A B → Purge C D A B
  drop_or_reschedule end key r s = elim (due_expiry end r.addrs) [
    | none ↦ drop_entry key s
    | some expiry ↦
        (batch_write (put_op (gs.visit_key expiry (gs.name key)) []) (drop_entry key s)).1
  ]

  module _ (clean_at : K → ℤ) where
    -- The entry of a record in the cache. It is cleaned and flushed where it is.
    unfoldable pub visit_cached : ℤ → K → ℕ → Cell A → Purge C D A B → Purge C D A B
    visit_cached end key ptr cell s =
        let (r, s') = clean_batch (clean_at key) cell.value s in
        drop_or_reschedule end key r (record s' {
          book = record s'.book { heap = set s'.book.heap ptr (record cell { value = r }) };
        })

    -- The entry of a record that is not in the cache.
    unfoldable pub visit_stored : ℤ → K → Purge C D A B → Purge C D A B
    visit_stored end key s =
        elim (st.get (st.child_string st.addr_book_base (gs.name key)) s.book.ds) [
          | not_found ↦ drop_entry key s
          | failed ↦ drop_entry key s
          | value v ↦ elim (st.unmarshal v) [
            | none ↦ drop_entry key s
            | some (id, es) ↦
                let (r, s') =
                  clean_batch (clean_at key) (record { id = id; addrs = es; dirty = false }) s in
                drop_or_reschedule end key r s'
          ]
        ]

    -- An entry of the look-ahead window that is due.
    unfoldable pub visit : ℤ → K → Purge C D A B → Purge C D A B
    visit end key s = elim (gs.decode32 (gs.name key)) [
      | none ↦ drop_entry key s
      | some raw ↦
          let (id, good) = gs.id_from_bytes raw in
          let found : Purge C D A B = elim (cache.peek id s.book.cache) [
            | none ↦ visit_stored end key s
            | some ptr ↦ elim (get_elem? s.book.heap ptr) [
              | none ↦ s
              | some cell ↦ visit_cached end key ptr cell s
            ]
          ] in
          if good then found else drop_entry key s
    ]

    -- The loop of `purgeLookahead`, up to the first entry with a time after `now`.
    unfoldable pub visit_due : ℤ → ℤ → List K → Purge C D A B → Purge C D A B
    visit_due now end [] s = s
    visit_due now end (key ∷ ks) s =
        let rest = visit_due now end ks in
        elim (gs.timestamp key) [
          | none ↦ rest (drop_entry key s)
          | some ts ↦ if ltb_ℤ now ts then s else rest (visit end key s)
        ]

    -- A result of the query of `purgeStore`.
    unfoldable pub purge_entry : K → Bytes → Purge C D A B → Purge C D A B
    purge_entry key v s = elim (st.unmarshal v) [
      | none ↦ s
      | some (id, es) ↦
          let read : AddrsRecord A = record { id = id; addrs = es; dirty = false } in
          let (r, changed) = clean sort (clean_at key) read in
          let (r', s') = flush_batch r s in
          if changed
          then record s' { book = record s'.book { cache = cache.remove id s'.book.cache } }
          else s
    ]

    unfoldable pub purge_entries : List (K × Bytes) → Purge C D A B → Purge C D A B
    purge_entries [] s = s
    purge_entries ((key, v) ∷ rs) s = purge_entries rs (purge_entry key v s)

  -- `batch.Commit()`, the last thing that a cycle does.
  unfoldable pub commit_batch : Purge C D A B → DsAddrBook C D A
  commit_batch s = record s.book { ds = (commit bt s.batch s.book.ds).1.1 }

  -- `purgeLookahead`
  unfoldable pub purge_lookahead : (K → ℤ) → ℤ → GcBook C D A → Option (GcBook C D A)
  purge_lookahead clean_at now g =
      let made = new_cyclic_batch bt g.book.ds default_ops in
      let run = elim (gs.query_visits g.book.ds) as (λ x. Option (GcBook C D A)) [
        | none ↦ some g
        | some ks ↦ elim made as (λ x. Option (GcBook C D A)) [
          | none ↦ none
          | some cb ↦ some (record g {
            book = commit_batch (
                visit_due clean_at now g.curr_window_end ks (record { book = g.book; batch = cb }));
          })
        ]
      ] in
      if g.running then some g else run

  -- `purgeStore`
  unfoldable pub purge_store : (K → ℤ) → GcBook C D A → Option (GcBook C D A)
  purge_store clean_at g =
      let made = new_cyclic_batch bt g.book.ds default_ops in
      let run = elim (gs.query_records g.book.ds) as (λ x. Option (GcBook C D A)) [
        | none ↦ some g
        | some rs ↦ elim made as (λ x. Option (GcBook C D A)) [
          | none ↦ none
          | some cb ↦ some (record g {
            book = commit_batch (purge_entries clean_at rs (record { book = g.book; batch = cb }));
          })
        ]
      ] in
      if g.running then some g else run

  -- The entry that `populateLookahead` makes for a record.
  unfoldable pub schedule : ℤ → K → List (AddrEntry A) → Purge C D A B → Purge C D A B
  schedule until key es s = elim (due_expiry until es) [
    | none ↦ s
    | some expiry ↦ (batch_write (put_op (gs.visit_key expiry (gs.name key)) []) s).1
  ]

  -- A key of a record: the entries come from the cache, else from the datastore. A peer that cannot
  -- be decoded is only logged.
  unfoldable pub populate_entry : ℤ → K → Purge C D A B → Purge C D A B
  populate_entry until key s = elim (gs.decode32 (gs.name key)) [
    | none ↦ s
    | some raw ↦ elim (cache.peek (gs.id_from_bytes raw).0 s.book.cache) [
      | some ptr ↦ elim (get_elem? s.book.heap ptr) [
        | none ↦ s
        | some cell ↦ schedule until key cell.value.addrs s
      ]
      | none ↦ elim (st.get key s.book.ds) [
        | not_found ↦ s
        | failed ↦ s
        | value v ↦ elim (st.unmarshal v) [ none ↦ s | some (id, es) ↦ schedule until key es s ]
      ]
    ]
  ]

  unfoldable pub populate_entries : ℤ → List K → Purge C D A B → Purge C D A B
  populate_entries until [] s = s
  populate_entries until (key ∷ ks) s = populate_entries until ks (populate_entry until key s)

  -- `populateLookahead`, with the interval of the options and the clock reading in nanoseconds.
  unfoldable pub populate_lookahead : ℤ → ℤ → GcBook C D A → GcBook C D A
  populate_lookahead interval now g =
      let until = unix (now +ℤ interval) in
      let run = elim (gs.query_record_keys g.book.ds) as (λ x. GcBook C D A) [
        | none ↦ g
        | some ks ↦ elim (new_cyclic_batch bt g.book.ds default_ops) as (λ x. GcBook C D A) [
          | none ↦ g
          | some cb ↦ record g {
            book = commit_batch (populate_entries until ks (record { book = g.book; batch = cb }));
            curr_window_end = until;
          }
        ]
      ] in
      if interval == pos 0 || g.running then g else run
