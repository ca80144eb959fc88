-- ===== src/Ds/Book.antt =====
-- pstoreds/addr_book.go: `dsAddrBook`, over a cache and a datastore. A cached record is shared: the cache
-- holds a pointer, an index into `heap`, and a method that changes a record changes it there. Each
-- method takes the clock readings that it makes, in nanoseconds. `none` is a panic.
pub mod Laws
pub mod Spec
pub mod Flush
pub mod Represents
pub mod Load
pub mod Fetch
pub mod Change
pub mod Update
pub mod Read
pub mod Runs
pub mod Refine
pub mod Faults
pub mod Fixtures
mod Tests
use go_libp2p_peerstore.Prelude.{
  ℕ, zero, suc, ◌+◌, ◌≤◌, ◌<◌, Bool, true, false, not, ◌&&◌, ◌||◌, List, [], ◌∷◌, ◌++◌, map, Option,
  none, some, Bytes, bytes_eq, int_eq, ℤ, ◌≤ℤ◌, ◌<ℤ◌, ◌+ℤ◌, +ℤ_parts, ltb_ℤ, leb_ℤ, pos, negsuc,
  ◌≡◌, ◌≢◌, ◌↔◌, ◌⊎◌, refl, sym, ap, ◌∙◌, ◌==◌, ==_iff, if◌then◌else◌, arith, inl, inr, Bool-cases,
  Option-cases, is_some, All, length,
}
use go_libp2p_peerstore.Prelude.Maps.{
  Map, lookup, insert, delete, lookup-insert, lookup-delete, IsMap, AllValues, contains, IsDistinct,
  keys, contains-keys, AllValues-lookup, AllValues-insert, AllValues-delete, insert-IsMap,
  delete-IsMap,
}
use mathlib.Core.Option
use mathlib.Core.Path.{subst}
use go_libp2p_peerstore.Prelude.{
  ◌-◌, take, drop, set, get_elem?, ltb, nat_beq, length-append, ==_refl, Comparable,
}
use go_libp2p_peerstore.Mem.Metadata.{GetResult, value, not_found, failed}
use go_libp2p_peerstore.Mem.SubManager.{AddrSubManager, AddrSub, broadcast_addr, add_sub}
use go_libp2p_peerstore.Ds.Cache.{Cache}
use go_libp2p_peerstore.Ds.Record.{
  AddrEntry, AddrsRecord, TtlWriteMode, ttl_override, ttl_extend, unix, WriteOp, put, remove,
  flush_op, flushed, clean_addrs, clean, update_record, set_record, delete_record,
}
use go_libp2p_peerstore.Ds.Store.{AddrStore, addr_key, flush}

-- A record in memory, and whether its slice of addresses is nil.
pub record Cell (A : Type 0) : Type 0 where
  pub value : AddrsRecord A
  pub is_nil : Bool

pub record DsAddrBook (C D A : Type 0) : Type 0 where
  pub cache : C
  pub heap : List (Cell A)
  pub ds : D
  pub subs_manager : AddrSubManager A

-- What `loadRecord` returns: the pointer, if it is not nil, and whether the error is nil.
pub record Loaded (C D A : Type 0) : Type 0 where
  pub pointer : Option ℕ
  pub good : Bool
  pub book : DsAddrBook C D A

-- The clock readings of a method: those of `loadRecord`, of the method itself, and of its `clean`.
pub record Times : Type 0 where
  pub load : ℤ
  pub now : ℤ
  pub clean : ℤ

module _ {A : Type 0} where
  -- `ab.subsManager.BroadcastAddr(p, addr)` for each address that was added.
  unfoldable pub broadcast_each : Bytes → List A → AddrSubManager A → AddrSubManager A
  broadcast_each p [] mgr = mgr
  broadcast_each p (a ∷ as') mgr = broadcast_each p as' (broadcast_addr mgr p a)

module _ {C D K A : Type 0} (cache : Cache C Bytes ℕ) (st : AddrStore D K A)
    (sort : List (AddrEntry A) → List (AddrEntry A)) where
  -- `clean`, and `flush` where the record changed and it is asked for. The record, whether the error
  -- is nil, and the datastore.
  unfoldable pub clean_flush : Bool → ℤ → AddrsRecord A → D → Bool × (AddrsRecord A × D)
  clean_flush update now r d =
      let (r', changed) = clean sort now r in
      let written = flush st r' d in if changed && update then written else (true, (r', d))

  -- The branch of `loadRecord` for a record in the cache.
  unfoldable pub load_cached : Bool → ℤ → ℕ → Cell A → DsAddrBook C D A → Loaded C D A
  load_cached update now ptr cell b =
      let (good, (r, d)) = clean_flush update now cell.value b.ds in
      record {
        pointer = some ptr;
        good = good;
        book = record b { heap = set b.heap ptr (record cell { value = r }); ds = d };
      }

  -- A new record in memory, that is put in the cache if it is asked for.
  unfoldable pub load_new : Bytes → Bool → Bool → Cell A → D → DsAddrBook C D A → Loaded C D A
  load_new id want good cell d b = record {
    pointer = some (length b.heap);
    good = good;
    book = record b {
      heap = b.heap ++ cell ∷ [];
      cache = if want then cache.add id (length b.heap) b.cache else b.cache;
      ds = d;
    };
  }

  -- The branch of `loadRecord` for a record that is not in the cache.
  unfoldable pub load_stored : Bytes → Bool → Bool → ℤ → DsAddrBook C D A → Loaded C D A
  load_stored id want update now b = elim (st.get (addr_key st id) b.ds) [
    | failed ↦ record { pointer = none; good = false; book = b }
    | not_found ↦
        load_new id want true
          (record { value = record { id = id; addrs = []; dirty = false }; is_nil = true }) b.ds b
    | value bytes ↦ elim (st.unmarshal bytes) [
      | none ↦ record { pointer = none; good = false; book = b }
      | some (stored_id, es) ↦
          let read : AddrsRecord A = record { id = stored_id; addrs = es; dirty = false } in
          let (good, (r, d)) = clean_flush update now read b.ds in
          load_new id want good (record { value = r; is_nil = nat_beq (length es) 0 }) d b
    ]
  ]

  -- `loadRecord`. Every pointer of the cache is one into the heap.
  unfoldable pub load_record : Bytes → Bool → Bool → ℤ → DsAddrBook C D A → Loaded C D A
  load_record id want update now b =
      let (hit, c) = cache.get id b.cache in
      let b' = record b { cache = c } in
      elim hit [
        | none ↦ load_stored id want update now b'
        | some ptr ↦ elim (get_elem? b'.heap ptr) [
          | none ↦ record { pointer = none; good = false; book = b' }
          | some cell ↦ load_cached update now ptr cell b'
        ]
      ]

  -- The record that `loadRecord` returned without an error.
  unfoldable pub loaded_cell : Loaded C D A → Option (ℕ × Cell A)
  loaded_cell l = elim l.pointer [
    | none ↦ none
    | some ptr ↦
        let found : Option (ℕ × Cell A) =
          Option.map (λ cell. (ptr, cell)) (get_elem? l.book.heap ptr) in
        if l.good then found else none
  ]

  -- `pr.clean()` and `return pr.flush(ab.ds)` on the record that a method changed.
  unfoldable pub clean_and_flush : ℤ → ℕ → Cell A → DsAddrBook C D A → Bool × DsAddrBook C D A
  clean_and_flush now ptr cell b =
      let (good, (r, d)) = flush st (clean sort now cell.value).0 b.ds in
      (good, record b { heap = set b.heap ptr (record cell { value = r }); ds = d })

module _ {C D K A : Type 0} (cache : Cache C Bytes ℕ) (st : AddrStore D K A)
    (sort : List (AddrEntry A) → List (AddrEntry A)) (same : A → A → Bool) where
  -- `setAddrs` behind `loadRecord`. Appending nothing to a nil slice leaves it nil.
  unfoldable pub set_loaded :
      TtlWriteMode
      → Times
      → Bytes
      → List A
      → ℤ
      → ℕ
      → Cell A
      → DsAddrBook C D A
      → Bool × DsAddrBook C D A
  set_loaded mode t p as' ttl ptr cell b =
      let (r, added) = set_record same mode (unix (t.now +ℤ ttl)) ttl as' cell.value in
      clean_and_flush cache st sort (unix t.clean) ptr
        (record { value = r; is_nil = cell.is_nil && nat_beq (length r.addrs) 0 })
        (record b { subs_manager = broadcast_each p added b.subs_manager })

  -- `setAddrs`, with whether its error is nil.
  unfoldable pub set_addrs_in :
      TtlWriteMode → Times → Bytes → List A → ℤ → DsAddrBook C D A → Bool × DsAddrBook C D A
  set_addrs_in mode t p as' ttl b =
      let l = load_record cache st sort p true false (unix t.load) b in
      elim (loaded_cell cache st sort l) [
        | none ↦ (false, l.book)
        | some (ptr, cell) ↦ set_loaded mode t p as' ttl ptr cell l.book
      ]

  -- `deleteAddrs` behind `loadRecord`.
  unfoldable pub delete_loaded :
      Times → List A → ℕ → Cell A → DsAddrBook C D A → Option (Bool × DsAddrBook C D A)
  delete_loaded t dels ptr cell b =
      if cell.is_nil then some (true, b) else elim (delete_record same dels cell.value) [
        | none ↦ none
        | some r ↦
            some (clean_and_flush cache st sort (unix t.clean) ptr (record cell { value = r }) b)
      ]

  unfoldable pub delete_addrs_in :
      Times → Bytes → List A → DsAddrBook C D A → Option (Bool × DsAddrBook C D A)
  delete_addrs_in t p dels b =
      let l = load_record cache st sort p false false (unix t.load) b in
      elim (loaded_cell cache st sort l) [
        | none ↦ some (false, l.book)
        | some (ptr, cell) ↦ delete_loaded t dels ptr cell l.book
      ]

  -- `AddAddrs`
  unfoldable pub add_addrs :
      Times → Bytes → List (Option A) → ℤ → DsAddrBook C D A → DsAddrBook C D A
  add_addrs t p as' ttl b =
      if leb_ℤ ttl (pos 0) then b else (set_addrs_in ttl_extend t p (clean_addrs as') ttl b).1

  unfoldable pub add_addr : Times → Bytes → Option A → ℤ → DsAddrBook C D A → DsAddrBook C D A
  add_addr t p a ttl b = add_addrs t p (a ∷ []) ttl b

  -- `SetAddrs`
  unfoldable pub set_addrs :
      Times → Bytes → List (Option A) → ℤ → DsAddrBook C D A → Option (DsAddrBook C D A)
  set_addrs t p as' ttl b =
      if leb_ℤ ttl (pos 0)
      then Option.map (λ r. r.1) (delete_addrs_in t p (clean_addrs as') b)
      else some (set_addrs_in ttl_override t p (clean_addrs as') ttl b).1

  unfoldable pub set_addr :
      Times → Bytes → Option A → ℤ → DsAddrBook C D A → Option (DsAddrBook C D A)
  set_addr t p a ttl b = set_addrs t p (a ∷ []) ttl b

  -- `UpdateAddrs`. Where `loadRecord` returns an error, the record is nil, and locking it panics.
  unfoldable pub update_loaded : Times → ℤ → ℤ → ℕ → Cell A → DsAddrBook C D A → DsAddrBook C D A
  update_loaded t old_ttl new_ttl ptr cell b =
      let (r, changed) =
        update_record sort (unix t.clean) old_ttl new_ttl (unix (t.now +ℤ new_ttl)) cell.value in
      let (good, (r', d)) = flush st r b.ds in
      if changed
      then record b { heap = set b.heap ptr (record cell { value = r' }); ds = d }
      else record b { heap = set b.heap ptr (record cell { value = r }) }

  unfoldable pub update_addrs : Times → Bytes → ℤ → ℤ → DsAddrBook C D A → Option (DsAddrBook C D A)
  update_addrs t p old_ttl new_ttl b =
      let l = load_record cache st sort p true false (unix t.load) b in
      elim (loaded_cell cache st sort l) [
        | none ↦ none
        | some (ptr, cell) ↦ some (update_loaded t old_ttl new_ttl ptr cell l.book)
      ]

  -- `Addrs`: after an error of `loadRecord`, also one of its `flush`, no addresses.
  unfoldable pub addrs : ℤ → Bytes → DsAddrBook C D A → List A × DsAddrBook C D A
  addrs now p b =
      let l = load_record cache st sort p true true (unix now) b in
      elim (loaded_cell cache st sort l) [
        | none ↦ ([], l.book)
        | some (ptr, cell) ↦ (map (λ e. e.addr) cell.value.addrs, l.book)
      ]

  -- `ClearAddrs`
  unfoldable pub clear_addrs : Bytes → DsAddrBook C D A → DsAddrBook C D A
  clear_addrs p b = record b {
    cache = cache.remove p b.cache;
    ds = (st.delete (addr_key st p) b.ds).1;
  }

  -- `AddrStream`: the addresses that the stream starts with, and the registration of `sub`.
  unfoldable pub addr_stream : ℤ → Bytes → AddrSub A → DsAddrBook C D A → List A × DsAddrBook C D A
  addr_stream now p sub b =
      let (initial, b') = addrs now p b in
      (initial, record b' { subs_manager = add_sub b'.subs_manager p sub })
