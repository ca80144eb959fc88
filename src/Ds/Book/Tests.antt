-- ===== src/Ds/Book/Tests.antt =====
-- Runs of `dsAddrBook`, and the theorems at concrete inputs.
use go_libp2p_peerstore.Prelude.{
  ℕ, true, false, List, [], ◌∷◌, Option, none, some, Bytes, bytes_eq, int_eq, ℤ, ◌+ℤ◌, pos, ◌≡◌,
  refl, arith,
}
use go_libp2p_peerstore.Prelude.Maps.{Map, lookup, insert, delete}
use go_libp2p_peerstore.Mem.SubManager.{broadcast_addr}
use go_libp2p_peerstore.Ds.Record.{
  ttl_extend, unix, flush_op, flushed, clean_addrs, clean, update_record, set_record, delete_record,
}
use go_libp2p_peerstore.Prelude.{bytes_beq, ◌*◌}
use go_libp2p_peerstore.Ds.Store.{addr_key, flush, flush_write, write_store}
use go_libp2p_peerstore.Ds.Book.{
  DsAddrBook, Times, load_record, load_cached, load_new, load_stored, loaded_cell, clean_flush,
  clean_and_flush, broadcast_each, set_loaded, set_addrs_in, delete_loaded, delete_addrs_in,
  update_loaded, update_addrs, addrs, add_addrs, set_addrs, clear_addrs,
}
use go_libp2p_peerstore.Ds.Book.Fixtures.{
  one_cache, one_cache-CacheLaws, map_store, map_store-StoreLaws, held, released, int_code,
  entry_codes, int_of, with_entry, entries_of, record_code, with_count, record_of, answer,
}
use go_libp2p_peerstore.Ds.Book.Flush.{IsStored, disk}
use go_libp2p_peerstore.Ds.Book.Spec.{SpecBook}
use go_libp2p_peerstore.Ds.Book.Represents.{Represents}
use go_libp2p_peerstore.Ds.Book.Load.{IsLoaded}
use go_libp2p_peerstore.Ds.Book.Fetch.{load_record-IsLoaded}
use go_libp2p_peerstore.Ds.Book.Read.{open-Represents}
use go_libp2p_peerstore.Ds.Book.Faults.{unreadable_lem}
use go_libp2p_peerstore.Ds.Book.Runs.{
  Call, add_call, set_call, update_call, addrs_call, clear_call, IsTimed, run_call, run_calls,
  spec_calls, call_time,
}
use go_libp2p_peerstore.Ds.Book.Refine.{IsUnshared, run_calls-refines}
use go_libp2p_peerstore.Ds.Record.InsertionSort.{
  insert_entry, insertion_sort, insertion_sort-SortLaws,
}
use go_libp2p_peerstore.Ds.Record.{
  expired_prefix, starts_after, set_entries, set_existing, delete_outer, delete_inner,
  update_entries,
}

abbrev Book : Type 0
Book = DsAddrBook (Option (Bytes × ℕ)) (Map Bytes Bytes) Bytes

abbrev empty_book : Book
empty_book = record { cache = none; heap = []; ds = []; subs_manager = [] }

abbrev alice : Bytes
alice = 65 ∷ []

abbrev bob : Bytes
bob = 66 ∷ []

abbrev home : Bytes
home = 1 ∷ []

abbrev away : Bytes
away = 2 ∷ []

abbrev second : ℕ → ℤ
second n = pos (n * 1_000_000_000)

abbrev at : ℕ → Times
at n = record { load = second n; now = second n; clean = second n }

-- Two peers in turn, so that the cache drops the first one's record; an address that expires.
abbrev calls : List (Call Bytes)
calls =
    set_call (at 1) alice (some home ∷ []) (second 10)
    ∷ add_call (at 2) bob (some away ∷ []) (second 100)
    ∷ add_call (at 3) alice (some away ∷ none ∷ []) (second 50)
    ∷ addrs_call (second 4) alice
    ∷ addrs_call (second 12) alice
    ∷ update_call (at 13) alice (second 50) (second 60)
    ∷ addrs_call (second 70) alice
    ∷ set_call (at 71) alice (some away ∷ []) (pos 0)
    ∷ addrs_call (second 72) alice
    ∷ addrs_call (second 73) bob
    ∷ clear_call bob
    ∷ addrs_call (second 74) bob
    ∷ []

calls_run :
    run_calls one_cache map_store insertion_sort bytes_beq calls empty_book
    ≡ some (
        []
        ∷ []
        ∷ []
        ∷ (home ∷ away ∷ [])
        ∷ (away ∷ [])
        ∷ []
        ∷ (away ∷ [])
        ∷ []
        ∷ []
        ∷ (away ∷ [])
        ∷ []
        ∷ []
        ∷ [])
unfolding run_calls run_call add_addrs set_addrs clear_addrs addrs update_addrs update_loaded
    delete_addrs_in delete_loaded set_addrs_in set_loaded broadcast_each clean_and_flush clean_flush
    loaded_cell load_record load_stored load_new load_cached flush flush_write write_store addr_key
    held released int_code entry_codes int_of with_entry entries_of record_code with_count record_of
    answer lookup insert delete bytes_beq insert_entry insertion_sort clean expired_prefix
    starts_after set_entries set_existing set_record delete_outer delete_inner delete_record
    update_entries update_record unix clean_addrs flush_op flushed broadcast_addr ◌+ℤ◌
calls_run = refl

empty-IsStored : (q : Bytes) → IsStored map_store q []
unfolding answer lookup
empty-IsStored q v h = absurd (ground arith)

abbrev spec_book : SpecBook Bytes
spec_book = record { entries = λ q. disk map_store q []; subs_manager = [] }

empty-Represents : Represents one_cache map_store (pos 0) spec_book empty_book
unfolding held
empty-Represents =
    open-Represents one_cache map_store map_store-StoreLaws one_cache-CacheLaws (pos 0) empty_book
      (λ q. refl) empty-IsStored

calls-IsTimed : IsTimed (pos 0) calls
unfolding call_time unix
calls-IsTimed = ground arith

calls-IsUnshared : IsUnshared calls
unfolding clean_addrs
calls-IsUnshared = ground arith

run_calls-refines_example :
    (outs : List (List Bytes)) × (spec_calls insertion_sort bytes_beq calls spec_book ≡ some outs)
    × (run_calls one_cache map_store insertion_sort bytes_beq calls empty_book ≡ some outs)
run_calls-refines_example =
    run_calls-refines one_cache map_store insertion_sort bytes_beq map_store-StoreLaws
      insertion_sort-SortLaws one_cache-CacheLaws (pos 0) calls spec_book empty_book
      empty-Represents calls-IsTimed calls-IsUnshared

load_record-IsLoaded_example :
    IsLoaded one_cache map_store insertion_sort
      (pos 5)
      alice
      spec_book
      (load_record one_cache map_store insertion_sort alice true true (pos 5) empty_book)
load_record-IsLoaded_example =
    load_record-IsLoaded one_cache map_store insertion_sort one_cache-CacheLaws map_store-StoreLaws
      (pos 0) (pos 5) alice true true spec_book empty_book (omega arith) empty-Represents

-- A book over a datastore with bytes that are no record.
abbrev broken_book : Book
broken_book = record { cache = none; heap = []; ds = (1 ∷ alice, 9 ∷ []) ∷ []; subs_manager = [] }

unreadable_lem_example :
    (addrs one_cache map_store insertion_sort bytes_beq (second 5) alice broken_book
      ≡ ([], broken_book))
    × (set_addrs_in one_cache map_store insertion_sort bytes_beq ttl_extend
          (at 5)
          alice
          (home ∷ [])
          (second 10)
          broken_book
        ≡ (false, broken_book))
    × (delete_addrs_in one_cache map_store insertion_sort bytes_beq
          (at 5)
          alice
          (home ∷ [])
          broken_book
        ≡ some (false, broken_book))
    × (update_addrs one_cache map_store insertion_sort bytes_beq
          (at 5)
          alice
          (second 10)
          (second 20)
          broken_book
        ≡ none)
unfolding held answer lookup addr_key record_of with_count bytes_beq
unreadable_lem_example =
    unreadable_lem one_cache map_store insertion_sort bytes_beq (at 5) ttl_extend (second 5)
      (second 10) (second 10) (second 20) alice (home ∷ []) broken_book refl refl
