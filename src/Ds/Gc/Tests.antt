-- ===== src/Ds/Gc/Tests.antt =====
-- Batches that are lists of writes, a run of the collector, and the theorems at concrete inputs.
use go_libp2p_peerstore.Prelude.{suc, ◌∙◌}
use go_libp2p_peerstore.Prelude.{
  ℕ, zero, true, false, List, [], ◌∷◌, ◌++◌, Option, none, some, Bytes, bytes_eq, int_eq, ℤ, ◌+ℤ◌,
  pos, negsuc, ◌≡◌, ◌≢◌, ◌⊎◌, refl, ◌==◌, ==_iff, if◌then◌else◌, arith, inl, inr, Bool-cases, All,
}
use go_libp2p_peerstore.Prelude.Maps.{Map, lookup, insert, delete, keys}
use mathlib.Core.Option
use mathlib.Core.Path.{subst}
use go_libp2p_peerstore.Prelude.{nat_beq}
use go_libp2p_peerstore.Ds.Record.{AddrEntry, unix, flush_op, flushed, clean}
use go_libp2p_peerstore.Ds.Store.{StoreOp, addr_key, flush_write}
use go_libp2p_peerstore.Ds.Batch
use go_libp2p_peerstore.Ds.Batch.{Batching, CyclicBatch, BatchError, new_cyclic_batch, commit}
use go_libp2p_peerstore.Ds.Gc.{GcStore, GcBook, purge_lookahead, purge_store, populate_lookahead}
use go_libp2p_peerstore.Ds.Book.Fixtures.{
  one_cache, one_cache-CacheLaws, map_store, map_store-StoreLaws, held, released, int_code,
  entry_codes, int_of, with_entry, entries_of, record_code, with_count, record_of, answer,
}
use go_libp2p_peerstore.Prelude.{bytes_beq}
use go_libp2p_peerstore.Ds.Store.{write_store, flush}
use go_libp2p_peerstore.Ds.Book.Flush.{IsStored, disk, value-IsStored}
use go_libp2p_peerstore.Ds.Book.Spec.{SpecBook}
use go_libp2p_peerstore.Ds.Book.Represents.{Represents}
use go_libp2p_peerstore.Ds.Book.Read.{open-Represents}
use go_libp2p_peerstore.Ds.Record.Clean.{live_entries}
use go_libp2p_peerstore.Ds.Record.InsertionSort.{
  insert_entry, insertion_sort, insertion_sort-SortLaws,
}
use go_libp2p_peerstore.Ds.Gc.Settled.{BatchLaws, apply_ops}
use go_libp2p_peerstore.Ds.Gc.Visit.{purge_lookahead-Represents}
use go_libp2p_peerstore.Ds.Gc.Collect.{purge_store-Represents}
use go_libp2p_peerstore.Ds.Gc.Background.{
  purge_tick, done, purge_func, background_step, background_loop, background,
}
use go_libp2p_peerstore.Ds.Gc.Window.{populate_lookahead-due}
use go_libp2p_peerstore.Ds.Options.{Options, new_address_book_gc}
use go_libp2p_peerstore.Ds.Batch.{new_cyclic_batch}
use go_libp2p_peerstore.Prelude.{inl, inr, ◌*◌}
use go_libp2p_peerstore.Ds.Gc.{
  batch_write, flush_batch, clean_batch, drop_entry, drop_or_reschedule, due_expiry, visit_cached,
  visit_stored, visit, visit_due, purge_entry, purge_entries, commit_batch, schedule,
  populate_entry, populate_entries,
}
use go_libp2p_peerstore.Ds.Batch.{renew, cycle, write_current, closed}
use go_libp2p_peerstore.Ds.Record.{expired_prefix, starts_after}

abbrev Ops : Type 0
Ops = List (StoreOp Bytes)

abbrev list_batches : Batching (Map Bytes Bytes) Ops (StoreOp Bytes)
list_batches = record {
  batch = λ d. some [];
  write = λ op b. (true, b ++ op ∷ []);
  commit = λ b d. (true, apply_ops map_store b d);
}

list_batches-BatchLaws : BatchLaws map_store list_batches (λ b. b)
list_batches-BatchLaws = record {
  batch_works = λ d. ([], refl, refl);
  write_works = λ op b. (refl, refl);
  commit_works = λ b d. (refl, refl);
}

-- The key of a visit is 0, its time and the name; any other key is that of a record.
unfoldable visits_of : Map Bytes Bytes → List Bytes
visits_of [] = []
visits_of (((n ∷ k), v) ∷ d) =
    let rest = visits_of d in if nat_beq n 0 then (n ∷ k) ∷ rest else rest
visits_of (([], v) ∷ d) = visits_of d

unfoldable records_of : Map Bytes Bytes → Map Bytes Bytes
records_of [] = []
records_of (((n ∷ k), v) ∷ d) =
    let rest = records_of d in if nat_beq n 0 then rest else ((n ∷ k), v) ∷ rest
records_of (([], v) ∷ d) = ([], v) ∷ records_of d

unfoldable time_of : Bytes → Option ℤ
time_of (zero ∷ t ∷ n) = some (pos t)
time_of k = none

unfoldable name_of : Bytes → Bytes
name_of (zero ∷ t ∷ n) = n
name_of (zero ∷ []) = []
name_of (suc z ∷ n) = n
name_of [] = []

unfoldable visit_at : ℤ → Bytes → Bytes
visit_at (pos t) n = 0 ∷ t ∷ n
visit_at (negsuc t) n = 0 ∷ n

abbrev map_gc : GcStore (Map Bytes Bytes) Bytes
map_gc = record {
  query_records = λ d. some (records_of d);
  query_record_keys = λ d. some (keys (records_of d));
  query_visits = λ d. some (visits_of d);
  timestamp = time_of;
  name = name_of;
  decode32 = λ n. some n;
  id_from_bytes = λ b. (b, true);
  visit_key = visit_at;
}

abbrev alice : Bytes
alice = 65 ∷ []

abbrev entry : ℕ → ℕ → AddrEntry Bytes
entry a expiry = record { addr = a ∷ []; expiry = pos expiry; ttl = pos 60 }

abbrev soon_and_late : List (AddrEntry Bytes)
soon_and_late = entry 1 11 ∷ entry 2 100 ∷ []

abbrev stored : Map Bytes Bytes
stored = (1 ∷ alice, record_code alice soon_and_late) ∷ []

abbrev gc_book : GcBook (Option (Bytes × ℕ)) (Map Bytes Bytes) Bytes
gc_book = record {
  book = record { cache = none; heap = []; ds = stored; subs_manager = [] };
  running = false;
  curr_window_end = pos 0;
}

clean_at : Bytes → ℤ
clean_at k = pos 20

-- A purge of the store keeps the address that has not expired.
purged :
    Option.map
      (λ g. g.book.ds)
      (purge_store one_cache map_store map_gc list_batches insertion_sort clean_at gc_book)
    ≡ some ((1 ∷ alice, record_code alice (entry 2 100 ∷ [])) ∷ [])
unfolding purge_store purge_lookahead populate_lookahead new_cyclic_batch commit_batch commit
    purge_entries records_of visits_of visit_due visit visit_cached visit_stored drop_or_reschedule
    drop_entry due_expiry time_of name_of visit_at clean_batch schedule populate_entry
    populate_entries purge_entry record_of record_code with_count entries_of entry_codes with_entry
    int_code int_of cycle renew Batch.write write_current batch_write flush_batch expired_prefix
    flush_op flushed addr_key flush_write flush clean starts_after clean_at held released answer
    lookup insert delete bytes_beq apply_ops write_store unix insert_entry insertion_sort purge_func
    background_step background_loop background ◌+ℤ◌
purged = refl

-- With a look-ahead of 100 seconds: the record is to be visited at 11, is purged at 20, and is then to be
-- visited at 100.
looked_ahead :
    Option.map
      (λ g. g.book.ds)
      (background one_cache map_store map_gc list_batches insertion_sort
        (record {
          cache_size = 0;
          gc_purge_interval = pos 1;
          gc_lookahead_interval = pos 100_000_000_000;
          gc_initial_delay = pos 0;
        })
        (record { lookahead_enabled = true; in_background = true })
        true
        (pos 1_000_000_000)
        (purge_tick clean_at (pos 20) ∷ done ∷ purge_tick clean_at (pos 200) ∷ [])
        gc_book)
    ≡ some ((1 ∷ alice, record_code alice (entry 2 100 ∷ [])) ∷ (0 ∷ 100 ∷ alice, []) ∷ [])
unfolding purge_store purge_lookahead populate_lookahead new_cyclic_batch commit_batch commit
    purge_entries records_of visits_of visit_due visit visit_cached visit_stored drop_or_reschedule
    drop_entry due_expiry time_of name_of visit_at clean_batch schedule populate_entry
    populate_entries purge_entry record_of record_code with_count entries_of entry_codes with_entry
    int_code int_of cycle renew Batch.write write_current batch_write flush_batch expired_prefix
    flush_op flushed addr_key flush_write flush clean starts_after clean_at held released answer
    lookup insert delete bytes_beq apply_ops write_store unix insert_entry insertion_sort purge_func
    background_step background_loop background ◌+ℤ◌
looked_ahead = refl

alice-IsStored : IsStored map_store alice stored
unfolding answer lookup addr_key bytes_beq record_of record_code with_count entries_of entry_codes
    with_entry int_code int_of
alice-IsStored =
    value-IsStored map_store alice (record_code alice soon_and_late) soon_and_late stored refl refl
      ((omega arith, tt), (tt, tt))

stored-IsStored : (q : Bytes) → IsStored map_store q stored
unfolding answer lookup addr_key
stored-IsStored q v h = elim (Bool-cases (alice == q)) [
  | inl own ↦ subst (λ x. IsStored map_store x stored) ((==_iff alice q).0 own) alice-IsStored v h
  | inr other ↦ absurd (missing other)
]
  where
    missing : (alice == q) ≡ false → ⊥
    missing other = ground (arith, other, h, ==_iff alice q, ==_iff (1 ∷ alice) (1 ∷ q))

abbrev spec_book : SpecBook Bytes
spec_book = record { entries = λ q. disk map_store q stored; subs_manager = [] }

gc-Represents : Represents one_cache map_store (pos 0) spec_book gc_book.book
unfolding held
gc-Represents =
    open-Represents one_cache map_store map_store-StoreLaws one_cache-CacheLaws (pos 0) gc_book.book
      (λ q. refl) stored-IsStored

purge_store-Represents_example :
    (g' : GcBook (Option (Bytes × ℕ)) (Map Bytes Bytes) Bytes) × (purge_store one_cache map_store
        map_gc list_batches insertion_sort clean_at gc_book
      ≡ some g')
    × Represents one_cache map_store (pos 30) spec_book g'.book
    × ((q : Bytes)
        → All (λ e. e.0 ≢ addr_key map_store q) stored
          ⊎ (disk map_store q g'.book.ds
              ≡ live_entries (clean_at (addr_key map_store q)) (disk map_store q stored)))
unfolding records_of addr_key lookup answer bytes_beq clean_at
purge_store-Represents_example =
    purge_store-Represents one_cache map_store map_gc list_batches insertion_sort (λ b. b)
      map_store-StoreLaws one_cache-CacheLaws list_batches-BatchLaws insertion_sort-SortLaws
      clean_at (pos 0) (pos 30) spec_book gc_book stored (omega arith) gc-Represents refl
      (alice, refl, refl, tt, tt) (omega arith, tt) refl

-- A book whose record is to be visited at 11.
abbrev waiting : Map Bytes Bytes
waiting = (1 ∷ alice, record_code alice soon_and_late) ∷ (0 ∷ 11 ∷ alice, []) ∷ []

abbrev window_book : GcBook (Option (Bytes × ℕ)) (Map Bytes Bytes) Bytes
window_book = record {
  book = record { cache = none; heap = []; ds = waiting; subs_manager = [] };
  running = false;
  curr_window_end = pos 50;
}

waiting-IsStored : (q : Bytes) → IsStored map_store q waiting
unfolding answer lookup addr_key bytes_beq
waiting-IsStored q v h = stored-IsStored q v (rest ∙ h)
  where
    rest :
        answer (lookup (addr_key map_store q) stored)
        ≡ answer (lookup (addr_key map_store q) waiting)
    rest = ground (arith, ==_iff (0 ∷ 11 ∷ alice) (1 ∷ q))

waiting_book : SpecBook Bytes
waiting_book = record { entries = λ q. disk map_store q waiting; subs_manager = [] }

window-Represents : Represents one_cache map_store (pos 0) waiting_book window_book.book
unfolding held waiting_book
window-Represents =
    open-Represents one_cache map_store map_store-StoreLaws one_cache-CacheLaws (pos 0)
      window_book.book (λ q. refl) waiting-IsStored

visit_at-addr_key : (t : ℤ) (n q : Bytes) → visit_at t n ≢ addr_key map_store q
unfolding visit_at addr_key
visit_at-addr_key (pos t) n q e = ground arith
visit_at-addr_key (negsuc t) n q e = ground arith

purge_lookahead-Represents_example :
    (g' : GcBook (Option (Bytes × ℕ)) (Map Bytes Bytes) Bytes) × (purge_lookahead one_cache
        map_store map_gc list_batches insertion_sort clean_at
        (pos 20)
        window_book
      ≡ some g')
    × Represents one_cache map_store (pos 30) waiting_book g'.book
unfolding visits_of name_of addr_key clean_at
purge_lookahead-Represents_example =
    purge_lookahead-Represents one_cache map_store map_gc list_batches insertion_sort (λ b. b)
      map_store-StoreLaws one_cache-CacheLaws list_batches-BatchLaws insertion_sort-SortLaws
      visit_at-addr_key clean_at (pos 0) (pos 30) (pos 20) waiting_book window_book
      ((0 ∷ 11 ∷ alice) ∷ []) (omega arith) window-Represents refl
      (((λ q e. ground arith), (λ p e. ground arith)), tt) (omega arith, tt) refl

-- Purges every ten seconds, with a window of twenty.
abbrev ahead_opts : Options
ahead_opts = record {
  cache_size = 0;
  gc_purge_interval = pos (10 * 1_000_000_000);
  gc_lookahead_interval = pos (20 * 1_000_000_000);
  gc_initial_delay = pos 0;
}

populate_lookahead-due_example :
    due_expiry
      (populate_lookahead one_cache map_store map_gc list_batches insertion_sort
        (pos (20 * 1_000_000_000))
        (pos 5)
        gc_book).curr_window_end
      ((record { addr = alice; expiry = pos 9; ttl = pos 3 }) ∷ [])
    ≡ some (pos 9)
unfolding new_address_book_gc new_cyclic_batch unix ◌+ℤ◌
populate_lookahead-due_example =
    populate_lookahead-due one_cache map_store map_gc list_batches insertion_sort ahead_opts
      (record { lookahead_enabled = true; in_background = true }) (pos 5) (pos (10 * 1_000_000_000))
      gc_book (keys (records_of gc_book.book.ds))
      (record { threshold = 0; current = some []; pending = 0 })
      (record { addr = alice; expiry = pos 9; ttl = pos 3 }) [] refl refl refl refl refl
      (omega arith) (omega arith)
