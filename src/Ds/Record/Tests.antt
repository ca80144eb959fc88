-- ===== src/Ds/Record/Tests.antt =====
-- Runs of the record operations, and the theorems at concrete inputs.
use go_libp2p_peerstore.Prelude.{
  ℕ, true, [], ◌∷◌, none, some, Bytes, bytes_eq, bytes_beq, int_eq, pos, ◌≡◌, refl, if◌then◌else◌,
  arith, is_some,
}
use go_libp2p_peerstore.Prelude.{bytes_beq_iff}
use go_libp2p_peerstore.Ds.Record.{
  AddrEntry, AddrsRecord, ttl_override, clean, set_record, update_record, delete_record, flush_op,
  flushed, unix, clean_addrs, expired_prefix, starts_after, set_entries, set_existing, same_addr,
  delete_outer, delete_inner, update_entries,
}
use go_libp2p_peerstore.Ds.Record.InsertionSort.{
  insert_entry, insertion_sort, insertion_sort-SortLaws,
}
use mathlib.Core.Option
use go_libp2p_peerstore.Ds.Record.{TtlWriteMode}
use go_libp2p_peerstore.Prelude.{List, ℤ, ℕ, zero, suc, ◌≤◌, length}
use go_libp2p_peerstore.Prelude.{nat_eq}
use go_libp2p_peerstore.Prelude.Maps.{contains, IsDistinct}
use go_libp2p_peerstore.Ds.Record.Pointers.{Cells, entries_at, set_entries_at, delete_at}
use go_libp2p_peerstore.Ds.Record.Unshared.{pointers_lem}
use go_libp2p_peerstore.Ds.Record.Clean.{IsOrdered, Cleaned, clean-Cleaned}
use go_libp2p_peerstore.Ds.Record.Set.{entry_of, addr_of, set_entry, entry_of-set_record}
use go_libp2p_peerstore.Ds.Record.Delete.{
  without, delete_record-one, delete_record-nil, delete_record-panics,
}

program : Unit {0}
unfolding clean set_record update_record delete_record flush_op flushed unix clean_addrs
    expired_prefix starts_after set_entries set_existing delete_outer delete_inner update_entries
    bytes_beq
program = tt

abbrev own : Bytes → Bytes
own a = a

abbrev home : Bytes
home = 1 ∷ []

abbrev away : Bytes
away = 2 ∷ []

abbrev entry : Bytes → ℕ → AddrEntry Bytes
entry a expiry = record { addr = a; expiry = pos expiry; ttl = pos 60 }

abbrev two : AddrsRecord Bytes
two = record { id = 9 ∷ []; addrs = entry home 30 ∷ entry away 20 ∷ []; dirty = true }

two-IsOrdered : IsOrdered two
two-IsOrdered h = cc

cleaned : clean insertion_sort (pos 25) two ≡ (record two { addrs = entry home 30 ∷ [] }, true)
unfolding program insertion_sort insert_entry
cleaned = refl

clean-Cleaned_example : Cleaned (pos 25) two (clean insertion_sort (pos 25) two)
clean-Cleaned_example =
    clean-Cleaned insertion_sort insertion_sort-SortLaws (pos 25) two two-IsOrdered

entry_of-set_record_example :
    (entry_of own away (set_record bytes_beq ttl_override (pos 90) (pos 5) (away ∷ []) two).0.addrs
      ≡ set_entry ttl_override
          (pos 90)
          (pos 5)
          (addr_of own away (away ∷ []))
          (entry_of own away two.addrs))
    × ((set_record bytes_beq ttl_override (pos 90) (pos 5) (away ∷ []) two).0.dirty ≡ true)
    × (addr_of own away (set_record bytes_beq ttl_override (pos 90) (pos 5) (away ∷ []) two).1
        ≡ (if is_some (entry_of own away two.addrs) then none else addr_of own away (away ∷ [])))
entry_of-set_record_example =
    entry_of-set_record own bytes_beq bytes_beq_iff ttl_override (pos 90) (pos 5) (away ∷ []) two
      away

-- An override with a TTL of 5 leaves the entry's TTL at 60.
ttl_stays :
    (set_record bytes_beq ttl_override (pos 90) (pos 5) (away ∷ []) two).0.addrs
    ≡ entry home 30 ∷ entry away 90 ∷ []
unfolding program
ttl_stays = refl

-- An address given twice is stored twice.
stored_twice :
    (set_record bytes_beq ttl_override
      (pos 90)
      (pos 60)
      (away ∷ away ∷ [])
      (record two { addrs = [] })).0.addrs
    ≡ entry away 90 ∷ entry away 90 ∷ []
unfolding program
stored_twice = refl

delete_record-one_example :
    delete_record bytes_beq (home ∷ []) two
    ≡ some (record two { addrs = without (same_addr bytes_beq) home two.addrs; dirty = true })
delete_record-one_example = delete_record-one bytes_beq home two

delete_record-nil_example :
    delete_record bytes_beq [] two ≡ some (record two { addrs = []; dirty = true })
delete_record-nil_example = delete_record-nil bytes_beq two

-- To delete both addresses of a record deletes neither.
both_stay : delete_record bytes_beq (home ∷ away ∷ []) two ≡ some two
unfolding program
both_stay = refl

delete_record-panics_example : delete_record bytes_beq ((3 ∷ []) ∷ (4 ∷ []) ∷ []) two ≡ none
unfolding bytes_beq
delete_record-panics_example =
    delete_record-panics bytes_beq ((3 ∷ []) ∷ (4 ∷ []) ∷ []) two (omega arith) (λ q. cc)
      ((refl, (refl, tt)), ((refl, (refl, tt)), tt))

-- Two entries, at the cells 0 and 1.
abbrev cells : Cells Bytes
cells zero = entry home 30
cells (suc p) = entry away 30

abbrev two_cells : AddrsRecord Bytes
two_cells = record two { addrs = entries_at cells (0 ∷ 1 ∷ []) }

pointers_lem_example :
    ((mode : TtlWriteMode) (exp : ℤ) (as' : List Bytes)
      → set_entries bytes_beq mode exp as' two_cells.addrs ≡ (
        entries_at (set_entries_at bytes_beq mode exp as' cells (0 ∷ 1 ∷ [])).0 (0 ∷ 1 ∷ []),
        (set_entries_at bytes_beq mode exp as' cells (0 ∷ 1 ∷ [])).1,
      ))
    × ((dels : List Bytes)
        → delete_record bytes_beq dels two_cells
          ≡ Option.map
              (λ qs. record two_cells { addrs = entries_at cells qs; dirty = true })
              (delete_at bytes_beq cells dels (0 ∷ 1 ∷ [])))
    × ((dels : List Bytes)
        → length dels ≤ 1
        → (qs : List ℕ) × (delete_at bytes_beq cells dels (0 ∷ 1 ∷ []) ≡ some qs) × IsDistinct qs)
unfolding contains
pointers_lem_example = pointers_lem bytes_beq cells (0 ∷ 1 ∷ []) two_cells (refl, (refl, tt)) refl

-- An address that is deleted twice leaves the other entry twice, by the same pointer.
same_pointer_twice : delete_at bytes_beq cells (home ∷ home ∷ []) (0 ∷ 1 ∷ []) ≡ some (1 ∷ 1 ∷ [])
unfolding delete_at delete_outer delete_inner bytes_beq
same_pointer_twice = refl
