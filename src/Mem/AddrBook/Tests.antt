-- ===== src/Mem/AddrBook/Tests.antt =====
-- Runs of the in-memory address book, and the theorems at concrete inputs.
use go_libp2p_peerstore.Prelude.{
  ℕ, List, [], ◌∷◌, map, none, some, Bytes, bytes_eq, bytes_beq, int_eq, ℤ, ◌≤ℤ◌, ◌<ℤ◌, ◌+ℤ◌, pos,
  ◌≡◌, refl, ◌==◌, if◌then◌else◌, arith, is_some,
}
use go_libp2p_peerstore.Prelude.Maps.{lookup, insert, delete, AllValues, contains}
use mathlib.Core.Option
use go_libp2p_peerstore.Mem.SubManager.{broadcast_addr}
use go_libp2p_peerstore.Mem.AddrBook
use go_libp2p_peerstore.Mem.AddrBook.{
  AddrMap, ExpiringAddr, MemoryAddrBook, Clock, add_addr, add_addrs, set_addr, set_addrs,
  clear_addrs, update_addrs, new_addr_book, gc, peers_with_addrs, initial_addrs, address_ttl,
}
use go_libp2p_peerstore.Mem.AddrBook.Stored.{stored, live_at}
use go_libp2p_peerstore.Mem.AddrBook.Valid.{IsValid}
use go_libp2p_peerstore.Mem.AddrBook.Loops.{retimed}
use go_libp2p_peerstore.Mem.AddrBook.Gc.{IsLive, gc_collects, live_at-gc}
use go_libp2p_peerstore.Mem.AddrBook.Methods.{methods-IsValid, live_at-update_addrs}
use go_libp2p_peerstore.Mem.AddrBook.Refine.{call, Call, run, spec_run, run-refines, add, set, read}

program : Unit {0}
unfolding run call AddrBook.addrs add_addrs set_addrs clear_addrs update_addrs new_addr_book gc
    initial_addrs peers_with_addrs lookup insert delete broadcast_addr bytes_beq ◌+ℤ◌
    AddrBook.gc_loop AddrBook.drop_expired AddrBook.add_loop AddrBook.set_loop AddrBook.update_loop
program = tt

abbrev own : Bytes → Bytes
own a = a

abbrev peer : Bytes
peer = 7 ∷ []

abbrev home : Bytes
home = 1 ∷ 2 ∷ []

abbrev away : Bytes
away = 1 ∷ 3 ∷ []

-- All three readings of the clock at one time.
abbrev at : ℕ → Clock
at t = record { now = pos t; gc_now = pos t; gc_next = pos t }

abbrev history : List (Call Bytes)
history =
    add (at 10) peer (some home ∷ none ∷ some away ∷ []) (pos 5)
    ∷ set (at 12) peer (some away ∷ []) (pos 0)
    ∷ add (at 13) peer (some home ∷ []) (pos 1)
    ∷ read (pos 14) peer
    ∷ []

abbrev times : List ℤ
times = pos 10 ∷ pos 12 ∷ pos 13 ∷ pos 14 ∷ []

-- The later of the two expiries stays, and the last moment of an entry's life still counts.
history-addrs :
    ((AddrBook.addrs (run own history new_addr_book) (pos 15) peer).1 ≡ home ∷ [])
    × ((AddrBook.addrs (run own history new_addr_book) (pos 16) peer).1 ≡ [])
unfolding program
history-addrs = (refl, refl)

run-refines_example :
    contains home (map own (AddrBook.addrs (run own history new_addr_book) (pos 15) peer).1)
    ≡ is_some (live_at (pos 15) (spec_run own history (λ _ _. none) peer home))
run-refines_example =
    run-refines own history times (pos 10) (pos 14) (pos 15) peer home (omega arith) (omega arith)

abbrev book : MemoryAddrBook Bytes
book = record {
  addrs =
      (peer, (home, record { addr = home; ttl = pos 5; expires = pos 15 }) ∷ []) ∷ (away, []) ∷ [];
  next_gc = pos 20;
  sub_manager = [];
}

book-IsValid : IsValid own book
unfolding program
book-IsValid = record {
  peers = (refl, (refl, tt));
  entries = (
    record { distinct = (refl, tt); keyed = (refl, tt) },
    (record { distinct = tt; keyed = tt }, tt),
  );
}

gc_collects_example :
    (book.next_gc <ℤ pos 30
      → AllValues (IsLive (pos 30)) (gc (pos 30) (pos 31) book).addrs
        × ((gc (pos 30) (pos 31) book).next_gc ≡ pos 31 +ℤ address_ttl))
    × (pos 30 ≤ℤ book.next_gc → gc (pos 30) (pos 31) book ≡ book)
gc_collects_example = gc_collects (pos 30) (pos 31) book

live_at-gc_example :
    live_at (pos 30) (stored peer home (gc (pos 30) (pos 31) book).addrs)
    ≡ live_at (pos 30) (stored peer home book.addrs)
live_at-gc_example =
    live_at-gc own (pos 30) (pos 31) (pos 30) book peer home book-IsValid (omega arith)

live_at-update_addrs_example :
    live_at (pos 20) (stored peer home (update_addrs book (at 18) peer (pos 5) (pos 9)).addrs)
    ≡ live_at (pos 20) (
        if peer == peer
        then Option.map (retimed (pos 5) (pos 9) (pos 18 +ℤ pos 9)) (stored peer home book.addrs)
        else stored peer home book.addrs)
live_at-update_addrs_example =
    live_at-update_addrs own book book-IsValid (at 18) peer (pos 5) (pos 9) (pos 20) peer home
      (omega arith)

-- The entry had expired at 15. `UpdateAddrs` at 18 brings it back.
revived :
    (AddrBook.addrs (update_addrs book (at 18) peer (pos 5) (pos 9)) (pos 18) peer).1 ≡ home ∷ []
unfolding program
revived = refl

methods-IsValid_example :
    IsValid own new_addr_book
    × IsValid own (add_addrs own book (at 30) peer (some away ∷ []) (pos 3))
    × IsValid own (set_addrs own book (at 30) peer (some away ∷ []) (pos 3))
    × IsValid own (update_addrs book (at 30) peer (pos 5) (pos 9))
    × IsValid own (AddrBook.addrs book (pos 30) peer).0
    × IsValid own (clear_addrs book peer)
methods-IsValid_example =
    methods-IsValid own book (at 30) (pos 30) (pos 5) (pos 9) (pos 3) peer (some away ∷ [])
      book-IsValid
