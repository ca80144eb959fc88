-- ===== src/Mem/Tests.antt =====
-- Runs of the subscriptions and of the stream, and the theorems at concrete inputs.
use go_libp2p_peerstore.Prelude.{
  ℕ, true, false, not, ◌&&◌, List, [], ◌∷◌, ◌++◌, map, none, some, Bytes, bytes_eq, bytes_beq,
  int_eq, ◌+ℤ◌, pos, ◌≡◌, refl, ◌==◌, if◌then◌else◌, arith, is_some,
}
use go_libp2p_peerstore.Prelude.Maps.{lookup, insert, contains}
use go_libp2p_peerstore.Prelude.{nat_eq}
use go_libp2p_peerstore.Prelude.Fresh.{fresh}
use go_libp2p_peerstore.Mem.SubManager.{
  remove_from, find_sub, swap_out, AddrSub, AddrSubManager, remove_sub,
}
use go_libp2p_peerstore.Mem.SubManager.Remove.{subscribed, contains-remove_sub}
use go_libp2p_peerstore.Mem.SubManager.Publish.{subs_of, publish, accepted, add_addrs-publishes}
use go_libp2p_peerstore.Mem.AddrBook.{MemoryAddrBook, Clock, add_addrs, addr_map}
use go_libp2p_peerstore.Mem.Stream
use go_libp2p_peerstore.Mem.Stream.{Event, deliver, receive, cancel, start, step, run}
use go_libp2p_peerstore.Mem.Stream.Order.{pending, received, run-delivers, run-step_enabled}

abbrev own : Bytes → Bytes
own a = a

abbrev peer : Bytes
peer = 7 ∷ []

abbrev home : Bytes
home = 1 ∷ []

abbrev away : Bytes
away = 2 ∷ []

abbrev sub : ℕ → AddrSub Bytes
sub n = record { id = n; received = []; done = false }

abbrev manager : AddrSubManager Bytes
manager = (peer, sub 1 ∷ sub 2 ∷ sub 3 ∷ []) ∷ []

removed : remove_sub manager peer 1 ≡ (peer, sub 3 ∷ sub 2 ∷ []) ∷ []
unfolding remove_sub remove_from find_sub swap_out lookup insert bytes_beq
removed = refl

contains-remove_sub_example :
    contains 3 (subscribed (remove_sub manager peer 1) peer)
    ≡ (contains 3 (subscribed manager peer) && not (peer == peer && (◌==◌ {K = ℕ} 1 3)))
unfolding subscribed lookup contains bytes_beq
contains-remove_sub_example = contains-remove_sub 3 1 peer peer manager (refl, (refl, (refl, tt)))

abbrev book : MemoryAddrBook Bytes
book = record { addrs = []; next_gc = pos 0; sub_manager = manager }

abbrev clock : Clock
clock = record { now = pos 10; gc_now = pos 10; gc_next = pos 10 }

add_addrs-publishes_example :
    subs_of
      (add_addrs own book clock peer (some home ∷ some home ∷ some away ∷ []) (pos 5)).sub_manager
      peer
    ≡ (if peer == peer
        then map
            (publish (
              accepted own
                (pos 10 +ℤ pos 5)
                (addr_map book peer)
                []
                (some home ∷ some home ∷ some away ∷ [])))
            (subs_of book.sub_manager peer)
        else subs_of book.sub_manager peer)
add_addrs-publishes_example =
    add_addrs-publishes own book clock peer peer (some home ∷ some home ∷ some away ∷ []) (pos 5)
      (omega arith)

abbrev events : List (Event Bytes)
events = receive away ∷ deliver ∷ receive home ∷ receive away ∷ deliver ∷ []

abbrev ended : Stream.Stream Bytes
ended = record {
  sent = away ∷ home ∷ [];
  next = none;
  buffer = [];
  outch = false;
  running = true;
  out = home ∷ away ∷ [];
}

events_taken : run own events (start own (home ∷ [])) ≡ some ended
unfolding run step start contains bytes_beq
events_taken = refl

run-delivers_example :
    (ended.out ++ pending ended ≡ home ∷ [] ++ fresh own (map own (home ∷ [])) (received events))
    × (ended.outch ≡ false
        → ended.out ≡ home ∷ [] ++ fresh own (map own (home ∷ [])) (received events))
run-delivers_example = run-delivers own (home ∷ []) events ended events_taken

run-step_enabled_example :
    (is_some (step own (receive away) ended) ≡ ended.running)
    × (is_some (step own cancel ended) ≡ ended.running)
    × (is_some (step own deliver ended) ≡ (ended.running && is_some ended.next))
run-step_enabled_example = run-step_enabled own (home ∷ []) events ended away events_taken
