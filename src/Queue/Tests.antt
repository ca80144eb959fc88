-- ===== src/Queue/Tests.antt =====
-- The package's example of the queue, and the theorems at concrete inputs.
use mathlib.Core.List.{Perm}
use mathlib.Core.List.Perm
use go_libp2p_peerstore.Prelude.{
  ℕ, ◌+◌, ◌≤◌, true, List, [], ◌∷◌, none, some, Bytes, ◌≡◌, refl, length, zero, suc, arith,
}
use go_libp2p_peerstore.Queue.Heap
use go_libp2p_peerstore.Queue.Heap.{
  PeerMetric, ◌>>=◌, push_last, pop_last, less, swap, up, down, child,
}
use go_libp2p_peerstore.Queue.Distance.{new_distance_pq, enqueue, dequeue, pq_len, IsQueue}
use go_libp2p_peerstore.Queue.Heap.Order.{key}
use go_libp2p_peerstore.Queue.Drain.{
  fill, drain, IsRanked, IsQueueOf, drain-fill, enqueue-IsQueueOf, new_distance_pq-IsQueueOf,
  distance_pq, distance_pq-IsPeerQueue,
}
use go_libp2p_peerstore.Queue.Interface.{PeerQueue, IsPeerQueue}
use go_libp2p_peerstore.Queue.Chan.{
  Input, turn, enq, closed, deq, ChanQueue, top, held, returned, new_chan_queue, process, step,
  step_from, at_top, at_select, enqueue_both,
}
use go_libp2p_peerstore.Queue.Chan.Order.{IsServing}
use go_libp2p_peerstore.Queue.Chan.Service.{
  process-IsServing, process-receives, receives, new_chan_queue-IsServing,
}
use go_libp2p_peerstore.Queue.Chan.Close.{closed-loses, closed-sends_empty}

-- A peer is one byte, its distance the byte.
abbrev distance : Bytes → ℕ
distance [] = 0
distance (n ∷ p) = n

abbrev peer : ℕ → Bytes
peer n = n ∷ []

-- The order of the package's test.
test_order :
    fill distance (peer 3 ∷ peer 1 ∷ peer 4 ∷ peer 2 ∷ peer 1 ∷ []) [] >>= drain 5
    ≡ some (peer 1 ∷ peer 1 ∷ peer 2 ∷ peer 3 ∷ peer 4 ∷ [])
unfolding fill drain enqueue dequeue Heap.push Heap.pop push_last pop_last less swap up down child
test_order = refl

dequeue_empty : dequeue [] ≡ none
unfolding dequeue
dequeue_empty = refl

abbrev three : List Bytes
three = peer 3 ∷ peer 1 ∷ peer 2 ∷ []

drain-fill_example :
    (out : List Bytes) × (fill distance three (new_distance_pq distance) >>= drain 3 ≡ some out)
    × Perm out three
    × IsRanked distance out
drain-fill_example = drain-fill distance three

abbrev e1 : PeerMetric
e1 = record { peer = peer 1; metric = 1 }

abbrev e2 : PeerMetric
e2 = record { peer = peer 2; metric = 2 }

abbrev e3 : PeerMetric
e3 = record { peer = peer 3; metric = 3 }

-- The heap of the three peers.
heap_of_three : fill distance three [] ≡ some (e1 ∷ e3 ∷ e2 ∷ [])
unfolding fill enqueue Heap.push push_last less swap up
heap_of_three = refl

abbrev pq : PeerQueue (List PeerMetric)
pq = distance_pq distance

abbrev laws : IsPeerQueue pq (λ p q. distance p ≤ distance q)
laws = distance_pq-IsPeerQueue distance

abbrev Nearer : Bytes → Bytes → Type 0
Nearer p q = distance p ≤ distance q

three-IsQueue : IsQueue (e1 ∷ e3 ∷ e2 ∷ [])
unfolding key
three-IsQueue zero p l = absurd (omega arith)
three-IsQueue (suc zero) p l = omega arith
three-IsQueue (suc (suc zero)) p l = omega arith
three-IsQueue (suc (suc (suc c))) p l = absurd (omega arith)

three-IsQueueOf : IsQueueOf distance three (e1 ∷ e3 ∷ e2 ∷ [])
three-IsQueueOf = record {
  heap = three-IsQueue;
  measured = (refl, (refl, (refl, tt)));
  same_peers = Perm.trans (Perm.swap (peer 3) (peer 1) (peer 2 ∷ [])) (Perm.refl three);
}

enqueue-IsQueueOf_example :
    (q : List PeerMetric) × (enqueue distance (peer 0) (e1 ∷ e3 ∷ e2 ∷ []) ≡ some q)
    × IsQueueOf distance (peer 0 ∷ three) q
enqueue-IsQueueOf_example =
    enqueue-IsQueueOf distance (peer 0) three (e1 ∷ e3 ∷ e2 ∷ []) three-IsQueueOf

abbrev fresh_queue : ChanQueue (List PeerMetric)
fresh_queue = new_chan_queue []

fresh_queue-IsServing : IsServing pq Nearer laws [] fresh_queue
unfolding distance_pq-IsPeerQueue new_distance_pq
fresh_queue-IsServing =
    new_chan_queue-IsServing pq Nearer laws [] (new_distance_pq-IsQueueOf distance)

-- Two peers come, the nearer one is taken in hand and then sent.
abbrev busy : List Input
busy = enq (peer 3) ∷ enq (peer 1) ∷ turn ∷ []

abbrev holding : ChanQueue (List PeerMetric)
holding = record { queue = e3 ∷ []; phase = held (peer 1); is_open = true; sent = [] }

holding-IsServing : IsServing pq Nearer laws (peer 3 ∷ peer 1 ∷ []) holding
unfolding process step step_from at_top at_select enqueue_both new_chan_queue enqueue dequeue pq_len
    Heap.push Heap.pop push_last pop_last less swap up down child
holding-IsServing =
    process-IsServing pq Nearer laws [] busy fresh_queue holding fresh_queue-IsServing
      (refl, (refl, (refl, tt))) refl

process-IsServing_example : IsServing pq Nearer laws (peer 3 ∷ peer 1 ∷ []) holding
unfolding process step step_from at_top at_select enqueue_both new_chan_queue enqueue dequeue pq_len
    Heap.push Heap.pop push_last pop_last less swap up down child
process-IsServing_example =
    process-IsServing pq Nearer laws [] busy fresh_queue holding fresh_queue-IsServing
      (refl, (refl, (refl, tt))) refl

sent_one-IsServing :
    IsServing pq Nearer laws
      (peer 3 ∷ peer 1 ∷ [])
      (record { queue = e3 ∷ []; phase = top; is_open = true; sent = peer 1 ∷ [] })
unfolding process step step_from at_select
sent_one-IsServing =
    process-IsServing pq Nearer laws (peer 3 ∷ peer 1 ∷ []) (deq ∷ []) holding
      (record { queue = e3 ∷ []; phase = top; is_open = true; sent = peer 1 ∷ [] })
      holding-IsServing (refl, tt) refl

process-receives_example :
    (c' : ChanQueue (List PeerMetric)) × (process pq
        (receives (pq.len (e3 ∷ [])))
        (record { queue = e3 ∷ []; phase = top; is_open = true; sent = peer 1 ∷ [] })
      ≡ some c')
    × Perm c'.sent (peer 3 ∷ peer 1 ∷ [])
process-receives_example =
    process-receives pq Nearer laws (peer 3 ∷ peer 1 ∷ [])
      (record { queue = e3 ∷ []; phase = top; is_open = true; sent = peer 1 ∷ [] })
      sent_one-IsServing refl

closed-loses_example :
    (c' : ChanQueue (List PeerMetric)) × (process pq (closed ∷ []) holding ≡ some c')
    × (c'.phase ≡ returned)
    × (length c'.sent + 1 + pq.len (e3 ∷ []) ≡ 2)
unfolding pq_len
closed-loses_example =
    closed-loses pq Nearer laws (peer 3 ∷ peer 1 ∷ []) holding (peer 1) holding-IsServing refl
      (omega arith)

abbrev last_one : ChanQueue (List PeerMetric)
last_one = record { queue = []; phase = held (peer 3); is_open = true; sent = [] }

last_one-IsServing : IsServing pq Nearer laws (peer 3 ∷ []) last_one
unfolding process step step_from at_top new_chan_queue pq_len
last_one-IsServing =
    process-IsServing pq Nearer laws [] (enq (peer 3) ∷ []) fresh_queue last_one
      fresh_queue-IsServing (refl, tt) refl

closed-sends_empty_example :
    (c' : ChanQueue (List PeerMetric)) × (process pq (closed ∷ receives 2) last_one ≡ some c')
    × Perm c'.sent ([] ∷ peer 3 ∷ [])
unfolding pq_len
closed-sends_empty_example =
    closed-sends_empty pq Nearer laws (peer 3 ∷ []) last_one (peer 3) last_one-IsServing refl refl
