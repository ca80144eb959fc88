-- ===== src/Queue/Chan.antt =====
-- queue/sync.go: the goroutine of `ChanQueue.process`, as a machine that takes one input at a time.
-- A channel operation of the goroutine is an input, and so is the pass through the top of the loop
-- that takes the next peer from a queue that holds some. An input that the goroutine does not
-- wait for in its state gives `none`, and so does a panic of the queue.
pub mod Order
pub mod Service
pub mod Close
use go_libp2p_peerstore.Prelude.{
  ℕ, Bool, true, false, List, [], ◌∷◌, ◌++◌, Option, none, some, Bytes, if◌then◌else◌, nat_beq,
}
use go_libp2p_peerstore.Queue.Interface.{PeerQueue}
use go_libp2p_peerstore.Queue.Heap.{◌>>=◌}

-- Where the goroutine stands: at the top of its loop, before the second `select` with the peer in
-- `next`, or returned.
pub data Phase : Type 0 where
  top : Phase
  held : Bytes → Phase
  returned : Phase

-- `is_open` tells that the goroutine's `enqChan` is not nil. `sent` are the peers that `DeqChan` has
-- carried.
pub record ChanQueue (Queue : Type 0) : Type 0 where
  pub queue : Queue
  pub phase : Phase
  pub is_open : Bool
  pub sent : List Bytes

-- What may happen: a pass through the top of the loop, a peer on `EnqChan`, a receive that finds
-- `EnqChan` closed, a receiver on `DeqChan`, and the end of the context.
pub data Input : Type 0 where
  turn : Input
  enq : Bytes → Input
  closed : Input
  deq : Input
  done : Input

-- `NewChanQueue`
unfoldable pub new_chan_queue : {Queue : Type 0} → Queue → ChanQueue Queue
new_chan_queue q = record { queue = q; phase = top; is_open = true; sent = [] }

module _ {Queue : Type 0} (pq : PeerQueue Queue) where
  -- `cq.Queue.Enqueue(item)`, `cq.Queue.Enqueue(next)`, and back to the top of the loop.
  unfoldable pub enqueue_both : Bytes → Bytes → Bool → ChanQueue Queue → Option (ChanQueue Queue)
  enqueue_both item next is_open c = do
    q ← pq.enqueue item c.queue
    q' ← pq.enqueue next q
    some (record { queue = q'; phase = top; is_open = is_open; sent = c.sent })

  -- At the top of the loop: an empty queue waits, another gives its next peer.
  unfoldable pub at_top : Input → ChanQueue Queue → Option (ChanQueue Queue)
  at_top turn c =
      let next : Option (ChanQueue Queue) = do
        (p, rest) ← pq.dequeue c.queue
        some (record { queue = rest; phase = held p; is_open = c.is_open; sent = c.sent })
      in if nat_beq (pq.len c.queue) 0 then none else next
  at_top (enq p) c =
      if nat_beq (pq.len c.queue) 0
      then (if c.is_open
          then some (record { queue = c.queue; phase = held p; is_open = true; sent = c.sent })
          else none)
      else none
  at_top closed c =
      if nat_beq (pq.len c.queue) 0
      then (if c.is_open
          then some (record { queue = c.queue; phase = returned; is_open = true; sent = c.sent })
          else none)
      else none
  at_top deq c = none
  at_top done c =
      if nat_beq (pq.len c.queue) 0
      then some (record { queue = c.queue; phase = returned; is_open = c.is_open; sent = c.sent })
      else none

  -- The second `select`, with the peer `next`. A closed channel gives the empty peer.
  unfoldable pub at_select : Bytes → Input → ChanQueue Queue → Option (ChanQueue Queue)
  at_select next turn c = none
  at_select next (enq item) c = if c.is_open then enqueue_both item next true c else none
  at_select next closed c =
      if c.is_open
      then (if nat_beq (pq.len c.queue) 0
          then enqueue_both [] next false c
          else some (record { queue = c.queue; phase = returned; is_open = true; sent = c.sent }))
      else none
  at_select next deq c =
      some
        (record { queue = c.queue; phase = top; is_open = c.is_open; sent = c.sent ++ next ∷ [] })
  at_select next done c =
      some (record { queue = c.queue; phase = returned; is_open = c.is_open; sent = c.sent })

  unfoldable pub step_from : Phase → Input → ChanQueue Queue → Option (ChanQueue Queue)
  step_from top i c = at_top i c
  step_from (held next) i c = at_select next i c
  step_from returned i c = none

  unfoldable pub step : Input → ChanQueue Queue → Option (ChanQueue Queue)
  step i c = step_from c.phase i c

  -- `process`: the inputs in the order in which they happen.
  unfoldable pub process : List Input → ChanQueue Queue → Option (ChanQueue Queue)
  process [] c = some c
  process (i ∷ is) c = step i c >>= process is
