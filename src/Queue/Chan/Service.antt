-- ===== src/Queue/Chan/Service.antt =====
-- Whole runs of the goroutine of a `ChanQueue` while its context lives and `EnqChan` is open.
use mathlib.Core.List.{Perm, append-nil, perm_middle}
use mathlib.Core.List.Perm
use mathlib.Core.Path.{subst}
use mathlib.Core.List.{append_assoc}
use go_libp2p_peerstore.Prelude.{
  ℕ, zero, suc, true, false, List, [], ◌∷◌, ◌++◌, none, some, Bytes, nat_beq, ◌≡◌, refl, sym, ap,
  ◌∙◌, arith, Bool-cases, inl, inr, All, length,
}
use go_libp2p_peerstore.Prelude.Slices.{length-perm}
use go_libp2p_peerstore.Queue.Interface.{PeerQueue, IsPeerQueue}
use go_libp2p_peerstore.Queue.Heap.{◌>>=◌}
use go_libp2p_peerstore.Queue.Chan.{
  top, ChanQueue, Input, turn, enq, closed, deq, done, new_chan_queue, step, step_from, at_top,
  at_select, process,
}
use go_libp2p_peerstore.Queue.Chan.Order.{
  brought, all_brought, is_service, takes, IsServing, kept_at, step-IsServing, step_from-refused,
}

-- A receiver that takes `n` peers: the goroutine passes the top of its loop before each.
abbrev pub receives : ℕ → List Input
receives zero = []
receives (suc n) = turn ∷ deq ∷ receives n

brought-perm :
    (i : Input) (xs ys : List Bytes) → Perm (xs ++ (brought i ++ ys)) (brought i ++ xs ++ ys)
brought-perm turn xs ys = Perm.refl (xs ++ ys)
brought-perm (enq p) xs ys = perm_middle xs ys
brought-perm closed xs ys = Perm.refl (xs ++ ys)
brought-perm deq xs ys = Perm.refl (xs ++ ys)
brought-perm done xs ys = Perm.refl (xs ++ ys)

module _ {Queue : Type 0} (pq : PeerQueue Queue) (Before : Bytes → Bytes → Type 0)
    (laws : IsPeerQueue pq Before) where
  IsServing-perm :
      {xs ys : List Bytes} (c : ChanQueue Queue)
      → Perm xs ys
      → IsServing pq Before laws xs c
      → IsServing pq Before laws ys c
  IsServing-perm c p s = record {
    waiting = s.waiting;
    holds = s.holds;
    running = s.running;
    opened = s.opened;
    kept = Perm.trans s.kept p;
    nearest = s.nearest;
  }

  -- A new `ChanQueue` of an empty queue serves, with nothing received.
  pub new_chan_queue-IsServing :
      (q : Queue) → laws.Holds [] q → IsServing pq Before laws [] (new_chan_queue q)
  unfolding new_chan_queue
  new_chan_queue-IsServing q h = record {
    waiting = [];
    holds = h;
    running = λ r. cc;
    opened = refl;
    kept = Perm.refl [];
    nearest = λ p e. absurd cc;
  }

  -- Let the goroutine serve, with the peers `received`, and let a sequence of inputs end neither the
  -- context nor `EnqChan`. If the goroutine takes the whole sequence, it serves at the end, with the
  -- peers that the sequence brings besides: each was sent, or is in hand, or waits in the queue, as
  -- often as it was received, and the one in hand comes before those that wait.
  pub process-IsServing :
      (received : List Bytes) (is : List Input) (c c' : ChanQueue Queue)
      → IsServing pq Before laws received c
      → All (λ i. is_service i ≡ true) is
      → process pq is c ≡ some c'
      → IsServing pq Before laws (all_brought is ++ received) c'
  unfolding process step
  process-IsServing received [] c c' s v r =
      let same : c ≡ c' = cc in subst (λ x. IsServing pq Before laws received x) same s
  process-IsServing received (i ∷ is) c c' s v r =
      elim (Bool-cases (takes c.phase (pq.len c.queue) i)) [
        | inl t ↦
            let (c1, e, s1) = step-IsServing pq Before laws received c i s t in
            let r1 : process pq is c1 ≡ some c' = sym (ap (λ x. x >>= process pq is) e) ∙ r in
            IsServing-perm c' (brought-perm i (all_brought is) received)
              (process-IsServing (brought i ++ received) is c1 c' s1 v.1 r1)
        | inr t ↦
            let stuck = step_from-refused pq Before laws c c.phase i v.0 t in
            let r1 : none ≡ some c' = sym (ap (λ x. x >>= process pq is) stuck) ∙ r in absurd cc
      ]

  pub drained :
      (n : ℕ) (ps : List Bytes) (c : ChanQueue Queue)
      → length ps ≡ n
      → c.phase ≡ top
      → laws.Holds ps c.queue
      → (c' : ChanQueue Queue) × (out : List Bytes) × (process pq (receives n) c ≡ some c')
        × (c'.sent ≡ c.sent ++ out)
        × Perm out ps
  unfolding process step step_from at_top at_select
  drained zero [] c size e h = (c, [], refl, sym (append-nil c.sent), Perm.refl [])
  drained zero (p ∷ ps) c size e h = absurd (omega arith)
  drained (suc n) ps c size e h =
      let count = laws.len-Holds ps c.queue h in
      let more : nat_beq (pq.len c.queue) 0 ≡ false = ground arith in
      let (p, rest, others, d, hr, same, near) = laws.dequeue-Holds ps c.queue (omega arith) h in
      let c1 : ChanQueue Queue = record {
        queue = rest;
        phase = top;
        is_open = c.is_open;
        sent = c.sent ++ p ∷ [];
      } in
      let (c', out, r, sent, all) = drained n others c1 (omega (arith, length-perm same)) refl hr in
      (
        c',
        p ∷ out,
        rw (e, more, d, r) refl,
        sent ∙ append_assoc c.sent (p ∷ []) out,
        Perm.trans (Perm.cons p all) same,
      )

  -- Let the goroutine serve, with the peers `received`, and stand at the top of its loop. Then a
  -- receiver that takes as many peers as wait in the queue is given them all: `DeqChan` has then
  -- carried all of `received`, each peer as often as it was received.
  pub process-receives :
      (received : List Bytes) (c : ChanQueue Queue)
      → IsServing pq Before laws received c
      → c.phase ≡ top
      → (c' : ChanQueue Queue) × (process pq (receives (pq.len c.queue)) c ≡ some c')
        × Perm c'.sent received
  process-receives received c s e =
      let size = laws.len-Holds s.waiting c.queue s.holds in
      let (c', out, r, sent, all) = drained (pq.len c.queue) s.waiting c (sym size) e s.holds in
      (
        c',
        r,
        subst (λ xs. Perm xs received) (sym sent)
            (Perm.trans (Perm.append_left c.sent all) (kept_at pq Before laws received c top e s)),
      )
