-- ===== src/Queue/Chan/Close.antt =====
-- What the goroutine of a `ChanQueue` does when `EnqChan` is closed.
use mathlib.Core.List.{Perm, perm_middle}
use mathlib.Core.List.Perm
use mathlib.Core.Path.{subst}
use go_libp2p_peerstore.Prelude.{
  ◌+◌, ◌<◌, true, false, List, [], ◌∷◌, some, Bytes, nat_beq, length-append, ◌≡◌, refl, sym, arith,
  length,
}
use go_libp2p_peerstore.Prelude.Slices.{length-perm}
use go_libp2p_peerstore.Queue.Interface.{PeerQueue, IsPeerQueue}
use go_libp2p_peerstore.Queue.Chan.{
  top, held, returned, ChanQueue, closed, step, step_from, at_select, enqueue_both, process,
}
use go_libp2p_peerstore.Queue.Chan.Order.{IsServing, kept_at}
use go_libp2p_peerstore.Queue.Chan.Service.{receives, drained}

module _ {Queue : Type 0} (pq : PeerQueue Queue) (Before : Bytes → Bytes → Type 0)
    (laws : IsPeerQueue pq Before) where
  -- Let the goroutine serve, with the peers `received`, and hold a peer for `DeqChan` while others wait
  -- in the queue. If it then finds `EnqChan` closed, it returns, and the peer it holds and those that
  -- wait are never sent.
  pub closed-loses :
      (received : List Bytes) (c : ChanQueue Queue) (next : Bytes)
      → IsServing pq Before laws received c
      → c.phase ≡ held next
      → 0 < pq.len c.queue
      → (c' : ChanQueue Queue) × (process pq (closed ∷ []) c ≡ some c')
        × (c'.phase ≡ returned)
        × (length c'.sent + 1 + pq.len c.queue ≡ length received)
  unfolding process step step_from at_select
  closed-loses received c next s e more =
      let opened = s.opened in
      let some_left : nat_beq (pq.len c.queue) 0 ≡ false = ground arith in
      let kept = length-perm (kept_at pq Before laws received c (held next) e s) in
      (
        record c { phase = returned; is_open = true },
        rw (e, opened, some_left) refl,
        refl,
        omega (
          arith,
          kept,
          length-append c.sent (next ∷ s.waiting),
          laws.len-Holds s.waiting c.queue s.holds,
        ),
      )

  -- Let the goroutine serve, with the peers `received`, and hold a peer for `DeqChan` while none waits
  -- in the queue. If it then finds `EnqChan` closed, it goes on, and a receiver that takes two peers is
  -- given the empty peer besides: `DeqChan` has then carried all of `received`, and the empty peer.
  pub closed-sends_empty :
      (received : List Bytes) (c : ChanQueue Queue) (next : Bytes)
      → IsServing pq Before laws received c
      → c.phase ≡ held next
      → pq.len c.queue ≡ 0
      → (c' : ChanQueue Queue) × (process pq (closed ∷ receives 2) c ≡ some c')
        × Perm c'.sent ([] ∷ received)
  unfolding process step step_from at_select enqueue_both
  closed-sends_empty received c next s e none_left =
      let opened = s.opened in
      let (q, e1, h1) = laws.enqueue-Holds [] s.waiting c.queue s.holds in
      let (q', e2, h2) = laws.enqueue-Holds next ([] ∷ s.waiting) q h1 in
      let size = laws.len-Holds s.waiting c.queue s.holds in
      let c1 : ChanQueue Queue = record {
        queue = q';
        phase = top;
        is_open = false;
        sent = c.sent;
      } in
      let (c', out, r, sent, all) =
        drained pq Before laws 2 (next ∷ [] ∷ s.waiting) c1 (omega arith) refl h2 in
      let empty : nat_beq (pq.len c.queue) 0 ≡ true = ground arith in
      (
        c',
        rw (e, opened, empty, e1, e2) r,
        subst (λ xs. Perm xs ([] ∷ received)) (sym sent)
            (Perm.trans (Perm.append_left c.sent (Perm.trans all (Perm.swap [] next s.waiting))) (
              Perm.trans (perm_middle c.sent (next ∷ s.waiting))
                (Perm.cons [] (kept_at pq Before laws received c (held next) e s)))),
      )
