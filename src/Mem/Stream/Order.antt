-- ===== src/Mem/Stream/Order.antt =====
-- What a stream hands on: every address once, in the order in which it came.
use go_libp2p_peerstore.Prelude.{
  false, ◌&&◌, List, [], ◌∷◌, ◌++◌, map, none, some, Bytes, bytes_eq, int_eq, ◌≡◌, refl, ◌∙◌, arith,
  inl, inr, Option-cases, is_some,
}
use go_libp2p_peerstore.Prelude.Fresh.{fresh}
use mathlib.Core.List.{append_assoc, append-nil}
use go_libp2p_peerstore.Mem.Stream
use go_libp2p_peerstore.Mem.Stream.{
  Event, deliver, receive, cancel, start, on_deliver, on_receive, step, run,
}

module _ {A : Type 0} where
  -- The addresses that the events bring, in order.
  unfoldable pub received : List (Event A) → List A
  received [] = []
  received (deliver ∷ es) = received es
  received (receive a ∷ es) = a ∷ received es
  received (cancel ∷ es) = received es

  -- What waits to be handed on.
  unfoldable pub pending : Stream.Stream A → List A
  pending s = elim s.next [ none ↦ s.buffer | some a ↦ a ∷ s.buffer ]

  -- The channel is enabled exactly when an address waits in `next`, and `next` is filled first.
  pub record IsReady (s : Stream.Stream A) : Type 0 where
    pub enabled : s.outch ≡ is_some s.next
    pub filled : s.next ≡ none → s.buffer ≡ []

module _ {A : Type 0} (bytes : A → Bytes) where
  step-IsReady :
      (e : Event A) (s s' : Stream.Stream A) → IsReady s → step bytes e s ≡ some s' → IsReady s'
  unfolding step
  step-IsReady deliver s s' r h = ground arith
  step-IsReady (receive a) s s' r h = ground arith
  step-IsReady cancel s s' r h = ground arith

  step-pending :
      (e : Event A) (es : List (Event A)) (s s' : Stream.Stream A)
      → IsReady s
      → step bytes e s ≡ some s'
      → s'.out ++ pending s' ++ fresh bytes s'.sent (received es)
        ≡ s.out ++ pending s ++ fresh bytes s.sent (received (e ∷ es))
  unfolding step received pending fresh
  step-pending deliver es s s' r h = elim (Option-cases s.next) [
    | inl idle ↦ absurd (ground arith)
    | inr (a, waits) ↦ ground (arith, append_assoc s.out (a ∷ []) s.buffer)
  ]
  step-pending (receive a) es s s' r h =
      let rest = fresh bytes (bytes a ∷ s.sent) (received es) in
      ground (
        arith,
        append-nil s.out,
        append_assoc s.out (a ∷ []) rest,
        append_assoc s.out (pending s) (a ∷ []),
        append_assoc (s.out ++ pending s) (a ∷ []) rest,
      )
  step-pending cancel es s s' r h = ground arith

  run-pending :
      (es : List (Event A)) (s s' : Stream.Stream A)
      → IsReady s
      → run bytes es s ≡ some s'
      → IsReady s' × (s'.out ++ pending s' ≡ s.out ++ pending s ++ fresh bytes s.sent (received es))
  unfolding run received fresh
  run-pending [] s s' r h = ground (arith, append-nil (s.out ++ pending s))
  run-pending (e ∷ es) s s' r h = elim (Option-cases (step bytes e s)) [
    | inl stuck ↦ absurd (ground arith)
    | inr (t, taken) ↦
        let (ready, same) = run-pending es t s' (step-IsReady e s t r taken) (ground arith) in
        (ready, same ∙ step-pending e es s t r taken)
  ]

  start-IsReady : (initial : List A) → IsReady (start bytes initial)
  unfolding start
  start-IsReady [] = ground arith
  start-IsReady (a ∷ initial) = ground arith

  start-pending :
      (initial : List A) → (start bytes initial).out ++ pending (start bytes initial) ≡ initial
  unfolding start pending
  start-pending [] = refl
  start-pending (a ∷ initial) = refl

  start-sent : (initial : List A) → (start bytes initial).sent ≡ map bytes initial
  unfolding start
  start-sent [] = refl
  start-sent (a ∷ initial) = refl

  -- In every run of the coroutine, whatever the order in which its cases are taken, what the
  -- reader got, followed by what still waits, is the initial addresses followed by those received
  -- that were not sent before, each one once and in order. When the channel to the reader is not
  -- enabled, nothing waits: the reader got all of it.
  pub run-delivers :
      (initial : List A) (es : List (Event A)) (s : Stream.Stream A)
      → run bytes es (start bytes initial) ≡ some s
      → (s.out ++ pending s ≡ initial ++ fresh bytes (map bytes initial) (received es))
        × (s.outch ≡ false → s.out ≡ initial ++ fresh bytes (map bytes initial) (received es))
  unfolding pending
  run-delivers initial es s h =
      let (ready, same) = run-pending es (start bytes initial) s (start-IsReady initial) h in
      let whole : s.out ++ pending s ≡ initial ++ fresh bytes (map bytes initial) (received es) =
        cc (same, start-pending initial, start-sent initial) in
      (whole, λ off. ground (arith, whole, append-nil s.out))

  -- The coroutine never blocks the publisher or its own end: while it runs it can always take an
  -- address and can always be cancelled, and it can deliver exactly when an address waits. After a
  -- cancel it takes nothing more.
  pub run-step_enabled :
      (initial : List A) (es : List (Event A)) (s : Stream.Stream A) (a : A)
      → run bytes es (start bytes initial) ≡ some s
      → (is_some (step bytes (receive a) s) ≡ s.running)
        × (is_some (step bytes cancel s) ≡ s.running)
        × (is_some (step bytes deliver s) ≡ (s.running && is_some s.next))
  unfolding step
  run-step_enabled initial es s a h =
      let (ready, same) = run-pending es (start bytes initial) s (start-IsReady initial) h in
      ground (arith, ready)
