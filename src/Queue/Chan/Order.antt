-- ===== src/Queue/Chan/Order.antt =====
-- What the goroutine of a `ChanQueue` keeps while its context lives and `EnqChan` is open.
use mathlib.Core.List.{Perm, perm_middle}
use mathlib.Core.List.Perm
use mathlib.Core.Path.{subst}
use mathlib.Core.List.{append_assoc}
use go_libp2p_peerstore.Prelude.{
  ℕ, Bool, true, false, List, [], ◌∷◌, ◌++◌, none, some, Bytes, nat_beq, ◌≡◌, ◌≢◌, refl, sym, arith,
  not, All, length,
}
use go_libp2p_peerstore.Prelude.Slices.{All-perm}
use go_libp2p_peerstore.Queue.Interface.{PeerQueue, IsPeerQueue}
use go_libp2p_peerstore.Queue.Chan.{
  Phase, top, held, returned, ChanQueue, Input, turn, enq, closed, deq, done, step, step_from,
  at_top, at_select, enqueue_both,
}

-- The peers that an input brings, and those of a sequence of inputs.
abbrev pub brought : Input → List Bytes
brought turn = []
brought (enq p) = p ∷ []
brought closed = []
brought deq = []
brought done = []

abbrev pub all_brought : List Input → List Bytes
all_brought [] = []
all_brought (i ∷ is) = brought i ++ all_brought is

-- The inputs while the context lives and `EnqChan` is open.
abbrev pub is_service : Input → Bool
is_service turn = true
is_service (enq p) = true
is_service closed = false
is_service deq = true
is_service done = false

abbrev pub in_hand : Phase → List Bytes
in_hand top = []
in_hand (held p) = p ∷ []
in_hand returned = []

-- The inputs of the service that the goroutine takes in a phase, by the length of its queue.
abbrev pub takes : Phase → ℕ → Input → Bool
takes top n turn = not (nat_beq n 0)
takes top n (enq p) = nat_beq n 0
takes top n closed = false
takes top n deq = false
takes top n done = false
takes (held p) n turn = false
takes (held p) n (enq q) = true
takes (held p) n closed = false
takes (held p) n deq = true
takes (held p) n done = false
takes returned n i = false

All-none : {A : Type 0} (P : A → Type 0) (xs : List A) → length xs ≡ 0 → All P xs
All-none P [] h = tt
All-none P (x ∷ xs) h = absurd (omega arith)

module _ {Queue : Type 0} (pq : PeerQueue Queue) (Before : Bytes → Bytes → Type 0)
    (laws : IsPeerQueue pq Before) where
  -- The goroutine serves: every peer of `received` was sent, or is in hand, or waits in the queue, and
  -- the one in hand comes before those that wait.
  pub record IsServing (received : List Bytes) (c : ChanQueue Queue) : Type 0 where
    pub waiting : List Bytes
    pub holds : laws.Holds waiting c.queue
    pub running : c.phase ≢ returned
    pub opened : c.is_open ≡ true
    pub kept : Perm (c.sent ++ (in_hand c.phase ++ waiting)) received
    pub nearest : (p : Bytes) → c.phase ≡ held p → All (Before p) waiting

  pub kept_at :
      (received : List Bytes) (c : ChanQueue Queue) (phase : Phase)
      → c.phase ≡ phase
      → (s : IsServing received c) → Perm (c.sent ++ (in_hand phase ++ s.waiting)) received
  kept_at received c phase e s =
      subst (λ x. Perm (c.sent ++ (in_hand x ++ s.waiting)) received) e s.kept

  turn-IsServing :
      (received : List Bytes) (c : ChanQueue Queue)
      → c.phase ≡ top
      → (s : IsServing received c) → nat_beq (pq.len c.queue) 0 ≡ false
      → (c' : ChanQueue Queue) × (at_top pq turn c ≡ some c') × IsServing received c'
  unfolding at_top
  turn-IsServing received c e s more =
      let size = laws.len-Holds s.waiting c.queue s.holds in
      let (p, rest, others, d, h, same, near) =
        laws.dequeue-Holds s.waiting c.queue (ground arith) s.holds in
      let near' = All-perm (Before p) (laws.Before-IsProp p) (Perm.symm same) near in
      (
        record c { queue = rest; phase = held p },
        rw (more, d) refl,
        record {
          waiting = others;
          holds = h;
          running = λ r. cc;
          opened = s.opened;
          kept = Perm.trans (Perm.append_left c.sent same) (kept_at received c top e s);
          nearest = λ q held_q.
              let which : p ≡ q = cc in subst (λ x. All (Before x) others) which near'.1;
        },
      )

  wait-IsServing :
      (received : List Bytes) (c : ChanQueue Queue) (p : Bytes)
      → c.phase ≡ top
      → (s : IsServing received c) → nat_beq (pq.len c.queue) 0 ≡ true
      → (c' : ChanQueue Queue) × (at_top pq (enq p) c ≡ some c') × IsServing (p ∷ received) c'
  unfolding at_top
  wait-IsServing received c p e s empty =
      let size = laws.len-Holds s.waiting c.queue s.holds in
      let opened = s.opened in
      (
        record c { phase = held p; is_open = true },
        rw (empty, opened) refl,
        record {
          waiting = s.waiting;
          holds = s.holds;
          running = λ r. cc;
          opened = refl;
          kept =
              Perm.trans (perm_middle c.sent s.waiting) (Perm.cons p (kept_at received c top e s));
          nearest = λ q held_q. All-none (Before q) s.waiting (ground arith);
        },
      )

  take-IsServing :
      (received : List Bytes) (c : ChanQueue Queue) (next p : Bytes)
      → c.phase ≡ held next
      → (s : IsServing received c)
      → (c' : ChanQueue Queue) × (at_select pq next (enq p) c ≡ some c')
        × IsServing (p ∷ received) c'
  unfolding at_select enqueue_both
  take-IsServing received c next p e s =
      let opened = s.opened in
      let (q, e1, h1) = laws.enqueue-Holds p s.waiting c.queue s.holds in
      let (q', e2, h2) = laws.enqueue-Holds next (p ∷ s.waiting) q h1 in
      (
        record { queue = q'; phase = top; is_open = true; sent = c.sent },
        rw (opened, e1, e2) refl,
        record {
          waiting = next ∷ p ∷ s.waiting;
          holds = h2;
          running = λ r. cc;
          opened = refl;
          kept = Perm.trans (Perm.append_left c.sent (Perm.swap p next s.waiting)) (
              Perm.trans (perm_middle c.sent (next ∷ s.waiting))
                (Perm.cons p (kept_at received c (held next) e s)));
          nearest = λ r h. absurd cc;
        },
      )

  send-IsServing :
      (received : List Bytes) (c : ChanQueue Queue) (next : Bytes)
      → c.phase ≡ held next
      → (s : IsServing received c)
      → (c' : ChanQueue Queue) × (at_select pq next deq c ≡ some c') × IsServing received c'
  unfolding at_select
  send-IsServing received c next e s = (
    record c { phase = top; sent = c.sent ++ next ∷ [] },
    refl,
    record {
      waiting = s.waiting;
      holds = s.holds;
      running = λ r. cc;
      opened = s.opened;
      kept =
          subst (λ xs. Perm xs received) (sym (append_assoc c.sent (next ∷ []) s.waiting))
            (kept_at received c (held next) e s);
      nearest = λ r h. absurd cc;
    },
  )

  step_from-IsServing :
      (received : List Bytes) (c : ChanQueue Queue) (phase : Phase) (i : Input)
      → c.phase ≡ phase
      → (s : IsServing received c) → takes phase (pq.len c.queue) i ≡ true
      → (c' : ChanQueue Queue) × (step_from pq phase i c ≡ some c')
        × IsServing (brought i ++ received) c'
  unfolding step_from
  step_from-IsServing received c top turn e s t = turn-IsServing received c e s (ground arith)
  step_from-IsServing received c top (enq p) e s t = wait-IsServing received c p e s t
  step_from-IsServing received c top closed e s t = absurd cc
  step_from-IsServing received c top deq e s t = absurd cc
  step_from-IsServing received c top done e s t = absurd cc
  step_from-IsServing received c (held p) turn e s t = absurd cc
  step_from-IsServing received c (held p) (enq q) e s t = take-IsServing received c p q e s
  step_from-IsServing received c (held p) closed e s t = absurd cc
  step_from-IsServing received c (held p) deq e s t = send-IsServing received c p e s
  step_from-IsServing received c (held p) done e s t = absurd cc
  step_from-IsServing received c returned i e s t = absurd cc

  -- An input of the service that the goroutine does not take in its phase gives nothing.
  pub step_from-refused :
      (c : ChanQueue Queue) (phase : Phase) (i : Input)
      → is_service i ≡ true
      → takes phase (pq.len c.queue) i ≡ false
      → step_from pq phase i c ≡ none
  unfolding step_from at_top at_select
  step_from-refused c top turn v t = ground arith
  step_from-refused c top (enq p) v t = rw t
  step_from-refused c top closed v t = absurd cc
  step_from-refused c top deq v t = refl
  step_from-refused c top done v t = absurd cc
  step_from-refused c (held p) turn v t = refl
  step_from-refused c (held p) (enq q) v t = absurd cc
  step_from-refused c (held p) closed v t = absurd cc
  step_from-refused c (held p) deq v t = absurd cc
  step_from-refused c (held p) done v t = absurd cc
  step_from-refused c returned i v t = refl

  -- A goroutine that serves goes on serving, with the peer that the input brings, on every input
  -- that it takes in its phase.
  pub step-IsServing :
      (received : List Bytes) (c : ChanQueue Queue) (i : Input)
      → IsServing received c
      → takes c.phase (pq.len c.queue) i ≡ true
      → (c' : ChanQueue Queue) × (step pq i c ≡ some c') × IsServing (brought i ++ received) c'
  unfolding step
  step-IsServing received c i s t = step_from-IsServing received c c.phase i refl s t
