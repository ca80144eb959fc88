-- ===== src/Queue/Interface.antt =====
-- queue/interface.go: `PeerQueue`, and what its implementations promise.
use mathlib.Core.List.{Perm}
use go_libp2p_peerstore.Prelude.{ℕ, ◌<◌, List, ◌∷◌, Option, some, Bytes, ◌≡◌, length, All}

-- The methods of an implementation whose state is `Queue`. `none` is a panic.
pub record PeerQueue (Queue : Type 0) : Type 0 where
  pub len : Queue → ℕ
  pub enqueue : Bytes → Queue → Option Queue
  pub dequeue : Queue → Option (Bytes × Queue)

-- A peer queue holds a bag of peers, and `Dequeue` gives one that comes before all others.
pub record IsPeerQueue {Queue : Type 0} (pq : PeerQueue Queue) (Before : Bytes → Bytes → Type 0)
    : Type 1 where
  pub Before-IsProp : (p q : Bytes) → IsProp (Before p q)
  pub Holds : List Bytes → Queue → Type 0
  pub len-Holds : (ps : List Bytes) (q : Queue) → Holds ps q → pq.len q ≡ length ps
  pub enqueue-Holds :
      (p : Bytes) (ps : List Bytes) (q : Queue)
      → Holds ps q
      → (q' : Queue) × (pq.enqueue p q ≡ some q') × Holds (p ∷ ps) q'
  pub dequeue-Holds :
      (ps : List Bytes) (q : Queue)
      → 0 < length ps
      → Holds ps q
      → (p : Bytes) × (rest : Queue) × (others : List Bytes) × (pq.dequeue q ≡ some (p, rest))
        × Holds others rest
        × Perm (p ∷ others) ps
        × All (Before p) ps
