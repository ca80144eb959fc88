-- ===== src/Queue/Heap/Order.antt =====
-- The heap order on a slice, and what a swap does to it.
use go_libp2p_peerstore.Prelude.{
  ℕ, zero, suc, ◌+◌, ◌≤◌, ◌<◌, List, [], ◌∷◌, some, bytes_eq, int_eq, ◌≡◌, ◌∙◌, if◌then◌else◌,
  arith, length,
}
use mathlib.Core.Path.{subst}
use mathlib.Core.List.{Perm}
use mathlib.Core.List.Perm
use go_libp2p_peerstore.Prelude.{◌-◌, ◌/◌, get_or, set, ltb, nat_beq}
use go_libp2p_peerstore.Prelude.Slices.{get_elem?-get_or, get_or-set, set-exchange, length-set}
use go_libp2p_peerstore.Queue.Heap.{PeerMetric, less, swap}

-- What a read out of range would give. The lemmas read in range only.
abbrev pub nobody : PeerMetric
nobody = record { peer = []; metric = 0 }

abbrev pub at : List PeerMetric → ℕ → PeerMetric
at ph i = get_or ph i nobody

-- The metric at an index.
unfoldable pub key : List PeerMetric → ℕ → ℕ
key ph i = (at ph i).metric

abbrev pub above : ℕ → ℕ
above c = (c - 1) / 2

-- Among the first `n` entries, none is less than the one above it.
abbrev pub IsHeap : ℕ → List PeerMetric → Type 0
IsHeap n ph = (c : ℕ) → 0 < c → c < n → key ph (above c) ≤ key ph c

-- The root is least.
root_least_within :
    (bound : ℕ) (n : ℕ) (ph : List PeerMetric) (i : ℕ)
    → IsHeap n ph
    → i < bound
    → i < n
    → key ph 0 ≤ key ph i
root_least_within zero n ph i h b l = absurd (omega arith)
root_least_within (suc bound) n ph i h b l =
    ground (arith, h i, root_least_within bound n ph (above i) h)

pub root_least : (n : ℕ) (ph : List PeerMetric) (i : ℕ) → IsHeap n ph → i < n → key ph 0 ≤ key ph i
root_least n ph i h l = root_least_within (i + 1) n ph i h (omega arith) l

-- The slice with two entries exchanged.
unfoldable pub exchanged : List PeerMetric → ℕ → ℕ → List PeerMetric
exchanged ph i j = set (set ph i (at ph j)) j (at ph i)

module _ (ph : List PeerMetric) (i j : ℕ) (hi : i < length ph) (hj : j < length ph) where
  pub less-some : less ph i j ≡ some (ltb (key ph i) (key ph j))
  unfolding less key
  less-some = rw (get_elem?-get_or ph i nobody hi, get_elem?-get_or ph j nobody hj)

  pub swap-some : swap ph i j ≡ some (exchanged ph i j)
  unfolding swap exchanged
  swap-some = rw (get_elem?-get_or ph i nobody hi, get_elem?-get_or ph j nobody hj)

  pub length-exchanged : length (exchanged ph i j) ≡ length ph
  unfolding exchanged
  length-exchanged = length-set (set ph i (at ph j)) j (at ph i) ∙ length-set ph i (at ph j)

  pub at-exchanged :
      (c : ℕ)
      → at (exchanged ph i j) c
        ≡ (if nat_beq j c then at ph i else if nat_beq i c then at ph j else at ph c)
  unfolding exchanged
  at-exchanged c =
      get_or-set (set ph i (at ph j)) j c (at ph i) nobody
        (omega (arith, length-set ph i (at ph j)))
      ∙ ground (arith, get_or-set ph i c (at ph j) nobody hi)

  pub key-exchanged :
      (c : ℕ)
      → key (exchanged ph i j) c
        ≡ (if nat_beq j c then key ph i else if nat_beq i c then key ph j else key ph c)
  unfolding key
  key-exchanged c = ground (arith, at-exchanged c)

  pub exchanged-perm : Perm (exchanged ph i j) ph
  unfolding exchanged
  exchanged-perm =
      let once = set ph i (at ph j) in
      let held : at once j ≡ at ph j = ground (arith, get_or-set ph i j (at ph j) nobody hi) in
      let second : Perm (at ph j ∷ set once j (at ph i)) (at ph i ∷ once) =
        subst (λ x. Perm (x ∷ set once j (at ph i)) (at ph i ∷ once)) held
          (set-exchange (at ph i) nobody once j (omega (arith, length-set ph i (at ph j)))) in
      Perm.cons_inv (Perm.trans second (set-exchange (at ph j) nobody ph i hi))
