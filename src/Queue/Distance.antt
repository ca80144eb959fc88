-- ===== src/Queue/Distance.antt =====
-- queue/distance.go: `distancePQ`, a queue of peers by their distance to a key. `distance` stands
-- for `ks.XORKeySpace.Key([]byte(p)).Distance(pq.from)`, which another package computes.
use go_libp2p_peerstore.Prelude.{
  ℕ, suc, ◌+◌, ◌<◌, List, [], ◌∷◌, ◌++◌, Option, none, some, Bytes, bytes_eq, int_eq, ◌≡◌, refl, ap,
  ◌∙◌, if◌then◌else◌, arith, length, ltb, length-append,
}
use mathlib.Core.List.{Perm}
use mathlib.Core.List.Perm
use mathlib.Core.Path.{subst}
use go_libp2p_peerstore.Prelude.{◌-◌, take}
use go_libp2p_peerstore.Prelude.Slices.{
  length-perm, take-last, get_or-take, get_or-append, get_elem?-get_or,
}
use go_libp2p_peerstore.Queue.Heap
use go_libp2p_peerstore.Queue.Heap.{PeerMetric, ◌>>=◌, push_last, pop_last, swap, up, down}
use go_libp2p_peerstore.Queue.Heap.Order.{
  nobody, at, key, above, IsHeap, exchanged, swap-some, length-exchanged, at-exchanged,
  key-exchanged, exchanged-perm,
}
use go_libp2p_peerstore.Queue.Heap.Sift.{Restores, up-Restores, down-Restores}

-- The peers of the queue: the queue is its heap, and the key is the parameter `distance`.
unfoldable pub pq_len : List PeerMetric → ℕ
pq_len ph = length ph

-- `Dequeue`: `none` is its panic on an empty queue.
unfoldable pub dequeue : List PeerMetric → Option (Bytes × List PeerMetric)
dequeue ph = if ltb (length ph) 1 then none else (Heap.pop ph >>= λ (o, rest). some (o.peer, rest))

module _ (distance : Bytes → ℕ) where
  unfoldable pub new_distance_pq : List PeerMetric
  new_distance_pq = []

  unfoldable pub enqueue : Bytes → List PeerMetric → Option (List PeerMetric)
  enqueue p ph = Heap.push ph (record { peer = p; metric = distance p })

-- The queue's invariant: it is a heap.
abbrev pub IsQueue : List PeerMetric → Type 0
IsQueue ph = IsHeap (length ph) ph

pub push-Restores :
    (ph : List PeerMetric) (x : PeerMetric)
    → IsQueue ph
    → Restores (length ph + 1) (ph ++ x ∷ []) (Heap.push ph x)
unfolding Heap.push key
push-Restores ph x h =
    let size = length-append ph (x ∷ []) in
    up-Restores (length ph + 1) (length ph + 1) (ph ++ x ∷ []) (length ph) (omega (arith, size))
      (omega arith) (omega arith)
      (record {
        settled = λ c p l other. ground (
          arith,
          h c,
          get_or-append ph (x ∷ []) c nobody,
          get_or-append ph (x ∷ []) (above c) nobody,
        );
        spanned = λ c p l up_c deep. absurd (omega arith);
      })

-- What `heap.Pop` returns: an entry of the least metric, and a queue of the others.
pub record IsPopped (ph : List PeerMetric) (r : PeerMetric × List PeerMetric) : Type 0 where
  pub queue : IsQueue r.1
  pub same_entries : Perm (r.0 ∷ r.1) ph
  pub first : r.0 ≡ at ph 0

pub append_one-perm : {A : Type 0} (x : A) (xs : List A) → Perm (x ∷ xs) (xs ++ x ∷ [])
append_one-perm x [] = Perm.refl (x ∷ [])
append_one-perm x (y ∷ xs) = Perm.trans (Perm.swap y x xs) (Perm.cons y (append_one-perm x xs))

-- What is left to show once `down` has restored the heap in front of the entry to return.
popped :
    (ph : List PeerMetric) (n : ℕ)
    → length ph ≡ suc n
    → Restores n (exchanged ph 0 n) (down (length ph + 1) (exchanged ph 0 n) 0 n)
    → (r : PeerMetric × List PeerMetric) × (Heap.pop ph ≡ some r) × IsPopped ph r
unfolding Heap.pop pop_last key
popped ph n size s =
    let hn : n < length ph = omega arith in
    let h0 : 0 < length ph = omega arith in
    let size' : length s.value ≡ suc n =
      length-perm s.same_entries ∙ length-exchanged ph 0 n h0 hn ∙ size in
    let first : at s.value n ≡ at ph 0 =
      s.kept n (omega arith) ∙ ground (arith, at-exchanged ph 0 n h0 hn n) in
    let whole = take-last n s.value nobody size' in
    let take-length : length (take n s.value) ≡ n =
      ground (arith, length-append (take n s.value) (at s.value n ∷ []), ap length whole) in
    let cut : Perm (at s.value n ∷ take n s.value) s.value =
      subst (λ xs. Perm (at s.value n ∷ take n s.value) xs) whole
        (append_one-perm (at s.value n) (take n s.value)) in
    let last : length ph - 1 ≡ n = omega arith in
    let last' : length s.value - 1 ≡ n = omega arith in
    (
      (at s.value n, take n s.value),
      rw
          (
            last,
            swap-some ph 0 n h0 hn,
            s.returned,
            last',
            get_elem?-get_or s.value n nobody (omega arith),
          )
          refl,
      record {
        queue = λ c p l. ground (
          arith,
          take-length,
          s.heap c,
          get_or-take n c s.value nobody,
          get_or-take n (above c) s.value nobody,
        );
        same_entries = Perm.trans cut (Perm.trans s.same_entries (exchanged-perm ph 0 n h0 hn));
        first = first;
      },
    )

pub pop-IsPopped :
    (ph : List PeerMetric) (n : ℕ)
    → length ph ≡ suc n
    → IsQueue ph
    → (r : PeerMetric × List PeerMetric) × (Heap.pop ph ≡ some r) × IsPopped ph r
unfolding Heap.pop pop_last
pop-IsPopped ph n size h =
    let hn : n < length ph = omega arith in
    let h0 : 0 < length ph = omega arith in
    let size' = length-exchanged ph 0 n h0 hn in
    let new = key-exchanged ph 0 n h0 hn in
    let s : Restores n (exchanged ph 0 n) (down (length ph + 1) (exchanged ph 0 n) 0 n) =
      down-Restores (length ph + 1) n (exchanged ph 0 n) 0 (omega arith) (omega arith) (omega arith)
        (record {
          settled = λ c p l other. ground (arith, new c, new (above c), h c);
          spanned = λ c p l up_c deep. absurd (omega arith);
        }) in
    popped ph n size s
