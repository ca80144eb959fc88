-- ===== src/Queue/Heap/Sift.antt =====
-- `up` and `down`: each ends within its fuel and restores the heap order.
use go_libp2p_peerstore.Prelude.{
  ℕ, zero, suc, ◌+◌, ◌≤◌, ◌<◌, List, Option, some, bytes_eq, int_eq, ◌≡◌, ◌≢◌, ◌⊎◌, refl, ◌∙◌,
  arith, inl, inr, Bool-cases, length,
}
use mathlib.Core.List.{Perm}
use mathlib.Core.List.Perm
use go_libp2p_peerstore.Prelude.{◌*◌, ltb, nat_beq}
use go_libp2p_peerstore.Queue.Heap.{PeerMetric, up, down, child}
use go_libp2p_peerstore.Queue.Heap.Order.{
  at, key, above, IsHeap, exchanged, less-some, swap-some, length-exchanged, at-exchanged,
  key-exchanged, exchanged-perm,
}

-- The call returns a slice of the same entries whose first `n` are a heap. It leaves the others
-- where they are.
pub record Restores (n : ℕ) (ph : List PeerMetric) (result : Option (List PeerMetric))
    : Type 0 where
  pub value : List PeerMetric
  pub returned : result ≡ some value
  pub heap : IsHeap n value
  pub same_entries : Perm value ph
  pub kept : (c : ℕ) → n ≤ c → at value c ≡ at ph c

-- Only the entry at `j` may be less than the one above it; those below `j` are no less than the
-- one above `j`.
pub record IsRising (n : ℕ) (ph : List PeerMetric) (j : ℕ) : Type 0 where
  pub settled : (c : ℕ) → 0 < c → c < n → c ≢ j → key ph (above c) ≤ key ph c
  pub spanned : (c : ℕ) → 0 < c → c < n → above c ≡ j → 0 < j → key ph (above j) ≤ key ph c

-- What a call restores on an exchanged slice, it restores on the slice.
Restores-exchanged :
    (n : ℕ) (ph : List PeerMetric) (i j : ℕ) (result : Option (List PeerMetric))
    → n ≤ length ph
    → i < n
    → j < n
    → Restores n (exchanged ph i j) result
    → Restores n ph result
Restores-exchanged n ph i j result size hi hj r = record {
  value = r.value;
  returned = r.returned;
  heap = r.heap;
  same_entries = Perm.trans r.same_entries (exchanged-perm ph i j (omega arith) (omega arith));
  kept = λ c l. r.kept c l ∙ ground (arith, at-exchanged ph i j (omega arith) (omega arith) c);
}

exchanged-IsRising :
    (n : ℕ) (ph : List PeerMetric) (j : ℕ)
    → n ≤ length ph
    → j < n
    → 0 < j
    → key ph j < key ph (above j)
    → IsRising n ph j
    → IsRising n (exchanged ph (above j) j) (above j)
exchanged-IsRising n ph j size inside deep below r =
    let new = key-exchanged ph (above j) j (omega arith) (omega arith) in
    record {
      settled = λ c p l other. ground (arith, new c, new (above c), r.settled c, r.spanned c);
      spanned = λ c p l up_c deeper.
          ground
            (arith, new c, new (above (above j)), r.settled c, r.settled (above j), r.spanned c);
    }

-- `up` puts the entry at `j` where it belongs.
pub up-Restores :
    (fuel n : ℕ) (ph : List PeerMetric) (j : ℕ)
    → n ≤ length ph
    → j < n
    → j < fuel
    → IsRising n ph j
    → Restores n ph (up fuel ph j)
unfolding up
up-Restores zero n ph j size inside enough r = absurd (omega arith)
up-Restores (suc fuel) n ph j size inside enough r = elim (Bool-cases (nat_beq j 0)) [
  | inl root ↦ rw root (record {
    value = ph;
    returned = refl;
    heap = λ c pos_c l. r.settled c pos_c l (ground arith);
    same_entries = Perm.refl ph;
    kept = λ c l. refl;
  })
  | inr deep ↦
      let hj : j < length ph = omega arith in
      let hi : above j < length ph = omega arith in
      rw (deep, less-some ph j (above j) hj hi, swap-some ph (above j) j hi hj)
        (elim (Bool-cases (ltb (key ph j) (key ph (above j)))) [
          | inl below ↦ rw below (
              Restores-exchanged n ph (above j) j (up fuel (exchanged ph (above j) j) (above j))
                size (omega arith) inside
                (up-Restores fuel n (exchanged ph (above j) j) (above j)
                  (omega (arith, length-exchanged ph (above j) j hi hj)) (ground arith)
                  (ground arith)
                  (exchanged-IsRising n ph j size inside (ground arith) (ground arith) r)))
          | inr stays ↦ rw stays (record {
            value = ph;
            returned = refl;
            heap = λ c pos_c l. ground (arith, r.settled c);
            same_entries = Perm.refl ph;
            kept = λ c l. refl;
          })
        ])
]

-- Only the entries below `i` may be less than it; they are no less than the one above `i`.
pub record IsSinking (n : ℕ) (ph : List PeerMetric) (i : ℕ) : Type 0 where
  pub settled : (c : ℕ) → 0 < c → c < n → above c ≢ i → key ph (above c) ≤ key ph c
  pub spanned : (c : ℕ) → 0 < c → c < n → above c ≡ i → 0 < i → key ph (above i) ≤ key ph c

-- `j` is the child of `i` with the least metric.
record IsLeastChild (n : ℕ) (ph : List PeerMetric) (i j : ℕ) : Type 0 where
  inside : j < n
  below : above j ≡ i
  positive : 0 < j
  least : (c : ℕ) → 0 < c → c < n → above c ≡ i → key ph j ≤ key ph c

child-IsLeastChild :
    (n : ℕ) (ph : List PeerMetric) (i : ℕ)
    → n ≤ length ph
    → 2 * i + 1 < n
    → (j : ℕ) × (child ph i n ≡ some j) × IsLeastChild n ph i j
unfolding child
child-IsLeastChild n ph i size l = elim (Bool-cases (ltb (2 * i + 2) n)) [
  | inl two ↦
      let cmp = less-some ph (2 * i + 2) (2 * i + 1) (ground arith) (omega arith) in
      elim (Bool-cases (ltb (key ph (2 * i + 2)) (key ph (2 * i + 1)))) [
        | inl right ↦ (
          2 * i + 2,
          rw (two, cmp, right),
          record {
            inside = ground arith;
            below = omega arith;
            positive = omega arith;
            least = λ c p q r.
                let which : (c ≡ 2 * i + 1) ⊎ (c ≡ 2 * i + 2) = omega arith in ground arith;
          },
        )
        | inr left ↦ (
          2 * i + 1,
          rw (two, cmp, left),
          record {
            inside = l;
            below = omega arith;
            positive = omega arith;
            least = λ c p q r.
                let which : (c ≡ 2 * i + 1) ⊎ (c ≡ 2 * i + 2) = omega arith in ground arith;
          },
        )
      ]
  | inr one ↦ (
    2 * i + 1,
    rw one,
    record {
      inside = l;
      below = omega arith;
      positive = omega arith;
      least = λ c p q r. let which : c ≡ 2 * i + 1 = ground arith in ground arith;
    },
  )
]

exchanged-IsSinking :
    (n : ℕ) (ph : List PeerMetric) (i j : ℕ)
    → n ≤ length ph
    → IsLeastChild n ph i j
    → key ph j < key ph i
    → IsSinking n ph i
    → IsSinking n (exchanged ph i j) j
exchanged-IsSinking n ph i j size lc below s =
    let new = key-exchanged ph i j (omega arith) (omega arith) in
    record {
      settled =
          λ c p l other. ground (arith, new c, new (above c), s.settled c, s.spanned j, lc.least c);
      spanned = λ c p l up_c deeper. ground (arith, new c, new (above j), s.settled c);
    }

-- `down` puts the entry at `i` where it belongs among the first `n`, and leaves the others.
pub down-Restores :
    (fuel n : ℕ) (ph : List PeerMetric) (i : ℕ)
    → n ≤ length ph
    → i ≤ n
    → n < i + fuel
    → IsSinking n ph i
    → Restores n ph (down fuel ph i n)
unfolding down
down-Restores zero n ph i size within enough s = absurd (omega arith)
down-Restores (suc fuel) n ph i size within enough s = elim (Bool-cases (ltb (2 * i + 1) n)) [
  | inl more ↦
      let (j, found, lc) = child-IsLeastChild n ph i size (ground arith) in
      let hj : j < length ph = omega arith in
      let hi : i < length ph = omega arith in
      rw (more, found, less-some ph j i hj hi, swap-some ph i j hi hj)
        (elim (Bool-cases (ltb (key ph j) (key ph i))) [
          | inl below ↦ rw below (
              Restores-exchanged n ph i j (down fuel (exchanged ph i j) j n) size (omega arith)
                lc.inside
                (down-Restores fuel n (exchanged ph i j) j
                  (omega (arith, length-exchanged ph i j hi hj)) (omega arith) (omega arith)
                  (exchanged-IsSinking n ph i j size lc (ground arith) s)))
          | inr stays ↦ rw stays (record {
            value = ph;
            returned = refl;
            heap = λ c p l. ground (arith, s.settled c, lc.least c);
            same_entries = Perm.refl ph;
            kept = λ c l. refl;
          })
        ])
  | inr leaf ↦ rw leaf (record {
    value = ph;
    returned = refl;
    heap = λ c p l. ground (arith, s.settled c);
    same_entries = Perm.refl ph;
    kept = λ c l. refl;
  })
]
