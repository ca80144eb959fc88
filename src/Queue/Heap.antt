-- ===== src/Queue/Heap.antt =====
-- queue/distance.go: `peerMetricHeap` as a `heap.Interface`, and the algorithms of `container/heap`
-- over it: `up` and `down` sift one entry, `push` and `pop` are `heap.Push` and `heap.Pop`. The
-- metric is a `big.Int`, a natural number here. The loops run on fuel; an index out of range is
-- a panic, `none`, and so would fuel that runs out be.
pub mod Order
pub mod Sift
use go_libp2p_peerstore.Prelude.{
  ℕ, zero, suc, ◌+◌, ◌≤◌, ◌<◌, Bool, true, false, not, ◌&&◌, ◌||◌, List, [], ◌∷◌, ◌++◌, map, Option,
  none, some, Bytes, bytes_eq, int_eq, ℤ, ◌≤ℤ◌, ◌<ℤ◌, ◌+ℤ◌, +ℤ_parts, ltb_ℤ, leb_ℤ, pos, negsuc,
  ◌≡◌, ◌≢◌, ◌↔◌, ◌⊎◌, refl, sym, ap, ◌∙◌, ◌==◌, ==_iff, if◌then◌else◌, arith, inl, inr, Bool-cases,
  Option-cases, is_some, All, length,
}
use go_libp2p_peerstore.Prelude.Maps.{
  Map, lookup, insert, delete, lookup-insert, lookup-delete, IsMap, AllValues, contains, IsDistinct,
  keys, contains-keys, AllValues-lookup, AllValues-insert, AllValues-delete, insert-IsMap,
  delete-IsMap,
}
use go_libp2p_peerstore.Prelude.{◌-◌, ◌*◌, ◌/◌, get_elem?, set, take, ltb, nat_beq}

pub record PeerMetric : Type 0 where
  pub peer : Bytes
  pub metric : ℕ

infixl 5 ◌>>=◌
abbrev pub ◌>>=◌ {ℓ κ} : {A : Type ℓ} {B : Type κ} → Option A → (A → Option B) → Option B
none >>= f = none
some a >>= f = f a

-- `Less`: `-1 == ph[i].metric.Cmp(ph[j].metric)`
unfoldable pub less : List PeerMetric → ℕ → ℕ → Option Bool
less ph i j = do x ← get_elem? ph i; y ← get_elem? ph j; some (ltb x.metric y.metric)

unfoldable pub swap : List PeerMetric → ℕ → ℕ → Option (List PeerMetric)
swap ph i j = do x ← get_elem? ph i; y ← get_elem? ph j; some (set (set ph i y) j x)

-- `Push` and `Pop` of the heap's interface: at the end of the slice.
unfoldable pub push_last : List PeerMetric → PeerMetric → List PeerMetric
push_last ph x = ph ++ x ∷ []

unfoldable pub pop_last : List PeerMetric → Option (PeerMetric × List PeerMetric)
pop_last ph = do item ← get_elem? ph (length ph - 1); some (item, take (length ph - 1) ph)

-- `up(h, j)`: the loop leaves at the root, or where the entry is not less than its parent.
unfoldable pub up : ℕ → List PeerMetric → ℕ → Option (List PeerMetric)
up zero ph j = none
up (suc fuel) ph j =
    let i = (j - 1) / 2 in
    let rise = swap ph i j >>= λ ph'. up fuel ph' i in
    let round = less ph j i >>= λ below. if below then rise else some ph in
    if nat_beq j 0 then some ph else round

-- The child of `i` that `down` compares with, among the first `n` entries; the left one exists.
unfoldable pub child : List PeerMetric → ℕ → ℕ → Option ℕ
child ph i n =
    let right =
      less ph (2 * i + 2) (2 * i + 1) >>= λ below. some (if below then 2 * i + 2 else 2 * i + 1) in
    if ltb (2 * i + 2) n then right else some (2 * i + 1)

-- `down(h, i, n)`
unfoldable pub down : ℕ → List PeerMetric → ℕ → ℕ → Option (List PeerMetric)
down zero ph i n = none
down (suc fuel) ph i n =
    let round : Option (List PeerMetric) = do
      j ← child ph i n
      below ← less ph j i
      let sink = swap ph i j >>= λ ph'. down fuel ph' j n
      if below then sink else some ph
    in if ltb (2 * i + 1) n then round else some ph

-- `heap.Push`
unfoldable pub push : List PeerMetric → PeerMetric → Option (List PeerMetric)
unfolding push_last
push ph x = up (length ph + 1) (push_last ph x) (length ph)

-- `heap.Pop`
unfoldable pub pop : List PeerMetric → Option (PeerMetric × List PeerMetric)
pop ph = do
  let n = length ph - 1
  ph' ← swap ph 0 n
  ph'' ← down (length ph + 1) ph' 0 n
  pop_last ph''
