-- ===== src/Queue/Drain.antt =====
-- A queue of peers holds a bag of peers, and hands them out in the order of their distance.
use go_libp2p_peerstore.Prelude.{
  ℕ, zero, suc, ◌+◌, ◌≤◌, ◌<◌, false, List, [], ◌∷◌, ◌++◌, map, Option, some, Bytes, bytes_eq,
  int_eq, ◌≡◌, ◌-◌, ltb, length-append, refl, sym, ap, ◌∙◌, arith, All, length, ltb, length-append,
}
use mathlib.Core.List.{Perm, append-nil, perm_middle}
use mathlib.Core.List.Perm
use mathlib.Core.Path.{subst}
use native.Mathlib.Nat.{ℕ_set}
use native.Mathlib.Bridge.{le_prop}
use go_libp2p_peerstore.Prelude.Slices.{All-perm, All-at, length-perm}
use go_libp2p_peerstore.Queue.Interface.{PeerQueue, IsPeerQueue}
use go_libp2p_peerstore.Queue.Heap.{PeerMetric, ◌>>=◌}
use go_libp2p_peerstore.Queue.Heap.Order.{nobody, at, key, root_least}
use go_libp2p_peerstore.Queue.Distance.{
  pq_len, new_distance_pq, enqueue, dequeue, append_one-perm, IsQueue, push-Restores, pop-IsPopped,
}

pub length-map : {A B : Type 0} (f : A → B) (xs : List A) → length (map f xs) ≡ length xs
length-map f [] = refl
length-map f (x ∷ xs) = ap suc (length-map f xs)

All-map :
    {A B : Type 0} (P : B → Type 0) (f : A → B) (xs : List A)
    → All (λ x. P (f x)) xs
    → All P (map f xs)
All-map P f [] h = tt
All-map P f (x ∷ xs) h = (h.0, All-map P f xs h.1)

-- `f` is `g` on the entries.
All-change :
    {A : Type 0} (P Q R : A → Type 0) (xs : List A)
    → ((x : A) → P x → Q x → R x)
    → All P xs
    → All Q xs
    → All R xs
All-change P Q R [] f hp hq = tt
All-change P Q R (x ∷ xs) f hp hq = (f x hp.0 hq.0, All-change P Q R xs f hp.1 hq.1)

abbrev peers : List PeerMetric → List Bytes
peers = map (λ e. e.peer)

root_first :
    (ph : List PeerMetric) (x : PeerMetric)
    → IsQueue ph
    → x ≡ at ph 0
    → All (λ e. x.metric ≤ e.metric) ph
unfolding key
root_first ph x h first =
    All-at (λ e. x.metric ≤ e.metric) ph nobody
      (λ i l. omega (arith, root_least (length ph) ph i h l, ap (λ e. e.metric) first))

module _ (distance : Bytes → ℕ) where
  -- The queue `ph` holds the peers `ps`, in any order.
  pub record IsQueueOf (ps : List Bytes) (ph : List PeerMetric) : Type 0 where
    pub heap : IsQueue ph
    pub measured : All (λ e. e.metric ≡ distance e.peer) ph
    pub same_peers : Perm (peers ph) ps

  -- Lists in the order of distance.
  unfoldable pub IsRanked : List Bytes → Type 0
  IsRanked [] = Unit
  IsRanked (p ∷ ps) = All (λ q. distance p ≤ distance q) ps × IsRanked ps

  -- `Enqueue` of each peer.
  unfoldable pub fill : List Bytes → List PeerMetric → Option (List PeerMetric)
  fill [] ph = some ph
  fill (p ∷ ps) ph = enqueue distance p ph >>= fill ps

  pub new_distance_pq-IsQueueOf : IsQueueOf [] (new_distance_pq distance)
  unfolding new_distance_pq
  new_distance_pq-IsQueueOf = record {
    heap = λ c p l. absurd (omega arith);
    measured = tt;
    same_peers = Perm.refl [];
  }

  -- On a queue of the peers `ps`, `Enqueue` returns, and leaves a queue of `p` and `ps`.
  pub enqueue-IsQueueOf :
      (p : Bytes) (ps : List Bytes) (ph : List PeerMetric)
      → IsQueueOf ps ph
      → (q : List PeerMetric) × (enqueue distance p ph ≡ some q) × IsQueueOf (p ∷ ps) q
  unfolding enqueue
  enqueue-IsQueueOf p ps ph h =
      let x : PeerMetric = record { peer = p; metric = distance p } in
      let r = push-Restores ph x h.heap in
      let size : length r.value ≡ length ph + 1 =
        length-perm r.same_entries ∙ length-append ph (x ∷ []) in
      let entries : Perm (x ∷ ph) r.value =
        Perm.trans (append_one-perm x ph) (Perm.symm r.same_entries) in
      (
        r.value,
        r.returned,
        record {
          heap = λ c pos_c l. r.heap c pos_c (omega arith);
          measured =
              All-perm (λ e. e.metric ≡ distance e.peer) (λ e. ℕ_set _ _) entries
                (refl, h.measured);
          same_peers =
              Perm.trans (Perm.map (λ e. e.peer) (Perm.symm entries)) (Perm.cons p h.same_peers);
        },
      )

  -- On a queue of the peers `ps`, of which there is one at least, `Dequeue` returns a peer `p` of
  -- `ps` that is as near as any, and leaves a queue of the others.
  pub dequeue-IsQueueOf :
      (ps : List Bytes) (ph : List PeerMetric)
      → 0 < length ps
      → IsQueueOf ps ph
      → (p : Bytes) × (rest : List PeerMetric) × (others : List Bytes) × (dequeue ph
          ≡ some (p, rest))
        × IsQueueOf others rest
        × Perm (p ∷ others) ps
        × All (λ q. distance p ≤ distance q) ps
  unfolding dequeue
  dequeue-IsQueueOf ps ph more h =
      let size : length ph ≡ length ps =
        sym (length-map (λ e. e.peer) ph) ∙ length-perm h.same_peers in
      let (r, returned, popped) = pop-IsPopped ph (length ph - 1) (omega arith) h.heap in
      let some_left : ltb (length ph) 1 ≡ false = ground arith in
      let measured : All (λ e. e.metric ≡ distance e.peer) (r.0 ∷ r.1) =
        All-perm (λ e. e.metric ≡ distance e.peer) (λ e. ℕ_set _ _) (Perm.symm popped.same_entries)
          h.measured in
      (
        r.0.peer,
        r.1,
        peers r.1,
        rw (some_left, returned) refl,
        record { heap = popped.queue; measured = measured.1; same_peers = Perm.refl (peers r.1) },
        Perm.trans (Perm.map (λ e. e.peer) popped.same_entries) h.same_peers,
        All-perm (λ q. distance r.0.peer ≤ distance q) (λ q. le_prop) h.same_peers
            (All-map (λ q. distance r.0.peer ≤ distance q) (λ e. e.peer) ph
              (All-change (λ e. e.metric ≡ distance e.peer) (λ e. r.0.metric ≤ e.metric)
                (λ e. distance r.0.peer ≤ distance e.peer) ph
                (λ e m l. omega (arith, m, l, measured.0)) h.measured
                (root_first ph r.0 h.heap popped.first))),
      )

-- `Dequeue` as often as the queue is long.
unfoldable pub drain : ℕ → List PeerMetric → Option (List Bytes)
drain zero ph = some []
drain (suc n) ph = dequeue ph >>= λ (p, rest). drain n rest >>= λ ps. some (p ∷ ps)

module _ (distance : Bytes → ℕ) where
  fill-IsQueueOf :
      (ps qs : List Bytes) (ph : List PeerMetric)
      → IsQueueOf distance qs ph
      → (r : List PeerMetric) × (all : List Bytes) × (fill distance ps ph ≡ some r)
        × IsQueueOf distance all r
        × Perm all (ps ++ qs)
  unfolding fill
  fill-IsQueueOf [] qs ph h = (ph, qs, refl, h, Perm.refl qs)
  fill-IsQueueOf (p ∷ ps) qs ph h =
      let (q, e, hq) = enqueue-IsQueueOf distance p qs ph h in
      let (r, all, e', hr, same) = fill-IsQueueOf ps (p ∷ qs) q hq in
      (r, all, rw (e, e') refl, hr, Perm.trans same (perm_middle ps qs))

  drain-IsRanked :
      (n : ℕ) (ps : List Bytes) (ph : List PeerMetric)
      → length ps ≡ n
      → IsQueueOf distance ps ph
      → (out : List Bytes) × (drain n ph ≡ some out) × Perm out ps × IsRanked distance out
  unfolding drain IsRanked
  drain-IsRanked zero [] ph size h = ([], refl, Perm.refl [], tt)
  drain-IsRanked zero (p ∷ ps) ph size h = absurd (omega arith)
  drain-IsRanked (suc n) ps ph size h =
      let (p, rest, others, e, hr, same, near) = dequeue-IsQueueOf distance ps ph (omega arith) h in
      let count : length others ≡ n = omega (arith, length-perm same) in
      let (out, e', same', ranked) = drain-IsRanked n others rest count hr in
      let all : Perm (p ∷ out) ps = Perm.trans (Perm.cons p same') same in
      let near' = All-perm (λ q. distance p ≤ distance q) (λ q. le_prop) (Perm.symm all) near in
      (p ∷ out, rw (e, e') refl, all, (near'.1, ranked))

  -- Peers that are put in a new queue by `Enqueue`, and taken out by as many calls of `Dequeue`,
  -- come out each as often as it was put in, in the order of their distance. No call panics.
  pub drain-fill :
      (ps : List Bytes)
      → (out : List Bytes) × (fill distance ps (new_distance_pq distance) >>= drain (length ps)
          ≡ some out)
        × Perm out ps
        × IsRanked distance out
  drain-fill ps =
      let (r, all, e, h, same) =
        fill-IsQueueOf ps [] (new_distance_pq distance) (new_distance_pq-IsQueueOf distance) in
      let put_in : Perm all ps = subst (λ xs. Perm all xs) (append-nil ps) same in
      let (out, e', same', ranked) = drain-IsRanked (length ps) all r (length-perm put_in) h in
      (out, rw (e, e') refl, Perm.trans same' put_in, ranked)

module _ (distance : Bytes → ℕ) where
  -- The methods of `distancePQ`.
  abbrev pub distance_pq : PeerQueue (List PeerMetric)
  distance_pq = record { len = pq_len; enqueue = enqueue distance; dequeue = dequeue }

  -- `distancePQ` keeps what the interface promises, for the order of distance.
  unfoldable pub distance_pq-IsPeerQueue : IsPeerQueue distance_pq (λ p q. distance p ≤ distance q)
  unfolding pq_len
  distance_pq-IsPeerQueue = record {
    Before-IsProp = λ p q. le_prop;
    Holds = IsQueueOf distance;
    len-Holds = λ ps ph h. sym (length-map (λ e. e.peer) ph) ∙ length-perm h.same_peers;
    enqueue-Holds = enqueue-IsQueueOf distance;
    dequeue-Holds = dequeue-IsQueueOf distance;
  }
