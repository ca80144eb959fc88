-- ===== src/Mem/SubManager/Remove.antt =====
-- `removeSub`: who is subscribed afterwards.
use go_libp2p_peerstore.Prelude.{
  ℕ, zero, suc, not, ◌&&◌, ◌||◌, List, [], ◌∷◌, map, some, Bytes, bytes_eq, int_eq, ◌≡◌, refl, ◌==◌,
  ==_iff, arith, inl, inr, Option-cases, is_some, length,
}
use go_libp2p_peerstore.Prelude.Maps.{lookup, lookup-insert, lookup-delete, contains, IsDistinct}
use mathlib.Core.Option
use go_libp2p_peerstore.Prelude.{set, take, get_or, ◌-◌, nat_eq}
use go_libp2p_peerstore.Mem.SubManager.{
  AddrSub, AddrSubManager, find_sub, swap_out, remove_from, remove_sub,
}

module _ {A : Type 0} where
  abbrev pub ids : List (AddrSub A) → List ℕ
  ids = map (λ s. s.id)

  -- The subscriptions of a peer, by their numbers.
  unfoldable pub subscribed : AddrSubManager A → Bytes → List ℕ
  subscribed mgr p = ids (Option.get_or (lookup p mgr) [])

  -- Cutting off the last entry loses that entry and no other.
  contains-take :
      (t n : ℕ) (v : AddrSub A) (subs : List (AddrSub A))
      → length subs ≡ suc n
      → contains t (ids subs) ≡ ((get_or subs n v).id == t || contains t (ids (take n subs)))
  unfolding contains
  contains-take t n v [] h = absurd (omega arith)
  contains-take t zero v (s ∷ []) h = refl
  contains-take t zero v (s ∷ r ∷ subs) h = absurd (omega arith)
  contains-take t (suc n) v (s ∷ subs) h = ground (arith, contains-take t n v subs)

  find_sub-contains :
      (id : ℕ) (subs : List (AddrSub A)) → contains id (ids subs) ≡ is_some (find_sub id subs)
  unfolding contains find_sub
  find_sub-contains id [] = refl
  find_sub-contains id (s ∷ subs) = ground (arith, find_sub-contains id subs)

  contains-swap_out :
      (t id i n : ℕ) (v : AddrSub A) (subs : List (AddrSub A))
      → length subs ≡ suc n
      → IsDistinct (ids subs)
      → find_sub id subs ≡ some i
      → contains t (ids (take n (set subs i (get_or subs n v))))
        ≡ (contains t (ids subs) && not (id == t))
  unfolding contains find_sub
  contains-swap_out t id i n v [] l d f = absurd (omega arith)
  contains-swap_out t id i zero v (s ∷ []) l d f = ground arith
  contains-swap_out t id i zero v (s ∷ r ∷ subs) l d f = absurd (omega arith)
  contains-swap_out t id zero (suc n) v (s ∷ subs) l d f =
      ground (arith, contains-take t n v subs, ==_iff s.id id, ==_iff id t, ==_iff s.id t)
  contains-swap_out t id (suc i) (suc n) v (s ∷ subs) l d f = ground (
    arith,
    contains-swap_out t id i n v subs,
    ==_iff s.id id,
    find_sub-contains id subs,
    ==_iff id t,
    ==_iff s.id t,
  )

  contains-remove_from :
      (t id : ℕ) (p q : Bytes) (mgr : AddrSubManager A) (subs : List (AddrSub A))
      → Option.get_or (lookup p mgr) [] ≡ subs
      → IsDistinct (ids subs)
      → contains t (subscribed (remove_from mgr p id subs) q)
        ≡ (contains t (subscribed mgr q) && not (p == q && id == t))
  unfolding subscribed remove_from swap_out contains
  contains-remove_from t id p q mgr [] e d = ground (arith, ==_iff p q)
  contains-remove_from t id p q mgr (v ∷ []) e d =
      ground (arith, ==_iff p q, lookup-delete p q mgr, ==_iff v.id id, ==_iff id t, ==_iff v.id t)
  contains-remove_from t id p q mgr (v ∷ w ∷ subs) e d =
      let all = v ∷ w ∷ subs in
      elim (Option-cases (find_sub id all)) [
        | inl absent ↦
            rw (absent, remove_from)
              (ground (arith, ==_iff p q, ==_iff id t, find_sub-contains id all))
        | inr (i, found) ↦
            let n = length all - 1 in
            rw (found, remove_from)
              (ground (
                arith,
                ==_iff p q,
                lookup-insert p q (swap_out all i v) mgr,
                contains-swap_out t id i n v all (omega arith) d found,
              ))
      ]

  -- Where the subscriptions of a peer are distinct, removing one of them takes exactly that one
  -- away: every other subscription of the peer stays, and so do those of every other peer.
  pub contains-remove_sub :
      (t id : ℕ) (p q : Bytes) (mgr : AddrSubManager A)
      → IsDistinct (subscribed mgr p)
      → contains t (subscribed (remove_sub mgr p id) q)
        ≡ (contains t (subscribed mgr q) && not (p == q && id == t))
  unfolding remove_sub subscribed
  contains-remove_sub t id p q mgr d =
      contains-remove_from t id p q mgr (Option.get_or (lookup p mgr) []) refl d
