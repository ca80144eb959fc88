-- ===== src/Mem/AddrBook/Loops.antt =====
-- The loops of `AddAddrs`, `SetAddrs` and `UpdateAddrs` seen through look-ups.
use mathlib.Core.Option.{get_or}
use go_libp2p_peerstore.Prelude.{
  List, [], ◌∷◌, Option, none, some, Bytes, bytes_eq, int_eq, ℤ, ltb_ℤ, pos, ◌≡◌, refl, ◌==◌,
  ==_iff, if◌then◌else◌, arith, inl, inr, Bool-cases,
}
use mathlib.Core.Option
use go_libp2p_peerstore.Prelude.Maps.{Map, lookup, insert, delete, lookup-insert, lookup-delete}
use go_libp2p_peerstore.Mem.SubManager.{AddrSubManager}
use go_libp2p_peerstore.Mem.AddrBook.{
  ExpiringAddr, AddrMap, add_step, add_loop, set_step, set_loop, update_loop,
}
use go_libp2p_peerstore.Mem.AddrBook.Stored.{stored}

module _ {A : Type 0} where
  -- What `AddAddrs` leaves for an address that is not, or is, among the given ones: an entry that
  -- expires later stays.
  unfoldable pub extended : ℤ → ℤ → Option A → Option (ExpiringAddr A) → Option (ExpiringAddr A)
  extended exp ttl none old = old
  extended exp ttl (some a) none = some (record { addr = a; ttl = ttl; expires = exp })
  extended exp ttl (some a) (some e) =
      some (if ltb_ℤ e.expires exp then record { addr = a; ttl = ttl; expires = exp } else e)

  -- What `SetAddrs` leaves: it replaces the entry, or removes it when the TTL is not positive.
  unfoldable pub overridden : ℤ → ℤ → Option A → Option (ExpiringAddr A) → Option (ExpiringAddr A)
  overridden exp ttl none old = old
  overridden exp ttl (some a) old =
      if ltb_ℤ (pos 0) ttl then some (record { addr = a; ttl = ttl; expires = exp }) else none

  -- What `UpdateAddrs` leaves.
  unfoldable pub retimed : ℤ → ℤ → ℤ → ExpiringAddr A → ExpiringAddr A
  retimed old_ttl new_ttl exp e =
      if old_ttl == e.ttl then record e { ttl = new_ttl; expires = exp } else e

  pub lookup-update_loop :
      (old_ttl new_ttl exp : ℤ) (k : Bytes) (amap : AddrMap A)
      → lookup k (update_loop old_ttl new_ttl exp amap)
        ≡ Option.map (retimed old_ttl new_ttl exp) (lookup k amap)
  unfolding lookup update_loop retimed
  lookup-update_loop old_ttl new_ttl exp k [] = refl
  lookup-update_loop old_ttl new_ttl exp k ((j, e) ∷ amap) = elim (Bool-cases (j == k)) [
    | inl same ↦ rw same
    | inr other ↦ rw other (lookup-update_loop old_ttl new_ttl exp k amap)
  ]

  pub stored-insert :
      (p q k : Bytes) (amap : AddrMap A) (m : Map Bytes (AddrMap A))
      → stored q k (insert p amap m) ≡ (if p == q then lookup k amap else stored q k m)
  unfolding stored
  stored-insert p q k amap m = ground (arith, lookup-insert p q amap m)

  pub stored-delete :
      (p q k : Bytes) (m : Map Bytes (AddrMap A))
      → stored q k (delete p m) ≡ (if p == q then none else stored q k m)
  unfolding stored lookup
  stored-delete p q k m = ground (arith, lookup-delete p q m)

module _ {A : Type 0} (bytes : A → Bytes) where
  -- The first and the last address with the given bytes; nil ones have none.
  unfoldable pub find_first : Bytes → List (Option A) → Option A
  find_first k [] = none
  find_first k (none ∷ as') = find_first k as'
  find_first k (some a ∷ as') = if bytes a == k then some a else find_first k as'

  unfoldable pub find_last : Bytes → List (Option A) → Option A
  find_last k [] = none
  find_last k (none ∷ as') = find_last k as'
  find_last k (some a ∷ as') = elim (find_last k as') [
    | some b ↦ some b
    | none ↦ if bytes a == k then some a else none
  ]

  pub lookup-add_loop :
      (p : Bytes) (exp ttl : ℤ) (k : Bytes) (as' : List (Option A))
      (s : AddrMap A × AddrSubManager A)
      → lookup k (add_loop bytes p exp ttl as' s).0
        ≡ extended exp ttl (find_first k as') (lookup k s.0)
  unfolding add_loop extended find_first
  lookup-add_loop p exp ttl k [] s = refl
  lookup-add_loop p exp ttl k (none ∷ as') s = lookup-add_loop p exp ttl k as' s
  lookup-add_loop p exp ttl k (some a ∷ as') (amap, mgr) = ground (
    arith,
    lookup-add_loop p exp ttl k as' (add_step bytes p exp ttl a (amap, mgr)),
    lookup-insert (bytes a) k (record { addr = a; ttl = ttl; expires = exp }) amap,
    ==_iff (bytes a) k,
  )

  pub lookup-set_loop :
      (p : Bytes) (exp ttl : ℤ) (k : Bytes) (as' : List (Option A))
      (s : AddrMap A × AddrSubManager A)
      → lookup k (set_loop bytes p exp ttl as' s).0
        ≡ overridden exp ttl (find_last k as') (lookup k s.0)
  unfolding set_loop overridden find_last
  lookup-set_loop p exp ttl k [] s = refl
  lookup-set_loop p exp ttl k (none ∷ as') s = lookup-set_loop p exp ttl k as' s
  lookup-set_loop p exp ttl k (some a ∷ as') (amap, mgr) = ground (
    arith,
    lookup-set_loop p exp ttl k as' (set_step bytes p exp ttl a (amap, mgr)),
    lookup-insert (bytes a) k (record { addr = a; ttl = ttl; expires = exp }) amap,
    lookup-delete (bytes a) k amap,
    ==_iff (bytes a) k,
  )
