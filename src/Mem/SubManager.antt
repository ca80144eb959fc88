-- ===== src/Mem/SubManager.antt =====
-- pstoremem/addr_book.go, `AddrSubManager`: the subscriptions to new addresses, by peer.
-- A subscription is known by a number, for the pointer of the source. `received` lists what its
-- coroutine took from `pubch`, in order. `done` says that the context was cancelled and the
-- coroutine left its loop, so a send returns through `ctx.Done()`.
pub mod Remove
pub mod Publish
use go_libp2p_peerstore.Prelude.{
  ℕ, Bool, List, [], ◌∷◌, ◌++◌, map, none, some, Option, suc, ◌-◌, length, set, take, get_or, ◌==◌,
  nat_eq, Bytes, bytes_eq, if◌then◌else◌,
}
use mathlib.Core.Option
use go_libp2p_peerstore.Prelude.Maps.{Map, lookup, insert, delete}

pub record AddrSub (A : Type 0) : Type 0 where
  pub id : ℕ
  pub received : List A
  pub done : Bool

abbrev pub AddrSubManager : Type 0 → Type 0
AddrSubManager A = Map Bytes (List (AddrSub A))

module _ {A : Type 0} where
  pub pub_addr : A → AddrSub A → AddrSub A
  pub_addr a s = if s.done then s else record s { received = s.received ++ a ∷ [] }

  -- `BroadcastAddr`
  unfoldable pub broadcast_addr : AddrSubManager A → Bytes → A → AddrSubManager A
  unfolding pub_addr
  broadcast_addr mgr p a = elim (lookup p mgr) [
    | none ↦ mgr
    | some subs ↦ insert p (map (pub_addr a) subs) mgr
  ]

  -- The registration that `AddrStream` makes under the lock.
  unfoldable pub add_sub : AddrSubManager A → Bytes → AddrSub A → AddrSubManager A
  add_sub mgr p s = elim (lookup p mgr) [
    | none ↦ insert p (s ∷ []) mgr
    | some subs ↦ insert p (subs ++ s ∷ []) mgr
  ]

  -- The index at which the loop of `removeSub` finds the subscription.
  unfoldable pub find_sub : ℕ → List (AddrSub A) → Option ℕ
  find_sub id [] = none
  find_sub id (v ∷ subs) = if v.id == id then some 0 else Option.map suc (find_sub id subs)

  -- `subs[i] = subs[len(subs)-1]`, and the last entry is cut off. Here `v` stands for `subs[i]`.
  unfoldable pub swap_out : List (AddrSub A) → ℕ → AddrSub A → List (AddrSub A)
  swap_out subs i v = take (length subs - 1) (set subs i (get_or subs (length subs - 1) v))

  unfoldable pub remove_from : AddrSubManager A → Bytes → ℕ → List (AddrSub A) → AddrSubManager A
  remove_from mgr p id [] = mgr
  remove_from mgr p id (v ∷ []) = if v.id == id then delete p mgr else mgr
  remove_from mgr p id (v ∷ w ∷ subs) = elim (find_sub id (v ∷ w ∷ subs)) [
    | none ↦ mgr
    | some i ↦ insert p (swap_out (v ∷ w ∷ subs) i v) mgr
  ]

  -- `removeSub`
  unfoldable pub remove_sub : AddrSubManager A → Bytes → ℕ → AddrSubManager A
  remove_sub mgr p id = remove_from mgr p id (Option.get_or (lookup p mgr) [])
