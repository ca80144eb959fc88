-- ===== src/Ds/Gc/Background.antt =====
-- The goroutine `background` of the collector, behind its initial delay.
use go_libp2p_peerstore.Prelude.{
  ℕ, Bool, true, false, List, [], ◌∷◌, Option, none, some, Bytes, bytes_eq, int_eq, ℤ,
  if◌then◌else◌,
}
use mathlib.Core.Option
use go_libp2p_peerstore.Ds.Cache.{Cache}
use go_libp2p_peerstore.Ds.Record.{AddrEntry}
use go_libp2p_peerstore.Ds.Store.{AddrStore, StoreOp}
use go_libp2p_peerstore.Ds.Batch.{Batching}
use go_libp2p_peerstore.Ds.Options.{Options, GcPlan}
use go_libp2p_peerstore.Ds.Gc.{GcStore, GcBook, purge_lookahead, purge_store, populate_lookahead}

-- What the `select` of the loop waits for. The clock readings of the cycle come with the tick. A tick of the
-- look-ahead timer does not come where look-ahead is disabled.
pub data GcEvent (K : Type 0) : Type 0 where
  purge_tick : (K → ℤ) → ℤ → GcEvent K
  lookahead_tick : ℤ → GcEvent K
  done : GcEvent K

module _ {C D K A B : Type 0} (cache : Cache C Bytes ℕ) (st : AddrStore D K A) (gs : GcStore D K)
    (bt : Batching D B (StoreOp K)) (sort : List (AddrEntry A) → List (AddrEntry A)) (o : Options)
    (plan : GcPlan) where
  -- `purgeFunc`
  unfoldable pub purge_func : (K → ℤ) → ℤ → GcBook C D A → Option (GcBook C D A)
  purge_func clean_at now g =
      if plan.lookahead_enabled
      then purge_lookahead cache st gs bt sort clean_at now g
      else purge_store cache st gs bt sort clean_at g

  -- One round of the loop, and whether it goes on.
  unfoldable pub background_step : GcEvent K → GcBook C D A → Option (Bool × GcBook C D A)
  background_step (purge_tick clean_at now) g =
      Option.map (λ g'. (true, g')) (purge_func clean_at now g)
  background_step (lookahead_tick now) g = some (
    true,
    (if plan.lookahead_enabled
        then populate_lookahead cache st gs bt sort o.gc_lookahead_interval now g
        else g),
  )
  background_step done g = some (false, g)

  -- The loop.
  unfoldable pub background_loop : List (GcEvent K) → GcBook C D A → Option (GcBook C D A)
  background_loop [] g = some g
  background_loop (e ∷ es) g = elim (background_step e g) [
    | none ↦ none
    | some (more, g') ↦ let rest = background_loop es g' in if more then rest else some g'
  ]

  -- `background`: it ends at once where the context is done before the delay elapses.
  unfoldable pub background : Bool → ℤ → List (GcEvent K) → GcBook C D A → Option (GcBook C D A)
  background elapsed now es g =
      let populated = populate_lookahead cache st gs bt sort o.gc_lookahead_interval now g in
      if elapsed
      then background_loop es (if plan.lookahead_enabled then populated else g)
      else some g
