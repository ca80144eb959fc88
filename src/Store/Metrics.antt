-- ===== src/Store/Metrics.antt =====
-- metrics.go: `metrics`, the moving average of each peer's latency. The arithmetic of `float64` is a
-- parameter, and so are its conversions from and to `time.Duration`.
use go_libp2p_peerstore.Prelude.{
  [], Bool, true, false, ◌||◌, Option, none, some, Bytes, bytes_eq, ℤ, pos, ◌≡◌, ◌==◌,
  if◌then◌else◌, arith, ap, ==_refl,
}
use go_libp2p_peerstore.Prelude.Maps.{Map, lookup, insert, lookup-insert}

-- What the code uses of `float64`.
pub record Float64 (F : Type 0) : Type 0 where
  pub of_duration : ℤ → F
  pub to_duration : F → ℤ
  pub zero : F
  pub tenth : F
  pub one : F
  pub plus : F → F → F
  pub minus : F → F → F
  pub times : F → F → F
  pub less_than : F → F → Bool

abbrev pub Latencies : Type 0
Latencies = Map Bytes ℤ

unfoldable pub new_metrics : Latencies
new_metrics = []

-- `LatencyEWMA`: a peer without data has the zero duration.
unfoldable pub latency_ewma : Bytes → Latencies → ℤ
latency_ewma p latmap = elim (lookup p latmap) [ none ↦ pos 0 | some lat ↦ lat ]

module _ {F : Type 0} (fl : Float64 F) where
  -- The smoothing that is used: a value of the knob out of its range is taken as 0.1.
  unfoldable pub smoothing : F → F
  smoothing knob = if fl.less_than fl.one knob || fl.less_than knob fl.zero then fl.tenth else knob

  -- What `RecordLatency` stores for a peer, from what it found: without data, the measurement itself.
  unfoldable pub recorded : F → ℤ → Option ℤ → ℤ
  recorded s next none = next
  recorded s next (some ewma) = fl.to_duration (
      fl.plus (fl.times (fl.minus fl.one s) (fl.of_duration ewma))
        (fl.times s (fl.of_duration next)))

  unfoldable pub record_latency : F → Bytes → ℤ → Latencies → Latencies
  record_latency knob p next latmap =
      insert p (recorded (smoothing knob) next (lookup p latmap)) latmap

  -- `RecordLatency` changes the average of no other peer, takes the first measurement of a peer as
  -- it is, and, where 0.1 is in the knob's range, treats a knob out of its range as one at 0.1.
  pub latency_ewma-record_latency :
      (knob : F) (p q : Bytes) (next : ℤ) (latmap : Latencies)
      → smoothing fl.tenth ≡ fl.tenth
      → ((p == q) ≡ false
          → latency_ewma q (record_latency knob p next latmap) ≡ latency_ewma q latmap)
        × (lookup p latmap ≡ none → latency_ewma p (record_latency knob p next latmap) ≡ next)
        × ((fl.less_than fl.one knob || fl.less_than knob fl.zero) ≡ true
            → record_latency knob p next latmap ≡ record_latency fl.tenth p next latmap)
  unfolding latency_ewma record_latency recorded smoothing
  latency_ewma-record_latency knob p q next latmap range = (
    λ other.
        let v = recorded (smoothing knob) next (lookup p latmap) in
        ground (arith, lookup-insert p q v latmap),
    λ fresh.
        let v = recorded (smoothing knob) next (lookup p latmap) in
        ground (arith, ==_refl p, lookup-insert p p v latmap),
    λ broken.
        let same : smoothing knob ≡ smoothing fl.tenth = ground arith in
        ap (λ s. insert p (recorded s next (lookup p latmap)) latmap) same,
  )
