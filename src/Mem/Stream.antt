-- ===== src/Mem/Stream.antt =====
-- pstoremem/addr_book.go, the coroutine that `AddrStream` starts: it forwards the initial addresses
-- and the published ones to its reader. Each event is one round of its `select`; which of the ready
-- cases is taken is the scheduler's choice, so a run is any list of events. `none` is a case that
-- cannot be taken: a send on the nil channel, or anything after the coroutine returned.
pub mod Order
use go_libp2p_peerstore.Prelude.{
  ℕ, zero, suc, ◌+◌, ◌≤◌, ◌<◌, Bool, true, false, not, ◌&&◌, ◌||◌, List, [], ◌∷◌, ◌++◌, map, Option,
  none, some, Bytes, bytes_eq, int_eq, ℤ, ◌≤ℤ◌, ◌<ℤ◌, ◌+ℤ◌, +ℤ_parts, ltb_ℤ, leb_ℤ, pos, negsuc,
  ◌≡◌, ◌≢◌, ◌↔◌, ◌⊎◌, refl, sym, ap, ◌∙◌, ◌==◌, ==_iff, if◌then◌else◌, arith, inl, inr, Bool-cases,
  Option-cases, is_some, All, length,
}
use go_libp2p_peerstore.Prelude.Maps.{
  Map, lookup, insert, delete, lookup-insert, lookup-delete, IsMap, AllValues, contains, keys,
  contains-keys, AllValues-lookup, AllValues-insert, AllValues-delete, insert-IsMap, delete-IsMap,
}

pub record Stream (A : Type 0) : Type 0 where
  pub sent : List Bytes
  pub next : Option A
  pub buffer : List A
  pub outch : Bool
  pub running : Bool
  pub out : List A

pub data Event (A : Type 0) : Type 0 where
  deliver : Event A
  receive : A → Event A
  cancel : Event A

module _ {A : Type 0} where
  -- `case outch <- next`, which needs the channel; the reader gets `next`. A nil `next` would be
  -- sent as it is, and is left out of what the reader got.
  unfoldable pub on_deliver : Stream A → Stream A
  on_deliver s =
      let got : List A = elim s.next [ none ↦ s.out | some a ↦ s.out ++ a ∷ [] ] in
      elim s.buffer [
        | [] ↦ record s { next = none; outch = false; out = got }
        | b ∷ rest ↦ record s { next = some b; buffer = rest; out = got }
      ]

module _ {A : Type 0} (bytes : A → Bytes) where
  -- The state before the loop, from the initial addresses in their order after the sort.
  unfoldable pub start : List A → Stream A
  start [] = record { sent = []; next = none; buffer = []; outch = false; running = true; out = [] }
  start (a ∷ initial) = record {
    sent = map bytes (a ∷ initial);
    next = some a;
    buffer = initial;
    outch = true;
    running = true;
    out = [];
  }

  -- `case naddr := <-sub.pubch`
  unfoldable pub on_receive : A → Stream A → Stream A
  on_receive a s = if contains (bytes a) s.sent then s else elim s.next [
    | none ↦ record s { sent = bytes a ∷ s.sent; next = some a; outch = true }
    | some _ ↦ record s { sent = bytes a ∷ s.sent; buffer = s.buffer ++ a ∷ [] }
  ]

  unfoldable pub step : Event A → Stream A → Option (Stream A)
  unfolding on_deliver on_receive
  step deliver s = if s.running && s.outch then some (on_deliver s) else none
  step (receive a) s = if s.running then some (on_receive a s) else none
  step cancel s = if s.running then some (record s { running = false }) else none

  unfoldable pub run : List (Event A) → Stream A → Option (Stream A)
  run [] s = some s
  run (e ∷ es) s = elim (step e s) [ none ↦ none | some s' ↦ run es s' ]
