-- ===== src/Ds/Book/Runs.antt =====
-- Runs of the methods of `dsAddrBook`, and of the map that it stands for.
use go_libp2p_peerstore.Prelude.{
  ℕ, Bool, true, List, [], ◌∷◌, Option, none, some, Bytes, bytes_eq, int_eq, ℤ, ◌≤ℤ◌, leb_ℤ, pos,
  ◌≡◌, refl, sym, if◌then◌else◌, inl, inr, Bool-cases,
}
use mathlib.Core.Option
use mathlib.Core.Path.{subst}
use go_libp2p_peerstore.Mem.SubManager.{AddrSub, add_sub}
use go_libp2p_peerstore.Ds.Cache.{Cache}
use go_libp2p_peerstore.Ds.Record.{AddrEntry, ttl_override, ttl_extend, unix, clean_addrs}
use go_libp2p_peerstore.Ds.Store.{AddrStore}
use go_libp2p_peerstore.Ds.Book.{
  DsAddrBook, Times, set_addrs, add_addrs, addrs, clear_addrs, addr_stream, update_addrs,
}
use go_libp2p_peerstore.Ds.Book.Laws.{CacheLaws, StoreLaws}
use go_libp2p_peerstore.Ds.Book.Spec.{
  SpecBook, spec_set, spec_update, spec_delete, spec_addrs, spec_clear,
}
use go_libp2p_peerstore.Ds.Book.Represents.{Represents, IsSameOutcome}
use go_libp2p_peerstore.Ds.Record.Clean.{SortLaws}
use go_libp2p_peerstore.Ds.Book.Update.{update_addrs-Represents, delete_addrs_in-Represents}
use go_libp2p_peerstore.Ds.Book.Change.{set_addrs_in-Represents}
use go_libp2p_peerstore.Ds.Book.Read.{
  addrs-Represents, addr_stream-Represents, clear_addrs-Represents,
}

-- A call of a method, with the clock readings that it makes.
pub data Call (A : Type 0) : Type 0 where
  add_call set_call : Times → Bytes → List (Option A) → ℤ → Call A
  update_call : Times → Bytes → ℤ → ℤ → Call A
  addrs_call : ℤ → Bytes → Call A
  stream_call : ℤ → Bytes → AddrSub A → Call A
  clear_call : Bytes → Call A

module _ {A : Type 0} where
  -- The first clock reading of a call; a call that makes none comes right after the last one.
  unfoldable pub call_time : ℤ → Call A → ℤ
  call_time t (add_call ts p as' ttl) = if leb_ℤ ttl (pos 0) then t else unix ts.load
  call_time t (set_call ts p as' ttl) = unix ts.load
  call_time t (update_call ts p o n) = unix ts.load
  call_time t (addrs_call now p) = unix now
  call_time t (stream_call now p sub) = unix now
  call_time t (clear_call p) = t

  -- The seconds of the clock do not go back from call to call.
  abbrev pub IsTimed : ℤ → List (Call A) → Type 0
  IsTimed t [] = Unit
  IsTimed t (c ∷ cs) = (t ≤ℤ call_time t c) × IsTimed (call_time t c) cs

  module _ (sort : List (AddrEntry A) → List (AddrEntry A)) (same : A → A → Bool) where
    -- The addresses that a call returns or starts a stream with; `none` is a panic.
    unfoldable pub spec_call : Call A → SpecBook A → Option (List A × SpecBook A)
    spec_call (add_call ts p as' ttl) s =
        if leb_ℤ ttl (pos 0)
        then some ([], s)
        else some ([], spec_set sort same ttl_extend ts p (clean_addrs as') ttl s)
    spec_call (set_call ts p as' ttl) s =
        if leb_ℤ ttl (pos 0)
        then Option.map (λ s'. ([], s')) (spec_delete sort same ts p (clean_addrs as') s)
        else some ([], spec_set sort same ttl_override ts p (clean_addrs as') ttl s)
    spec_call (update_call ts p o n) s = some ([], spec_update sort same ts p o n s)
    spec_call (addrs_call now p) s = some (spec_addrs (unix now) p s, s)
    spec_call (stream_call now p sub) s =
        some (spec_addrs (unix now) p s, record s { subs_manager = add_sub s.subs_manager p sub })
    spec_call (clear_call p) s = some ([], spec_clear p s)

    unfoldable pub spec_calls : List (Call A) → SpecBook A → Option (List (List A))
    spec_calls [] s = some []
    spec_calls (c ∷ cs) s = elim (spec_call c s) [
      | none ↦ none
      | some (out, s') ↦ Option.map (λ outs. out ∷ outs) (spec_calls cs s')
    ]

module _ {C D K A : Type 0} (cache : Cache C Bytes ℕ) (st : AddrStore D K A)
    (sort : List (AddrEntry A) → List (AddrEntry A)) (same : A → A → Bool) where
  unfoldable pub run_call : Call A → DsAddrBook C D A → Option (List A × DsAddrBook C D A)
  run_call (add_call ts p as' ttl) b = some ([], add_addrs cache st sort same ts p as' ttl b)
  run_call (set_call ts p as' ttl) b =
      Option.map (λ b'. ([], b')) (set_addrs cache st sort same ts p as' ttl b)
  run_call (update_call ts p o n) b =
      Option.map (λ b'. ([], b')) (update_addrs cache st sort same ts p o n b)
  run_call (addrs_call now p) b = some (addrs cache st sort same now p b)
  run_call (stream_call now p sub) b = some (addr_stream cache st sort same now p sub b)
  run_call (clear_call p) b = some ([], clear_addrs cache st sort same p b)

  -- What the calls return, in their order, unless one of them panics.
  unfoldable pub run_calls : List (Call A) → DsAddrBook C D A → Option (List (List A))
  run_calls [] b = some []
  run_calls (c ∷ cs) b = elim (run_call c b) [
    | none ↦ none
    | some (out, b') ↦ Option.map (λ outs. out ∷ outs) (run_calls cs b')
  ]

  abbrev pub IsSameStep :
      ℤ → Option (List A × SpecBook A) → Option (List A × DsAddrBook C D A) → Type 0
  IsSameStep t none none = Unit
  IsSameStep t (some (out, s)) (some (out', b)) = (out ≡ out') × Represents cache st t s b
  IsSameStep t none (some r) = ⊥
  IsSameStep t (some r) none = ⊥

  outcome-IsSameStep :
      (t : ℤ) (s : Option (SpecBook A)) (b : Option (Bool × DsAddrBook C D A))
      → IsSameOutcome cache st t s b
      → IsSameStep t
          (Option.map (λ s'. ([], s')) s)
          (Option.map (λ b'. ([], b')) (Option.map (λ r. r.1) b))
  outcome-IsSameStep t none none h = tt
  outcome-IsSameStep t (some s) (some (good, b)) h = (refl, h.1)
  outcome-IsSameStep t none (some r) h = absurd h
  outcome-IsSameStep t (some s) none h = absurd h

  updated-IsSameStep :
      (t : ℤ) (s : SpecBook A) (b : Option (DsAddrBook C D A))
      → IsSameOutcome cache st t (some s) (Option.map (λ b'. (true, b')) b)
      → IsSameStep t (some ([], s)) (Option.map (λ b'. ([], b')) b)
  updated-IsSameStep t s none h = absurd h
  updated-IsSameStep t s (some b) h = (refl, h.1)

  -- The calls behind a call.
  after_call :
      (t : ℤ) (cs : List (Call A)) (o : Option (List A × SpecBook A))
      (r : Option (List A × DsAddrBook C D A))
      → IsSameStep t o r
      → ((s : SpecBook A) (b : DsAddrBook C D A)
          → Represents cache st t s b
          → run_calls cs b ≡ spec_calls sort same cs s)
      → (elim r as (λ x. Option (List (List A))) [
        | none ↦ none
        | some (out, b') ↦ Option.map (λ outs. out ∷ outs) (run_calls cs b')
      ])
        ≡ (elim o as (λ x. Option (List (List A))) [
          | none ↦ none
          | some (out, s') ↦ Option.map (λ outs. out ∷ outs) (spec_calls sort same cs s')
        ])
  after_call t cs none none h rest = refl
  after_call t cs (some (out, s')) (some (out', b')) h rest = rw (h.0, rest s' b' h.1) refl
  after_call t cs none (some r) h rest = absurd h
  after_call t cs (some o) none h rest = absurd h

  module _ (laws : StoreLaws st) (sort_laws : SortLaws sort) (cache_laws : CacheLaws cache) where
    -- The methods of the interface do to the book what the calls of the map do to it, and return the
    -- same.
    run_call-IsSameStep :
        (t : ℤ) (c : Call A) (s : SpecBook A) (b : DsAddrBook C D A)
        → t ≤ℤ call_time t c
        → Represents cache st t s b
        → IsSameStep (call_time t c) (spec_call sort same c s) (run_call c b)
    unfolding run_call spec_call call_time add_addrs set_addrs
    run_call-IsSameStep t (add_call ts p as' ttl) s b le rep =
        elim (Bool-cases (leb_ℤ ttl (pos 0))) [
          | inl past ↦ rw past (refl, rep)
          | inr ahead ↦ rw ahead (
            refl,
            (set_addrs_in-Represents cache st sort laws sort_laws cache_laws same t ttl_extend ts p
                (clean_addrs as') ttl s b
                (subst (λ x. t ≤ℤ (if x then t else unix ts.load)) ahead le) rep).1,
          )
        ]
    run_call-IsSameStep t (set_call ts p as' ttl) s b le rep =
        elim (Bool-cases (leb_ℤ ttl (pos 0))) [
          | inl past ↦ rw past (
              outcome-IsSameStep (unix ts.load) _ _ (
                delete_addrs_in-Represents cache st sort same laws sort_laws cache_laws t ts p
                  (clean_addrs as') s b le rep))
          | inr ahead ↦ rw ahead (
            refl,
            (set_addrs_in-Represents cache st sort laws sort_laws cache_laws same t ttl_override ts
                p (clean_addrs as') ttl s b le rep).1,
          )
        ]
    run_call-IsSameStep t (update_call ts p o n) s b le rep =
        updated-IsSameStep (unix ts.load) _ (update_addrs cache st sort same ts p o n b) (
          update_addrs-Represents cache st sort same laws sort_laws cache_laws t ts p o n s b le
            rep)
    run_call-IsSameStep t (addrs_call now p) s b le rep =
        let (out, rep') = addrs-Represents cache st laws cache_laws sort same t now p s b le rep in
        (sym out, rep')
    run_call-IsSameStep t (stream_call now p sub) s b le rep =
        let (out, rep') =
          addr_stream-Represents cache st laws cache_laws sort same t now p sub s b le rep in
        (sym out, rep')
    run_call-IsSameStep t (clear_call p) s b le rep =
        (refl, clear_addrs-Represents cache st laws cache_laws sort same t p s b rep)

    -- The calls of the book, with entries as values, do what the calls of the map do. Where the entries of
    -- the program are shared, the program does something else; see Ds/Book/Refine.
    pub run_calls-spec_calls :
        (t : ℤ) (cs : List (Call A)) (s : SpecBook A) (b : DsAddrBook C D A)
        → Represents cache st t s b
        → IsTimed t cs
        → run_calls cs b ≡ spec_calls sort same cs s
    unfolding run_calls spec_calls
    run_calls-spec_calls t [] s b rep timed = refl
    run_calls-spec_calls t (c ∷ cs) s b rep timed =
        after_call (call_time t c) cs (spec_call sort same c s) (run_call c b)
          (run_call-IsSameStep t c s b timed.0 rep)
          (λ s' b' rep'. run_calls-spec_calls (call_time t c) cs s' b' rep' timed.1)
