-- ===== src/Ds/Options.antt =====
-- pstoreds: the options of peerstore.go, and what the constructors of addr_book_gc.go and addr_book.go make
-- of them. Durations are in nanoseconds.
use go_libp2p_peerstore.Prelude.{
  ℕ, Bool, false, ◌&&◌, [], Option, none, some, Bytes, bytes_eq, int_eq, ℤ, ltb_ℤ, pos, ◌≡◌, ◌≢◌,
  ◌⊎◌, refl, if◌then◌else◌, arith, inl, inr,
}
use mathlib.Core.Option
use go_libp2p_peerstore.Prelude.{ltb}
use go_libp2p_peerstore.Ds.Cache.{Cache}
use go_libp2p_peerstore.Ds.Book.{DsAddrBook}
use go_libp2p_peerstore.Ds.Book.Laws.{CacheLaws}
use go_libp2p_peerstore.Prelude.{◌*◌}

pub record Options : Type 0 where
  pub cache_size : ℕ
  pub gc_purge_interval : ℤ
  pub gc_lookahead_interval : ℤ
  pub gc_initial_delay : ℤ

-- `DefaultOpts`
abbrev pub default_opts : Options
default_opts = record {
  cache_size = 1024;
  gc_purge_interval = pos (2 * 3600 * 1_000_000_000);
  gc_lookahead_interval = pos 0;
  gc_initial_delay = pos (60 * 1_000_000_000);
}

-- Why a book is not made.
pub data OpenError : Type 0 where
  negative_purge_interval negative_lookahead_interval negative_initial_delay : OpenError
  lookahead_too_short : OpenError
  no_cache : OpenError

-- What `newAddressBookGc` decides: whether it looks ahead, and whether it starts the goroutine.
pub record GcPlan : Type 0 where
  pub lookahead_enabled : Bool
  pub in_background : Bool

-- `newAddressBookGc`: the error, or the plan.
unfoldable pub new_address_book_gc : Options → OpenError ⊎ GcPlan
new_address_book_gc o =
    if ltb_ℤ o.gc_purge_interval (pos 0)
    then inl negative_purge_interval
    else if ltb_ℤ o.gc_lookahead_interval (pos 0)
    then inl negative_lookahead_interval
    else if ltb_ℤ o.gc_initial_delay (pos 0)
    then inl negative_initial_delay
    else if ltb_ℤ (pos 0) o.gc_lookahead_interval
        && ltb_ℤ o.gc_lookahead_interval o.gc_purge_interval
    then inl lookahead_too_short
    else inr (record {
      lookahead_enabled = ltb_ℤ (pos 0) o.gc_lookahead_interval;
      in_background = ltb_ℤ (pos 0) o.gc_purge_interval;
    })

-- The cache of a book: `none` is `noopCache`.
unfoldable pub book_cache : {C K V : Type 0} → Cache C K V → Cache (Option C) K V
book_cache arc = record {
  get = λ k c. elim c [ none ↦ (none, none) | some a ↦ let (v, a') = arc.get k a in (v, some a') ];
  add = λ k v c. Option.map (arc.add k v) c;
  remove = λ k c. Option.map (arc.remove k) c;
  contains = λ k c. elim c [ none ↦ false | some a ↦ arc.contains k a ];
  peek = λ k c. elim c [ none ↦ none | some a ↦ arc.peek k a ];
  cached_keys = λ c. elim c [ none ↦ [] | some a ↦ arc.cached_keys a ];
}

module _ {C : Type 0} (new_arc : ℕ → Option C) where
  unfoldable pub new_cache : ℕ → OpenError ⊎ Option C
  new_cache size =
      let arc : OpenError ⊎ Option C = elim (new_arc size) [
        | none ↦ inl no_cache
        | some a ↦ inr (some a)
      ] in
      if ltb 0 size then arc else inr none

module _ {C D A : Type 0} (new_arc : ℕ → Option C) where
  -- `NewAddrBook`, with the plan of its collector.
  unfoldable pub new_ds_addr_book : D → Options → OpenError ⊎ (DsAddrBook (Option C) D A × GcPlan)
  new_ds_addr_book store o = elim (new_cache new_arc o.cache_size) [
    | inl e ↦ inl e
    | inr c ↦ elim (new_address_book_gc o) [
      | inl e ↦ inl e
      | inr plan ↦ inr (record { cache = c; heap = []; ds = store; subs_manager = [] }, plan)
    ]
  ]

module _ {C V : Type 0} (arc : Cache C Bytes V) (laws : CacheLaws arc) where
  -- The cache of a book meets the laws of a cache, whether it is an ARC cache that does, or disabled.
  pub book_cache-CacheLaws : CacheLaws (book_cache arc)
  unfolding book_cache
  book_cache-CacheLaws = record {
    get_peek = get_peek;
    peek_get = peek_get;
    peek_add = peek_add;
    peek_remove = peek_remove;
  }
    where
      get_peek :
          (k : Bytes) (c : Option C) → ((book_cache arc).get k c).0 ≡ (book_cache arc).peek k c
      get_peek k none = refl
      get_peek k (some c) = laws.get_peek k c

      peek_get :
          (j k : Bytes) (c : Option C)
          → (book_cache arc).peek j ((book_cache arc).get k c).1 ≡ (book_cache arc).peek j c
      peek_get j k none = refl
      peek_get j k (some c) = laws.peek_get j k c

      peek_add :
          (j k : Bytes) (v w : V) (c : Option C)
          → (book_cache arc).peek j ((book_cache arc).add k v c) ≡ some w
          → ((j ≡ k) × (w ≡ v)) ⊎ ((j ≢ k) × ((book_cache arc).peek j c ≡ some w))
      peek_add j k v w none h = absurd (ground arith)
      peek_add j k v w (some c) h = laws.peek_add j k v w c h

      peek_remove :
          (j k : Bytes) (w : V) (c : Option C)
          → (book_cache arc).peek j ((book_cache arc).remove k c) ≡ some w
          → (j ≢ k) × ((book_cache arc).peek j c ≡ some w)
      peek_remove j k w none h = absurd (ground arith)
      peek_remove j k w (some c) h = laws.peek_remove j k w c h
