-- ===== src/Ds/Record/Set.antt =====
-- `setAddrs` on a record: what it holds afterwards for each address.
use go_libp2p_peerstore.Prelude.{
  Bool, true, List, [], ◌∷◌, ◌++◌, map, Option, none, some, Bytes, bytes_eq, int_eq, ℤ, ltb_ℤ, ◌≡◌,
  ◌↔◌, refl, ap, ◌∙◌, ◌==◌, ==_iff, if◌then◌else◌, arith, is_some,
}
use mathlib.Core.Option
use go_libp2p_peerstore.Ds.Record.{
  AddrEntry, AddrsRecord, TtlWriteMode, ttl_override, ttl_extend, set_existing, set_entries,
  set_record,
}

module _ {A : Type 0} where
  -- An entry that is set again: it keeps its TTL. Where it is only extended, a later expiry stays.
  unfoldable pub bumped : TtlWriteMode → ℤ → AddrEntry A → AddrEntry A
  bumped ttl_override exp e = record e { expiry = exp }
  bumped ttl_extend exp e = if ltb_ℤ exp e.expiry then e else record e { expiry = exp }

  bumped-bumped :
      (mode : TtlWriteMode) (exp : ℤ) (e : AddrEntry A)
      → bumped mode exp (bumped mode exp e) ≡ bumped mode exp e
  unfolding bumped
  bumped-bumped ttl_override exp e = refl
  bumped-bumped ttl_extend exp e = ground arith

  bumped_twice :
      (mode : TtlWriteMode) (exp : ℤ) (o : Option (AddrEntry A))
      → Option.map (bumped mode exp) (Option.map (bumped mode exp) o)
        ≡ Option.map (bumped mode exp) o
  bumped_twice mode exp none = refl
  bumped_twice mode exp (some e) = ap some (bumped-bumped mode exp e)

  -- What the record holds for an address after `setAddrs`: an entry that was there gets the new
  -- expiry if the address is among the given ones (when only extending, the later expiry stays)
  -- and keeps its TTL; an address that was not there gets a new entry if it is among the given
  -- ones; every other entry stays.
  unfoldable pub set_entry :
      TtlWriteMode → ℤ → ℤ → Option A → Option (AddrEntry A) → Option (AddrEntry A)
  set_entry mode exp ttl none o = o
  set_entry mode exp ttl (some a) (some e) = some (bumped mode exp e)
  set_entry mode exp ttl (some a) none = some (record { addr = a; expiry = exp; ttl = ttl })

module _ {A : Type 0} (bytes : A → Bytes) where
  -- The first entry of a record for an address, by its bytes, and the first address among some.
  unfoldable pub entry_of : Bytes → List (AddrEntry A) → Option (AddrEntry A)
  entry_of k [] = none
  entry_of k (e ∷ es) = if bytes e.addr == k then some e else entry_of k es

  unfoldable pub addr_of : Bytes → List A → Option A
  addr_of k [] = none
  addr_of k (a ∷ as') = if bytes a == k then some a else addr_of k as'

  module _ (same : A → A → Bool)
      (same_iff : (a b : A) → (same a b ≡ true) ↔ (bytes a ≡ bytes b)) where
    set_existing-is_some :
        (mode : TtlWriteMode) (exp : ℤ) (a : A) (es : List (AddrEntry A))
        → is_some (set_existing same mode exp a es) ≡ is_some (entry_of (bytes a) es)
    unfolding set_existing entry_of
    set_existing-is_some mode exp a [] = refl
    set_existing-is_some ttl_override exp a (e ∷ es) = ground (
      arith,
      same_iff a e.addr,
      ==_iff (bytes e.addr) (bytes a),
      set_existing-is_some ttl_override exp a es,
    )
    set_existing-is_some ttl_extend exp a (e ∷ es) = ground (
      arith,
      same_iff a e.addr,
      ==_iff (bytes e.addr) (bytes a),
      set_existing-is_some ttl_extend exp a es,
    )

    entry_of-set_existing :
        (mode : TtlWriteMode) (exp : ℤ) (a : A) (es : List (AddrEntry A)) (k : Bytes)
        → entry_of k (Option.get_or (set_existing same mode exp a es) es)
          ≡ (if bytes a == k then Option.map (bumped mode exp) (entry_of k es) else entry_of k es)
    unfolding set_existing entry_of bumped
    entry_of-set_existing mode exp a [] k = ground arith
    entry_of-set_existing mode exp a (e ∷ es) k = ground (
      arith,
      same_iff a e.addr,
      ==_iff (bytes e.addr) (bytes a),
      ==_iff (bytes e.addr) k,
      ==_iff (bytes a) k,
      entry_of-set_existing mode exp a es k,
    )

    entry_of-set_entries :
        (mode : TtlWriteMode) (exp : ℤ) (as' : List A) (es : List (AddrEntry A)) (k : Bytes)
        → (entry_of k (set_entries same mode exp as' es).0 ≡ (
            if is_some (addr_of k as')
            then Option.map (bumped mode exp) (entry_of k es)
            else entry_of k es))
          × (addr_of k (set_entries same mode exp as' es).1
              ≡ (if is_some (entry_of k es) then none else addr_of k as'))
    unfolding set_entries addr_of
    entry_of-set_entries mode exp [] es k = ground arith
    entry_of-set_entries mode exp (a ∷ as') es k = ground (
      arith,
      ==_iff (bytes a) k,
      set_existing-is_some mode exp a es,
      entry_of-set_existing mode exp a es k,
      entry_of-set_entries mode exp as' (Option.get_or (set_existing same mode exp a es) es) k,
      bumped_twice mode exp (entry_of k es),
    )

    entry_of-append :
        (es fs : List (AddrEntry A)) (k : Bytes)
        → entry_of k (es ++ fs) ≡ elim (entry_of k es) as (λ _. Option (AddrEntry A)) [
          | none ↦ entry_of k fs
          | some e ↦ some e
        ]
    unfolding entry_of
    entry_of-append [] fs k = refl
    entry_of-append (e ∷ es) fs k = ground (arith, entry_of-append es fs k)

    entry_of-map :
        (exp ttl : ℤ) (as' : List A) (k : Bytes)
        → entry_of k (map (λ a. record { addr = a; expiry = exp; ttl = ttl }) as')
          ≡ Option.map (λ a. record { addr = a; expiry = exp; ttl = ttl }) (addr_of k as')
    unfolding entry_of addr_of
    entry_of-map exp ttl [] k = refl
    entry_of-map exp ttl (a ∷ as') k = ground (arith, entry_of-map exp ttl as' k)

    -- After `setAddrs`, before the record is cleaned, the record is marked for writing and holds
    -- for each address what `set_entry` says. The addresses that it broadcasts are those given
    -- ones that the record did not hold.
    pub entry_of-set_record :
        (mode : TtlWriteMode) (exp ttl : ℤ) (as' : List A) (r : AddrsRecord A) (k : Bytes)
        → (entry_of k (set_record same mode exp ttl as' r).0.addrs
            ≡ set_entry mode exp ttl (addr_of k as') (entry_of k r.addrs))
          × ((set_record same mode exp ttl as' r).0.dirty ≡ true)
          × (addr_of k (set_record same mode exp ttl as' r).1
              ≡ (if is_some (entry_of k r.addrs) then none else addr_of k as'))
    unfolding set_record set_entry
    entry_of-set_record mode exp ttl as' r k =
        let new = set_entries same mode exp as' r.addrs in
        let step = entry_of-set_entries mode exp as' r.addrs k in
        let mk : A → AddrEntry A = λ a. record { addr = a; expiry = exp; ttl = ttl } in
        (
          entry_of-append new.0 (map mk new.1) k
              ∙ ground (arith, step.0, step.1, entry_of-map exp ttl new.1 k),
          refl,
          step.1,
        )
