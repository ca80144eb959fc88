-- ===== src/Ds/Record.antt =====
-- pstoreds/addr_book.go: a peer's record of addresses, and what the methods of the address book do
-- to it under its lock. Times are Unix seconds here. `same` is `Multiaddr.Equal`; `sort` is what
-- `sort.Slice` returns for the order by expiry. `none` is a panic on an index out of range.
-- The entries of a record are pointers in the Go code and values here. Ds/Record/Pointers has the loops
-- that write entries or copy pointers as the Go code has them, and Ds/Record/Unshared compares the two.
pub mod Clean
pub mod Set
pub mod Delete
pub mod Slots
pub mod Pointers
pub mod Unshared
pub mod InsertionSort
mod Tests
use go_libp2p_peerstore.Prelude.{
  ℕ, zero, suc, ◌+◌, ◌≤◌, ◌<◌, Bool, true, false, not, ◌&&◌, ◌||◌, List, [], ◌∷◌, ◌++◌, map, Option,
  none, some, Bytes, bytes_eq, int_eq, ℤ, ◌≤ℤ◌, ◌<ℤ◌, ◌+ℤ◌, +ℤ_parts, ltb_ℤ, leb_ℤ, pos, negsuc,
  ◌≡◌, ◌≢◌, ◌↔◌, ◌⊎◌, refl, sym, ap, ◌∙◌, ◌==◌, ==_iff, if◌then◌else◌, arith, inl, inr, Bool-cases,
  Option-cases, is_some, All, length,
}
use go_libp2p_peerstore.Prelude.Maps.{
  Map, lookup, insert, delete, lookup-insert, lookup-delete, IsMap, AllValues, contains, IsDistinct,
  keys, contains-keys, AllValues-lookup, AllValues-insert, AllValues-delete, insert-IsMap,
  delete-IsMap,
}
use mathlib.Core.Option
use go_libp2p_peerstore.Prelude.{◌-◌, ◌/◌, ◌*◌, drop, take, set, get_elem?, ltb, nat_beq}

pub record AddrEntry (A : Type 0) : Type 0 where
  pub addr : A
  pub expiry : ℤ
  pub ttl : ℤ

pub record AddrsRecord (A : Type 0) : Type 0 where
  pub id : Bytes
  pub addrs : List (AddrEntry A)
  pub dirty : Bool

pub data TtlWriteMode : Type 0 where
  ttl_override ttl_extend : TtlWriteMode

-- `Time.Unix`: nanoseconds to seconds, downwards.
unfoldable pub unix : ℤ → ℤ
unix (pos n) = pos (n / 1_000_000_000)
unix (negsuc n) = negsuc (n / 1_000_000_000)

-- What `flush` asks of the datastore.
pub data WriteOp (A : Type 0) : Type 0 where
  put : AddrsRecord A → WriteOp A
  remove : Bytes → WriteOp A

module _ {A : Type 0} where
  -- How many of the first entries `clean` cuts off: the pivot and one.
  unfoldable pub expired_prefix : ℤ → List (AddrEntry A) → ℕ
  expired_prefix now [] = 0
  expired_prefix now (e ∷ es) =
      let rest = expired_prefix now es in if ltb_ℤ now e.expiry then 0 else suc rest

  -- `len(r.Addrs) > 0 && r.Addrs[0].Expiry > now`
  unfoldable pub starts_after : ℤ → List (AddrEntry A) → Bool
  starts_after now [] = false
  starts_after now (e ∷ es) = ltb_ℤ now e.expiry

  -- The operation with which `flush` writes the record, and the record once it has succeeded.
  unfoldable pub flush_op : AddrsRecord A → WriteOp A
  flush_op r = if nat_beq (length r.addrs) 0 then remove r.id else put r

  unfoldable pub flushed : AddrsRecord A → AddrsRecord A
  flushed r = record r { dirty = false }

  -- The loop of `UpdateAddrs` over the record.
  unfoldable pub update_entries : ℤ → ℤ → ℤ → List (AddrEntry A) → List (AddrEntry A) × Bool
  update_entries old_ttl new_ttl exp [] = ([], false)
  update_entries old_ttl new_ttl exp (e ∷ es) =
      let (rest, changed) = update_entries old_ttl new_ttl exp es in
      if e.ttl == old_ttl
      then ((record e { ttl = new_ttl; expiry = exp }) ∷ rest, true)
      else (e ∷ rest, changed)

  -- `cleanAddrs`
  unfoldable pub clean_addrs : List (Option A) → List A
  clean_addrs [] = []
  clean_addrs (none ∷ as') = clean_addrs as'
  clean_addrs (some a ∷ as') = a ∷ clean_addrs as'

module _ {A : Type 0} (sort : List (AddrEntry A) → List (AddrEntry A)) where
  -- `clean`: the record, and whether it changed.
  unfoldable pub clean : ℤ → AddrsRecord A → AddrsRecord A × Bool
  clean now r =
      if not r.dirty && starts_after now r.addrs
      then (r, false)
      else if nat_beq (length r.addrs) 0
      then (r, true)
      else (let sorted = if r.dirty && ltb 1 (length r.addrs) then sort r.addrs else r.addrs in
          let n = expired_prefix now sorted in
          (record r { addrs = drop n sorted }, r.dirty || ltb 0 n))

  -- `UpdateAddrs` on the loaded record, up to the flush.
  unfoldable pub update_record : ℤ → ℤ → ℤ → ℤ → AddrsRecord A → AddrsRecord A × Bool
  update_record now old_ttl new_ttl exp r =
      let (es, changed) = update_entries old_ttl new_ttl exp r.addrs in
      clean now (record r { addrs = es; dirty = r.dirty || changed })

module _ {E A : Type 0} (matches : E → A → Bool) where
  -- The inner loop of `deleteAddrs` at the index `i`, over the addresses to delete. The slice of
  -- entries is written in place, and may hold pointers to them.
  unfoldable pub delete_inner : ℕ → List A → List E × ℕ → Option (List E × ℕ)
  delete_inner i [] s = some s
  delete_inner i (del ∷ dels) (es, survived) = elim (get_elem? es i) [
    | none ↦ none
    | some e ↦
        let write = delete_inner i dels (set es survived e, survived + 1) in
        let keep = delete_inner i dels (es, survived + 1) in
        let skip = delete_inner i dels (es, survived) in
        if matches e del
        then skip
        else if nat_beq i survived
        then keep
        else if ltb survived (length es)
        then write
        else none
  ]

  -- The outer loop, with the number of rounds left.
  unfoldable pub delete_outer : ℕ → ℕ → List A → List E × ℕ → Option (List E × ℕ)
  delete_outer zero i dels s = some s
  delete_outer (suc n) i dels s = elim (delete_inner i dels s) [
    | none ↦ none
    | some s' ↦ delete_outer n (i + 1) dels s'
  ]

-- The entry is for the address.
abbrev pub same_addr : {A : Type 0} → (A → A → Bool) → AddrEntry A → A → Bool
same_addr same e del = same e.addr del

module _ {A : Type 0} (same : A → A → Bool) where
  -- The inner loop of `setAddrs`: the first entry with the address, if there is one, gets the new
  -- expiry, unless it is only to be extended and expires later.
  unfoldable pub set_existing :
      TtlWriteMode → ℤ → A → List (AddrEntry A) → Option (List (AddrEntry A))
  set_existing mode exp a [] = none
  set_existing mode exp a (e ∷ es) =
      let rest = Option.map (λ es'. e ∷ es') (set_existing mode exp a es) in
      if same a e.addr
      then elim mode [
        | ttl_extend ↦ some ((if ltb_ℤ exp e.expiry then e else record e { expiry = exp }) ∷ es)
        | ttl_override ↦ some ((record e { expiry = exp }) ∷ es)
      ]
      else rest

  -- The outer loop: the entries, and the addresses that were not found, in order.
  unfoldable pub set_entries :
      TtlWriteMode → ℤ → List A → List (AddrEntry A) → List (AddrEntry A) × List A
  set_entries mode exp [] es = (es, [])
  set_entries mode exp (a ∷ as') es =
      let (es', missing) =
        set_entries mode exp as' (Option.get_or (set_existing mode exp a es) es) in
      (es', (if is_some (set_existing mode exp a es) then missing else a ∷ missing))

  -- `setAddrs` on the loaded record: the record before `clean`, and the addresses to broadcast.
  unfoldable pub set_record : TtlWriteMode → ℤ → ℤ → List A → AddrsRecord A → AddrsRecord A × List A
  set_record mode exp ttl as' r =
      let (es, missing) = set_entries mode exp as' r.addrs in
      let added = map (λ a. record { addr = a; expiry = exp; ttl = ttl }) missing in
      (record r { addrs = es ++ added; dirty = true }, missing)

  -- `deleteAddrs` on the loaded record, up to `clean`.
  unfoldable pub delete_record : List A → AddrsRecord A → Option (AddrsRecord A)
  delete_record dels r = elim (delete_outer (same_addr same) (length r.addrs) 0 dels (r.addrs, 0)) [
    | none ↦ none
    | some (es, survived) ↦ some (record r { addrs = take survived es; dirty = true })
  ]
