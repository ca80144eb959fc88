-- ===== src/Mem/AddrBook.antt =====
-- pstoremem/addr_book.go, `memoryAddrBook`: addresses with an expiry, by peer and by the bytes of
-- the multiaddress. A multiaddress is an abstract type with its bytes; `none` is a nil one.
-- A method that reads the clock takes what `time.Now()` returns, one reading for each call.
pub mod Stored
pub mod Valid
pub mod Loops
pub mod Methods
pub mod Refine
mod Tests
pub mod Gc
use go_libp2p_peerstore.Prelude.{
  ◌-◌, ◌*◌, Bool, true, List, [], ◌∷◌, map, Option, none, some, Bytes, bytes_eq, int_eq, ℤ, pos,
  negsuc, ◌+ℤ◌, ltb_ℤ, leb_ℤ, ◌==◌, if◌then◌else◌,
}
use go_libp2p_peerstore.Prelude.Maps.{Map, keys, lookup, insert, delete}
use go_libp2p_peerstore.Mem.SubManager.{AddrSubManager, broadcast_addr}
use mathlib.Core.Option.{get_or}

pub record ExpiringAddr (A : Type 0) : Type 0 where
  pub addr : A
  pub ttl : ℤ
  pub expires : ℤ

abbrev pub AddrMap : Type 0 → Type 0
AddrMap A = Map Bytes (ExpiringAddr A)

pub record MemoryAddrBook (A : Type 0) : Type 0 where
  pub addrs : Map Bytes (AddrMap A)
  pub next_gc : ℤ
  pub sub_manager : AddrSubManager A

-- What a method's calls of `time.Now()` return: its own, and the two of `gc`.
pub record Clock : Type 0 where
  pub now : ℤ
  pub gc_now : ℤ
  pub gc_next : ℤ

-- `AddressTTL`, an hour in nanoseconds.
abbrev pub address_ttl : ℤ
address_ttl = pos (3600 * 1_000_000_000)

-- The zero `time.Time`, the first of January of the year 1, in nanoseconds from 1970.
abbrev pub zero_time : ℤ
zero_time = negsuc (62_135_596_800 * 1_000_000_000 - 1)

module _ {A : Type 0} where
  -- `ExpiredBy`
  unfoldable pub expired_by : ExpiringAddr A → ℤ → Bool
  expired_by e t = ltb_ℤ e.expires t

  unfoldable pub new_addr_book : MemoryAddrBook A
  new_addr_book = record { addrs = []; next_gc = zero_time; sub_manager = [] }

  -- The inner loop of `gc`, and the one of `Addrs`: delete what has expired.
  unfoldable pub drop_expired : ℤ → AddrMap A → AddrMap A
  unfolding expired_by
  drop_expired now [] = []
  drop_expired now ((k, e) ∷ amap) =
      let rest = drop_expired now amap in if expired_by e now then rest else (k, e) ∷ rest

  -- One round of the outer loop: a peer stays if an address is left.
  unfoldable pub keep_peer : Bytes → AddrMap A → Map Bytes (AddrMap A) → Map Bytes (AddrMap A)
  keep_peer p [] rest = rest
  keep_peer p (x ∷ amap) rest = (p, x ∷ amap) ∷ rest

  unfoldable pub gc_loop : ℤ → Map Bytes (AddrMap A) → Map Bytes (AddrMap A)
  unfolding keep_peer
  gc_loop now [] = []
  gc_loop now ((p, amap) ∷ addrs) = keep_peer p (drop_expired now amap) (gc_loop now addrs)

  unfoldable pub gc : ℤ → ℤ → MemoryAddrBook A → MemoryAddrBook A
  gc now next b =
      if ltb_ℤ b.next_gc now
      then record b { addrs = gc_loop now b.addrs; next_gc = next +ℤ address_ttl }
      else b

  unfoldable pub peers_with_addrs : MemoryAddrBook A → List Bytes
  peers_with_addrs b = keys b.addrs

  -- `mab.addrs[p]`, with an empty map made where there was none
  abbrev pub addr_map : MemoryAddrBook A → Bytes → AddrMap A
  addr_map b p = get_or (lookup p b.addrs) []

  -- `!found || exp.After(a.Expires)`
  unfoldable pub is_outdated : ℤ → Option (ExpiringAddr A) → Bool
  is_outdated exp none = true
  is_outdated exp (some e) = ltb_ℤ e.expires exp

  unfoldable pub update_loop : ℤ → ℤ → ℤ → AddrMap A → AddrMap A
  update_loop old_ttl new_ttl exp [] = []
  update_loop old_ttl new_ttl exp ((k, e) ∷ amap) =
      (k, (if old_ttl == e.ttl then record e { ttl = new_ttl; expires = exp } else e))
      ∷ update_loop old_ttl new_ttl exp amap

  unfoldable pub update_addrs : MemoryAddrBook A → Clock → Bytes → ℤ → ℤ → MemoryAddrBook A
  update_addrs b c p old_ttl new_ttl = elim (lookup p b.addrs) [
    | none ↦ b
    | some amap ↦
        let exp = c.now +ℤ new_ttl in
        let amap' = update_loop old_ttl new_ttl exp amap in
        gc c.gc_now c.gc_next (record b { addrs = insert p amap' b.addrs })
  ]

  -- `Addrs`: the addresses that are valid now. It also deletes the others.
  unfoldable pub addrs : MemoryAddrBook A → ℤ → Bytes → MemoryAddrBook A × List A
  addrs b now p = elim (lookup p b.addrs) [
    | none ↦ (b, [])
    | some amap ↦
        let good = drop_expired now amap in
        (record b { addrs = insert p good b.addrs }, map (λ (k, e). e.addr) good)
  ]

  unfoldable pub clear_addrs : MemoryAddrBook A → Bytes → MemoryAddrBook A
  clear_addrs b p = record b { addrs = delete p b.addrs }

  -- What `AddrStream` hands to the subscription manager as the initial addresses.
  unfoldable pub initial_addrs : MemoryAddrBook A → Bytes → List A
  initial_addrs b p = map (λ (k, e). e.addr) (addr_map b p)

module _ {A : Type 0} (bytes : A → Bytes) where
  -- One round of the loop of `AddAddrs`.
  unfoldable pub add_step :
      Bytes → ℤ → ℤ → A → AddrMap A × AddrSubManager A → AddrMap A × AddrSubManager A
  unfolding is_outdated
  add_step p exp ttl a (amap, mgr) =
      if is_outdated exp (lookup (bytes a) amap)
      then (
        insert (bytes a) (record { addr = a; ttl = ttl; expires = exp }) amap,
        broadcast_addr mgr p a,
      )
      else (amap, mgr)

  unfoldable pub add_loop :
      Bytes → ℤ → ℤ → List (Option A) → AddrMap A × AddrSubManager A → AddrMap A × AddrSubManager A
  unfolding add_step
  add_loop p exp ttl [] s = s
  add_loop p exp ttl (none ∷ as') s = add_loop p exp ttl as' s
  add_loop p exp ttl (some a ∷ as') s = add_loop p exp ttl as' (add_step p exp ttl a s)

  unfoldable pub add_addrs :
      MemoryAddrBook A → Clock → Bytes → List (Option A) → ℤ → MemoryAddrBook A
  add_addrs b c p as' ttl =
      if leb_ℤ ttl (pos 0)
      then b
      else (let (amap, mgr) = add_loop p (c.now +ℤ ttl) ttl as' (addr_map b p, b.sub_manager) in
          gc c.gc_now c.gc_next (record b { addrs = insert p amap b.addrs; sub_manager = mgr }))

  unfoldable pub add_addr : MemoryAddrBook A → Clock → Bytes → Option A → ℤ → MemoryAddrBook A
  add_addr b c p a ttl = add_addrs b c p (a ∷ []) ttl

  -- One round of the loop of `SetAddrs`.
  unfoldable pub set_step :
      Bytes → ℤ → ℤ → A → AddrMap A × AddrSubManager A → AddrMap A × AddrSubManager A
  set_step p exp ttl a (amap, mgr) =
      if ltb_ℤ (pos 0) ttl
      then (
        insert (bytes a) (record { addr = a; ttl = ttl; expires = exp }) amap,
        broadcast_addr mgr p a,
      )
      else (delete (bytes a) amap, mgr)

  unfoldable pub set_loop :
      Bytes → ℤ → ℤ → List (Option A) → AddrMap A × AddrSubManager A → AddrMap A × AddrSubManager A
  unfolding set_step
  set_loop p exp ttl [] s = s
  set_loop p exp ttl (none ∷ as') s = set_loop p exp ttl as' s
  set_loop p exp ttl (some a ∷ as') s = set_loop p exp ttl as' (set_step p exp ttl a s)

  unfoldable pub set_addrs :
      MemoryAddrBook A → Clock → Bytes → List (Option A) → ℤ → MemoryAddrBook A
  set_addrs b c p as' ttl =
      let (amap, mgr) = set_loop p (c.now +ℤ ttl) ttl as' (addr_map b p, b.sub_manager) in
      gc c.gc_now c.gc_next (record b { addrs = insert p amap b.addrs; sub_manager = mgr })

  unfoldable pub set_addr : MemoryAddrBook A → Clock → Bytes → Option A → ℤ → MemoryAddrBook A
  set_addr b c p a ttl = set_addrs b c p (a ∷ []) ttl
