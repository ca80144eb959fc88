-- ===== src/Mem/AddrBook/Refine.antt =====
-- The methods of the book against a specification with no collection and no representation: for
-- each peer and the bytes of each address, the last entry written.
use go_libp2p_peerstore.Prelude.{
  List, [], ◌∷◌, map, Option, none, some, Bytes, bytes_eq, int_eq, ℤ, ◌≤ℤ◌, ◌+ℤ◌, +ℤ_parts, leb_ℤ,
  pos, ◌≡◌, refl, ap, ◌∙◌, ◌==◌, if◌then◌else◌, arith, is_some,
}
use go_libp2p_peerstore.Prelude.Maps.{lookup, contains}
use go_libp2p_peerstore.Mem.AddrBook
use go_libp2p_peerstore.Mem.AddrBook.{
  AddrMap, ExpiringAddr, MemoryAddrBook, Clock, add_addrs, set_addrs, clear_addrs, addr_map,
  add_loop, set_loop, is_outdated, drop_expired, expired_by, new_addr_book,
}
use go_libp2p_peerstore.Mem.AddrBook.Stored.{stored, live_at}
use go_libp2p_peerstore.Mem.AddrBook.Valid.{IsValid}
use go_libp2p_peerstore.Mem.AddrBook.Loops.{extended, overridden, find_first, find_last}
use go_libp2p_peerstore.Mem.AddrBook.Methods.{
  new_addr_book-IsValid, add_addrs-IsValid, set_addrs-IsValid, clear_addrs-IsValid, addrs-IsValid,
  live_at-add_addrs, live_at-set_addrs, live_at-clear_addrs, live_at-addrs, contains-addrs,
}

-- A call of a method of the address book, with its readings of the clock.
pub data Call (A : Type 0) : Type 0 where
  add : Clock → Bytes → List (Option A) → ℤ → Call A
  set : Clock → Bytes → List (Option A) → ℤ → Call A
  clear : Bytes → Call A
  read : ℤ → Bytes → Call A

-- The specification's state: the entry last written for a peer and the bytes of an address.
abbrev pub Entries : Type 0 → Type 0
Entries A = Bytes → Bytes → Option (ExpiringAddr A)

-- The call's clock readings do not run backwards from `t`, and end at `u`.
abbrev pub Timed : {A : Type 0} → ℤ → Call A → ℤ → Type 0
Timed t (add c p as' ttl) u = (t ≤ℤ c.now) × (c.now ≤ℤ c.gc_now) × (c.gc_now ≤ℤ u)
Timed t (set c p as' ttl) u = (t ≤ℤ c.now) × (c.now ≤ℤ c.gc_now) × (c.gc_now ≤ℤ u)
Timed t (clear p) u = t ≤ℤ u
Timed t (read now p) u = (t ≤ℤ now) × (now ≤ℤ u)

-- Each call of a history ends by its time in the list, and the next one starts from there.
abbrev pub InOrder : {A : Type 0} → ℤ → List (Call A) → List ℤ → ℤ → Type 0
InOrder t [] [] u = t ≤ℤ u
InOrder t (o ∷ os) (x ∷ ts) u = Timed t o x × InOrder x os ts u
InOrder t _ _ u = ⊥

module _ {A : Type 0} where
  -- The book and the specification agree on what is live at every time from `t` on.
  abbrev pub Agrees : ℤ → MemoryAddrBook A → Entries A → Type 0
  Agrees t b s = (u : ℤ) (p k : Bytes) → t ≤ℤ u → live_at u (stored p k b.addrs) ≡ live_at u (s p k)

  new_addr_book-Agrees : (t : ℤ) → Agrees t (new_addr_book {A = A}) (λ _ _. none)
  unfolding new_addr_book stored lookup
  new_addr_book-Agrees t u p k h = refl

  -- An extension gives the same live entry from entries that agree: one that has expired before
  -- the new expiry is replaced like one that is absent.
  live_at-extended :
      (t u exp ttl : ℤ) (m : Option A) (o o' : Option (ExpiringAddr A))
      → live_at t o ≡ live_at t o'
      → live_at u o ≡ live_at u o'
      → t ≤ℤ exp
      → live_at u (extended exp ttl m o) ≡ live_at u (extended exp ttl m o')
  unfolding live_at extended
  live_at-extended t u exp ttl none o o' h g q = g
  live_at-extended t u exp ttl (some a) none none h g q = refl
  live_at-extended t u exp ttl (some a) none (some e') h g q = ground arith
  live_at-extended t u exp ttl (some a) (some e) none h g q = ground arith
  live_at-extended t u exp ttl (some a) (some e) (some e') h g q = ground arith

  live_at-overridden :
      (u exp ttl : ℤ) (m : Option A) (o o' : Option (ExpiringAddr A))
      → live_at u o ≡ live_at u o'
      → live_at u (overridden exp ttl m o) ≡ live_at u (overridden exp ttl m o')
  unfolding overridden
  live_at-overridden u exp ttl none o o' g = g
  live_at-overridden u exp ttl (some a) o o' g = refl

module _ {A : Type 0} (bytes : A → Bytes) where
  unfoldable pub call : Call A → MemoryAddrBook A → MemoryAddrBook A
  call (add c p as' ttl) b = add_addrs bytes b c p as' ttl
  call (set c p as' ttl) b = set_addrs bytes b c p as' ttl
  call (clear p) b = clear_addrs b p
  call (read now p) b = (AddrBook.addrs b now p).0

  -- The specification of a call: what is added extends, what is set overrides, a clear forgets the
  -- peer, and a read changes nothing.
  unfoldable pub spec_call : Call A → Entries A → Entries A
  spec_call (add c p as' ttl) s q k =
      if leb_ℤ ttl (pos 0)
      then s q k
      else if p == q
      then extended (c.now +ℤ ttl) ttl (find_first bytes k as') (s p k)
      else s q k
  spec_call (set c p as' ttl) s q k =
      if p == q then overridden (c.now +ℤ ttl) ttl (find_last bytes k as') (s p k) else s q k
  spec_call (clear p) s q k = if p == q then none else s q k
  spec_call (read now p) s q k = s q k

  call-IsValid : (o : Call A) (b : MemoryAddrBook A) → IsValid bytes b → IsValid bytes (call o b)
  unfolding call
  call-IsValid (add c p as' ttl) b v = add_addrs-IsValid bytes b v c p as' ttl
  call-IsValid (set c p as' ttl) b v = set_addrs-IsValid bytes b v c p as' ttl
  call-IsValid (clear p) b v = clear_addrs-IsValid bytes b v p
  call-IsValid (read now p) b v = addrs-IsValid bytes b v now p

  call-Agrees :
      (o : Call A) (t u : ℤ) (b : MemoryAddrBook A) (s : Entries A)
      → IsValid bytes b
      → Timed t o u
      → Agrees t b s
      → Agrees u (call o b) (spec_call o s)
  unfolding call spec_call
  call-Agrees (add c p as' ttl) t u b s v h g w q k le = ground (
    arith,
    live_at-add_addrs bytes b v c p as' ttl w q k,
    live_at-extended t w (c.now +ℤ ttl) ttl (find_first bytes k as') (stored p k b.addrs) (s p k),
    +ℤ_parts c.now ttl,
    g t p k,
    g w p k,
    g w q k,
  )
  call-Agrees (set c p as' ttl) t u b s v h g w q k le = ground (
    arith,
    live_at-set_addrs bytes b v c p as' ttl w q k,
    live_at-overridden w (c.now +ℤ ttl) ttl (find_last bytes k as') (stored p k b.addrs) (s p k),
    g w p k,
    g w q k,
  )
  call-Agrees (clear p) t u b s v h g w q k le =
      ground (arith, live_at-clear_addrs b w p q k, g w q k)
  call-Agrees (read now p) t u b s v h g w q k le =
      ground (arith, live_at-addrs bytes b v now w p q k, g w q k)

  -- A history: calls one after another, with a clock that does not run backwards.
  unfoldable pub run : List (Call A) → MemoryAddrBook A → MemoryAddrBook A
  run [] b = b
  run (o ∷ os) b = run os (call o b)

  unfoldable pub spec_run : List (Call A) → Entries A → Entries A
  spec_run [] s = s
  spec_run (o ∷ os) s = spec_run os (spec_call o s)

  run-Agrees :
      (os : List (Call A)) (ts : List ℤ) (t u : ℤ) (b : MemoryAddrBook A) (s : Entries A)
      → IsValid bytes b
      → InOrder t os ts u
      → Agrees t b s
      → IsValid bytes (run os b) × Agrees u (run os b) (spec_run os s)
  unfolding run spec_run
  run-Agrees [] [] t u b s v h g = (v, λ w p k le. g w p k (omega arith))
  run-Agrees [] (x ∷ ts) t u b s v h g = absurd h
  run-Agrees (o ∷ os) [] t u b s v h g = absurd h
  run-Agrees (o ∷ os) (x ∷ ts) t u b s v h g =
      run-Agrees os ts x u (call o b) (spec_call o s) (call-IsValid o b v) h.1
        (call-Agrees o t x b s v h.0 g)

  -- After any history of calls of `AddAddrs`, `SetAddrs`, `ClearAddrs` and `Addrs` on a new book,
  -- with a clock that does not run backwards and ends at `u`, a call of `Addrs` at a time from `u`
  -- on returns for a peer an address with the bytes `k` exactly when the specification, which
  -- collects nothing, holds a live entry for them.
  pub run-refines :
      (os : List (Call A)) (ts : List ℤ) (t u now : ℤ) (p k : Bytes)
      → InOrder t os ts u
      → u ≤ℤ now
      → contains k (map bytes (AddrBook.addrs (run os new_addr_book) now p).1)
        ≡ is_some (live_at now (spec_run os (λ _ _. none) p k))
  run-refines os ts t u now p k h le =
      let (valid, agrees) =
        run-Agrees os ts t u new_addr_book (λ _ _. none) (new_addr_book-IsValid bytes) h
          (new_addr_book-Agrees t) in
      contains-addrs bytes (run os new_addr_book) valid now p k ∙ ap is_some (agrees now p k le)
