-- ===== src/Addr/Sorting.antt =====
-- addr/sorting.go: `AddrList` as a `sort.Interface`. The tests on a multiaddress come from other
-- packages: `is_loopback` is `manet.IsIPLoopback`, `is_fd_costly` is `mafmt.TCP.Matches`.
use go_libp2p_peerstore.Prelude.{
  ℕ, Bool, true, false, not, ◌&&◌, ◌||◌, List, Option, none, some, Bytes, bytes_eq, int_eq, ◌≡◌,
  ◌==◌, if◌then◌else◌, arith, length,
}
use go_libp2p_peerstore.Prelude.{
  bytes_gtb, bytes_gtb-asym, bytes_gtb_trans, get_elem?, set, nat_eq, ltb,
}

module _ {A : Type 0} where
  unfoldable pub addrs_len : List A → ℕ
  addrs_len al = length al

  -- `none` is the panic on an index out of range.
  unfoldable pub swap : List A → ℕ → ℕ → Option (List A)
  swap al i j = elim (get_elem? al i) [
    | none ↦ none
    | some a ↦ elim (get_elem? al j) [ none ↦ none | some b ↦ some (set (set al i b) j a) ]
  ]

module _ {A : Type 0} (bytes : A → Bytes) (is_loopback is_fd_costly : A → Bool) where
  -- `Less` on the two entries.
  unfoldable pub less : A → A → Bool
  less a b =
      if is_loopback a && not (is_loopback b)
      then true
      else if not (is_fd_costly a)
      then (if is_fd_costly b then true else false)
      else if not (is_fd_costly b)
      then false
      else if is_loopback b
      then false
      else bytes_gtb (bytes a) (bytes b)

  -- The order that the package's test expects: first loopback addresses that need no file
  -- descriptor, then other ones that need none, then loopback ones, then the rest.
  unfoldable pub rank : A → ℕ
  rank a =
      if is_fd_costly a then (if is_loopback a then 2 else 3) else (if is_loopback a then 0 else 1)

  -- The strict order by rank, where the addresses of the last rank go by their bytes, downwards.
  unfoldable pub dialled_before : A → A → Bool
  dialled_before a b =
      ltb (rank a) (rank b) || (rank a == 3 && rank b == 3 && bytes_gtb (bytes a) (bytes b))

  -- `Less` is the order by rank, but for one pair of ranks: it also puts a loopback address that
  -- needs a file descriptor before every other address that needs none.
  pub less-dialled_before :
      (a b : A) → less a b ≡ (dialled_before a b || (rank a == 2 && rank b == 1))
  unfolding less dialled_before rank
  less-dialled_before a b = ground arith

  -- `Less` puts two addresses each before the other exactly when one is a loopback address that
  -- needs a file descriptor and the other is neither: on lists with such a pair it is no order.
  pub less_both_ways :
      (a b : A)
      → (less a b && less b a) ≡ ((rank a == 2 && rank b == 1) || (rank a == 1 && rank b == 2))
  unfolding less rank
  less_both_ways a b = ground (arith, bytes_gtb-asym (bytes a) (bytes b))

  -- One of the two is a loopback address that needs a file descriptor, the other is neither.
  abbrev pub clash : A → A → Bool
  clash a b = (rank a == 2 && rank b == 1) || (rank a == 1 && rank b == 2)

  -- Among addresses without such a pair `Less` is a strict order, as `sort.Sort` requires: no
  -- address comes before itself, no two come each before the other, and it is transitive.
  pub less-IsStrict :
      (a b c : A)
      → clash a b ≡ false
      → clash b c ≡ false
      → clash a c ≡ false
      → (less a a ≡ false)
        × ((less a b && less b a) ≡ false)
        × (less a b ≡ true → less b c ≡ true → less a c ≡ true)
  unfolding less rank
  less-IsStrict a b c p q r = (
    ground (arith, bytes_gtb-asym (bytes a) (bytes a)),
    ground (arith, bytes_gtb-asym (bytes a) (bytes b)),
    λ f g. ground (arith, bytes_gtb_trans (bytes a) (bytes b) (bytes c)),
  )
