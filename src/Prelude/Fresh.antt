-- ===== src/Prelude/Fresh.antt =====
-- The first occurrences in a list, by a key: what a loop with a `seen` map keeps.
use mathlib.Core.Path.{◌≡◌, refl}
use mathlib.Core.Bool.{not, true, false, ◌&&◌}
use mathlib.Core.List.{List, [], ◌∷◌, ◌++◌, map}
use native.Mathlib.Omega.{arith}
use go_libp2p_peerstore.Prelude.Tests.{if◌then◌else◌}
use go_libp2p_peerstore.Prelude.Keys.{Comparable, ==_iff}
use go_libp2p_peerstore.Prelude.Maps.{contains, IsDistinct}

module _ {ℓ κ} {A : Type ℓ} {K : Type κ} ⦃c : Comparable K⦄ (key : A → K) where
  -- The entries whose key is not in `seen` and not that of an entry before.
  unfoldable pub fresh : List K → List A → List A
  fresh seen [] = []
  fresh seen (a ∷ as') =
      let rest = fresh (key a ∷ seen) as' in
      let same = fresh seen as' in if contains (key a) seen then same else a ∷ rest

  pub contains-fresh :
      (k : K) (seen : List K) (as' : List A)
      → contains k (map key (fresh seen as')) ≡ (contains k (map key as') && not (contains k seen))
  unfolding fresh contains
  contains-fresh k seen [] = refl
  contains-fresh k seen (a ∷ as') =
      ground
        (arith, ==_iff (key a) k, contains-fresh k seen as', contains-fresh k (key a ∷ seen) as')

  pub fresh-IsDistinct : (seen : List K) (as' : List A) → IsDistinct (map key (fresh seen as'))
  unfolding fresh contains
  fresh-IsDistinct seen [] = tt
  fresh-IsDistinct seen (a ∷ as') = ground (
    arith,
    ==_iff (key a) (key a),
    contains-fresh (key a) (key a ∷ seen) as',
    fresh-IsDistinct seen as',
    fresh-IsDistinct (key a ∷ seen) as',
  )

module _ {ℓ} {K : Type ℓ} ⦃c : Comparable K⦄ where
  pub contains-append :
      (k : K) (xs ys : List K)
      → contains k (xs ++ ys) ≡ (if contains k xs then true else contains k ys)
  unfolding contains
  contains-append k [] ys = refl
  contains-append k (x ∷ xs) ys = ground (arith, contains-append k xs ys)

  pub IsDistinct-append_left : (xs ys : List K) → IsDistinct (xs ++ ys) → IsDistinct xs
  IsDistinct-append_left [] ys h = tt
  IsDistinct-append_left (x ∷ xs) ys h =
      ground (arith, contains-append x xs ys, IsDistinct-append_left xs ys)

  pub IsDistinct-append :
      (xs ys : List K)
      → IsDistinct xs
      → IsDistinct ys
      → ((k : K) → contains k xs ≡ true → contains k ys ≡ false)
      → IsDistinct (xs ++ ys)
  unfolding contains
  IsDistinct-append [] ys h g d = g
  IsDistinct-append (x ∷ xs) ys h g d =
      let rest = IsDistinct-append xs ys h.1 g (λ k q. d k (ground arith)) in
      ground (arith, contains-append x xs ys, d x, ==_iff x x, rest)
