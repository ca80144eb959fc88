-- ===== src/Addr/Sources.antt =====
-- addr/addrsrcs.go: sources of addresses. A source is what its `Addrs` returns, which is called
-- once for each `Addrs` of the combined source. `string` is `Multiaddr.String`.
use go_libp2p_peerstore.Prelude.{
  List, [], ◌∷◌, ◌++◌, map, none, some, Bytes, bytes_eq, int_eq, ◌≡◌, refl, sym, ap, ◌∙◌, arith,
  inl, inr, Option-cases, is_some,
}
use go_libp2p_peerstore.Prelude.Maps.{Map, lookup, insert, lookup-insert, contains, IsDistinct}
use mathlib.Core.List.{append_assoc, append-nil}
use go_libp2p_peerstore.Prelude.Fresh.{fresh, contains-fresh, fresh-IsDistinct}

module _ {A : Type 0} where
  -- `Slice.Addrs`
  unfoldable pub slice_addrs : List A → List A
  slice_addrs as' = as'

  -- The loop of `combinedAS.Addrs`.
  unfoldable pub combined_loop : List A → List (List A) → List A
  combined_loop addrs [] = addrs
  combined_loop addrs (s ∷ srcs) = combined_loop (addrs ++ s) srcs

  unfoldable pub combined_addrs : List (List A) → List A
  unfolding combined_loop
  combined_addrs srcs = combined_loop [] srcs

module _ {A : Type 0} (string : A → Bytes) where
  -- One round of the inner loop of `uniqueAS.Addrs`, with its map and its result.
  unfoldable pub unique_step : A → Map Bytes (Unit {0}) × List A → Map Bytes (Unit {0}) × List A
  unique_step a (seen, addrs) = elim (lookup (string a) seen) [
    | some _ ↦ (seen, addrs)
    | none ↦ (insert (string a) tt seen, addrs ++ a ∷ [])
  ]

  unfoldable pub unique_source :
      List A → Map Bytes (Unit {0}) × List A → Map Bytes (Unit {0}) × List A
  unfolding unique_step
  unique_source [] s = s
  unique_source (a ∷ as') s = unique_source as' (unique_step a s)

  unfoldable pub unique_loop :
      List (List A) → Map Bytes (Unit {0}) × List A → Map Bytes (Unit {0}) × List A
  unfolding unique_source
  unique_loop [] s = s
  unique_loop (src ∷ srcs) s = unique_loop srcs (unique_source src s)

  unfoldable pub unique_addrs : List (List A) → List A
  unfolding unique_loop
  unique_addrs srcs = (unique_loop srcs ([], [])).1

  -- The map holds the strings of the list.
  abbrev Records : Map Bytes (Unit {0}) → List Bytes → Type 0
  Records m seen = (k : Bytes) → is_some (lookup k m) ≡ contains k seen

  insert-Records :
      (a : A) (m : Map Bytes (Unit {0})) (seen : List Bytes)
      → Records m seen
      → Records (insert (string a) tt m) (string a ∷ seen)
  unfolding contains
  insert-Records a m seen r k = ground (arith, r k, lookup-insert (string a) k tt m)

  unique_source-fresh :
      (as' : List A) (m : Map Bytes (Unit {0})) (addrs : List A) (seen : List Bytes)
      → Records m seen
      → (unique_source as' (m, addrs)).1 ≡ addrs ++ fresh string seen as'
  unfolding unique_source fresh
  unique_source-fresh [] m addrs seen r = sym (append-nil addrs)
  unique_source-fresh (a ∷ as') m addrs seen r = elim (Option-cases (lookup (string a) m)) [
    | inl new ↦
        let ih =
          unique_source-fresh as' (insert (string a) tt m) (addrs ++ a ∷ []) (string a ∷ seen)
            (insert-Records a m seen r) in
        ground (
          arith,
          r (string a),
          ih,
          append_assoc addrs (a ∷ []) (fresh string (string a ∷ seen) as'),
        )
    | inr (u, old) ↦ ground (arith, r (string a), unique_source-fresh as' m addrs seen r)
  ]

  unique_source-append :
      (xs ys : List A) (s : Map Bytes (Unit {0}) × List A)
      → unique_source (xs ++ ys) s ≡ unique_source ys (unique_source xs s)
  unfolding unique_source
  unique_source-append [] ys s = refl
  unique_source-append (x ∷ xs) ys s = unique_source-append xs ys (unique_step x s)

  unique_loop-combined :
      (srcs : List (List A)) (m : Map Bytes (Unit {0})) (addrs acc : List A)
      → unique_source (combined_loop acc srcs) (m, addrs)
        ≡ unique_loop srcs (unique_source acc (m, addrs))
  unfolding unique_loop combined_loop
  unique_loop-combined [] m addrs acc = refl
  unique_loop-combined (src ∷ srcs) m addrs acc =
      unique_loop-combined srcs m addrs (acc ++ src)
      ∙ ap (unique_loop srcs) (unique_source-append acc src (m, addrs))

  -- The unique source returns the addresses of the combined source, in the same order, each one
  -- where its string stands first; the strings are distinct, and none is lost.
  pub unique_addrs-combined_addrs :
      (srcs : List (List A))
      → (unique_addrs srcs ≡ fresh string [] (combined_addrs srcs))
        × IsDistinct (map string (unique_addrs srcs))
        × ((k : Bytes)
            → contains k (map string (unique_addrs srcs))
              ≡ contains k (map string (combined_addrs srcs)))
  unfolding unique_addrs combined_addrs unique_source contains lookup
  unique_addrs-combined_addrs srcs =
      let all = combined_loop [] srcs in
      let same : (unique_loop srcs ([], [])).1 ≡ fresh string [] all =
        ap (λ s. s.1) (sym (unique_loop-combined srcs [] [] []))
        ∙ unique_source-fresh all [] [] [] (λ k. refl) in
      (
        same,
        rw same (fresh-IsDistinct string [] all),
        λ k. rw same (ground (arith, contains-fresh string k [] all)),
      )
