-- ===== src/Ds/Batch/Tests.antt =====
-- The theorems about batches at a concrete datastore: a list of applied numbers.
use go_libp2p_peerstore.Prelude.{ℕ, true, List, [], ◌∷◌, ◌++◌, none, some, ◌≡◌, refl}
use go_libp2p_peerstore.Ds.Batch
use go_libp2p_peerstore.Ds.Batch.{
  Batching, CyclicBatch, new_cyclic_batch, renew, cycle, write_current, write_each,
}
use go_libp2p_peerstore.Ds.Batch.Order.{Keeps, waiting, commit-write_each, write-commits_each}

abbrev log : Batching (List ℕ) (List ℕ) ℕ
log = record {
  batch = λ d. some [];
  write = λ op b. (true, b ++ op ∷ []);
  commit = λ b d. (true, d ++ b);
}

abbrev itself : List ℕ → List ℕ
itself xs = xs

log-Keeps : Keeps log itself itself
log-Keeps = record {
  held-batch = λ d b e. cc;
  held-write = λ op b e. refl;
  applied-commit = λ b d e. refl;
}

abbrev twenty : CyclicBatch (List ℕ)
twenty = record { threshold = 20; current = some []; pending = 0 }

abbrev three_writes : List ℕ
three_writes = 7 ∷ 8 ∷ 9 ∷ []

abbrev written : CyclicBatch (List ℕ)
written = record { threshold = 20; current = some three_writes; pending = 3 }

commit-write_each_example :
    ((Batch.commit log written []).1.1
      ≡ [] ++ waiting log itself itself log-Keeps twenty ++ three_writes)
    × ((Batch.commit log written []).1.0.current ≡ none)
unfolding write_each Batch.write cycle write_current Batch.commit
commit-write_each_example =
    commit-write_each log itself itself log-Keeps three_writes twenty written [] [] refl refl

abbrev made : CyclicBatch (List ℕ)
made = record { threshold = 0; current = some []; pending = 0 }

abbrev after_two : CyclicBatch (List ℕ)
after_two = record { threshold = 0; current = some (8 ∷ []); pending = 2 }

write-commits_each_example : (Batch.write log 9 after_two (7 ∷ [])).1.1 ≡ 7 ∷ 8 ∷ []
unfolding write_each Batch.write cycle write_current renew new_cyclic_batch
write-commits_each_example =
    write-commits_each log itself itself log-Keeps 20 (7 ∷ 8 ∷ []) 9 made after_two [] (7 ∷ []) refl
      refl refl
