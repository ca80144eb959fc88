-- ===== src/Lib.antt =====
-- go-libp2p-peerstore: stores of what a node knows of its peers, their addresses, keys, metadata,
-- protocols and latencies, and queues that order peers.
--
-- Parts, and the files that model them (paths from the repository's root):
--   * Mem/AddrBook models pstoremem/addr_book.go: a `MemoryAddrBook` is the Go struct, its maps are
--     association lists (Prelude/Maps), and each method is a function from the book and the clock
--     readings it takes to the book and what it returns. Loops are functions of their own
--     (`gc_loop`, `add_loop`, `set_loop`, `update_loop`).
--   * Mem/SubManager models the subscriptions of the same file (`addrSub`, `AddrSubManager`), and
--     Mem/Stream the goroutine of `AddrSubManager.AddrStream`, as a machine that takes one case of
--     its `select` at a time. A run is an explicit sequence of such events, so that every
--     interleaving is a sequence.
--   * Mem/KeyBook and Mem/Metadata model pstoremem/keybook.go and pstoremem/metadata.go.
--   * Addr/Sorting and Addr/Sources model addr/sorting.go and addr/addrsrcs.go.
--   * Ds/Record models the address records of pstoreds/addr_book.go: `clean`, the writes of `flush`,
--     and what `setAddrs`, `deleteAddrs` and `UpdateAddrs` do to a loaded record. Ds/Store models
--     `flush` to a datastore, and Ds/Book `dsAddrBook`: `load_record` and each method, over a cache
--     (Ds/Cache, pstoreds/cache.go) of pointers to shared records, a heap of these records, and the
--     datastore. Ds/Book/Spec is the map that the book stands for, and Ds/Book/Represents the relation
--     between the two.
--   * Ds/Gc models pstoreds/addr_book_gc.go, with its batches from Ds/Batch (pstoreds/cyclic_batch.go)
--     and its goroutine in Ds/Gc/Background. Ds/Options models the options of pstoreds/peerstore.go
--     and the constructors that they go to, Ds/KeyBook pstoreds/keybook.go and `uniquePeerIds` of
--     pstoreds/peerstore.go (Ds/KeyBook/Ids), Ds/Metadata pstoreds/metadata.go.
--   * Pb models pb/custom.go.
--   * Queue/Interface, Queue/Heap, Queue/Distance and Queue/Chan model queue/interface.go,
--     queue/distance.go with the algorithms of `container/heap`, and queue/sync.go. The client of the
--     interface, `ChanQueue`, takes its operations and laws as parameters, which `distancePQ` fills
--     (Queue/Drain).
--   * Store models peerstore.go over the key book, address book and metadata it is given,
--     metrics.go (Store/Metrics) and peerinfo.go (Store/Info, and Store/Json for its JSON forms).
--   * Prelude holds what they share: slices over the native numbers, byte strings, Go maps, signed
--     integers and the lemmas on them.
--
-- Conventions. Times and durations are integers (`ℤ`); the 64-bit range of `time.Duration` is not
-- modelled. A method that reads the clock takes each reading as an argument. Addresses, keys and
-- values of other packages are parameters, used by their bytes or by the tests that the code makes.
-- A method is one step. In pstoremem a lock is held for the whole of most methods; in pstoreds `loadRecord`
-- releases the record's lock before the method takes it again, and ClearAddrs takes none, so that the
-- theorems there are about calls that do not overlap. A Go map is iterated
-- in the order of its association list; theorems about a map do not depend on that order.
-- A record that the Go code shares by a pointer is a cell of a heap, and the pointer its index. An entry
-- of a record, also a pointer in the Go code, is a value, which is the same as long as no record holds
-- one pointer twice. Ds/Record/Pointers has the loops of `setAddrs` and `deleteAddrs` on pointers, and
-- Ds/Record/Unshared compares them with those on values. `deleteAddrs` with several addresses can leave a
-- pointer twice; Ds/Book/Refine is about the runs in which it is not called so.
-- `none` is a panic, or an input that a machine does not take.
--
-- Fuel: `up` and `down` of the heap run on fuel, one more than the length of the slice, and the
-- theorems about the queue show that they return. All other loops are structural.
--
-- Not modelled: the coding of records as protobuf bytes (pb/pstore.pb.go, which is generated), String and
-- Loggable of peerinfo.go, which only format, and the constructors that only pass their arguments on
-- (NewPeerstore of pstoremem and pstoreds). A cycle of the collector is one step, as a method is; a method
-- that runs between the query of a cycle and its commit is not modelled, nor are methods that overlap.
-- What a cycle has cleaned before it panics is not modelled either, since the process ends with the panic.
-- The tests and benchmarks under test are left out.
pub mod Prelude
pub mod Mem
pub mod Addr
pub mod Ds
pub mod Queue
pub mod Store
pub mod Pb
