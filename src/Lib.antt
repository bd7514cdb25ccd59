-- ===== src/Lib.antt =====
-- The QKD software of the AIT: the stores and modules through which distilled keys pass.
--
-- The program: a pipeline of modules turns raw key bits into keys that two peers share, and a
-- Q3P node keeps these keys in key stores for its crypto engines. This library models eight parts.
--
-- * The key store in memory, lib/q3p/db/db_ram.cpp: KeyStore.antt has its state and its calls, in
--   the order of the source, KeyStore/Flags the meta byte of a key, and KeyStore/Search the searches
--   (find_continuous, find_spare, find_valid, insert). `Db` has the members of db_ram, with the two
--   arrays as lists; a read or write outside an array is `none`. A call `x_internal` of the source
--   is `x` here, `set_internal` is `set_key`. `Geometry` has min_id, max_id and quantum, so that
--   small stores can be run; `ram` is that of the source.
-- * The key synchronisation of a module, lib/module/stash.cpp: Stash.antt has the stash, its lists
--   and the messages of `send` and `recv`; Stash/Exchange the two sides of `pick`. The network is an
--   argument: what `send` and `recv` of the module did. `alice_of` and `bob_of` join both sides over
--   a network that loses nothing.
-- * The key ring, lib/key/key_ring.cpp, which packs the bytes of keys into keys of one size:
--   KeyRing.antt; KeyRing/Listing has `ring` of the key store, which lists keys of the store as one.
-- * The error correction Cascade, bin/modules/qkd-cascade, which makes the keys of two sides equal:
--   Cascade/Permutation has the permutations of the bits, Cascade/Frame the key with its parity
--   checkers and what they are told, Cascade/Checker the constructor of a checker and the exchange
--   of parities, Cascade/Correct the search for errors, and Cascade/Process the passes. A side reads
--   the messages of the peer from an inbox and writes its own to an outbox. The random source and
--   the block sizes that are computed in floating point are arguments.
-- * The sifting, bin/modules/qkd-sifting-bb84/qkd-sifting-bb84.cpp, which makes bits of the quantum
--   events that both sides have measured in the same base: Sifting.antt, on Bigint.antt (the bits of
--   lib/utility/bigint/bigint.cpp); Sifting/Agreement, Sifting/Bytes and Sifting/Keys put two sides
--   together. The dice that are rolled where more than one detector clicked are an argument.
-- * The error estimation, bin/modules/qkd-error-estimation/qkd-error-estimation.cpp, which discloses
--   some bits of a key and takes them out: ErrorEstimation.antt; ErrorEstimation/Disclosed and
--   ErrorEstimation/Sides put two sides together.
-- * The key resizing, bin/modules/qkd-resize/qkd-resize.cpp, which makes keys of an exact or of a
--   minimum size: Resize.antt; Resize/Exact (with Groups and Joining) and Resize/Minimum have the
--   proofs. The cutting of a key runs on one round more than it has bytes, as a round takes off one.
-- * The one-time pad, lib/crypto/crypto_xor.cpp: CryptoXor.antt, with the loop over words on fuel of
--   one round for each byte and one more.
-- * They rest on Key.antt (include/qkd/key/key.h; Key/Sub has `sub` of lib/key/key.cpp, whose loop
--   runs on one round for each id), Buffer.antt (include/qkd/utility/buffer.h) and Memory.antt (the
--   hexadecimal text of lib/utility/memory/memory.cpp).
--
-- The proofs: KeyStore/Inv has the invariant of an opened store, KeyStore/Views what the queries
-- answer, and the other modules of KeyStore are named for what they prove, as are those of Stash.
-- In Cascade, Tiling, Parity, Difference, Peers, Halving and Rounds hold the proofs on one side's
-- data. Two sides of a search are put together in Flipping, Paired, Together and Turning for one
-- correction, Announcing, Descending, Splitting, Searching and Narrowing for the parts of a round,
-- Meeting for the messages between them, and Correcting for `correct_blocks` as a whole.
-- The modules named Tests and Trials apply the theorems to small examples.
--
-- Numbers: counters of 64 bits and ids of 32 bits wrap as in the source; the meta byte is below 256
-- by the invariant. The loops of `insert`, `find_spare` and `find_valid` run on fuel `amount + 1`,
-- which lets them visit each id once and come back to the start; that of `push_back` on two rounds
-- for each byte and two more, as a round adds a byte or starts a key and no two in a row start one.
-- The search for an error runs on 34 rounds, as a block of less than 2 ^ 32 bits is halved each time;
-- the number of corrections of a pass of Cascade is an argument.
--
-- Not modelled: locks, signals and logs; the meta data of a key; the dispatch of `pick` and `sync`
-- by the role of the module; key stores on disk; confirmation, privacy amplification and the other
-- modules of the pipeline; error rates and other floating point numbers; the other crypto contexts;
-- the network and the user interface, which are input and output.
pub mod Prelude
pub mod Key
pub mod Buffer
pub mod KeyStore
pub mod Stash
pub mod Bigint
pub mod Cascade
pub mod CryptoXor
pub mod ErrorEstimation
pub mod KeyRing
pub mod Memory
pub mod Resize
pub mod Sifting
