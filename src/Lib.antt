-- ===== src/Lib.antt =====
-- A verification library for Hybrid_Blockchain_for_Retails: the private chain's core, in C++.
--
-- The program. A private chain server (Code/PrivateChain/Server/server.cpp) records the events of
-- supply-chain batches as blocks. Each block's fields are the leaves of a Merkle tree
-- (Server/block_merkle.cpp on MerkleTree/), and each block is linked by its parent's hash to the
-- newest block of its batch. When the server starts it reloads the stored blocks and checks them
-- (`validate_stored_chain`). A batch that has completed its saved route gets public snapshots:
-- Code/Snapshot decides whether it is eligible and which evidence becomes public, Code/SnapshotStorage
-- keeps the snapshots and their states, Code/SnapshotScheduler runs the worker that refreshes them.
-- Code/MerkleTreeNTree is the tree with more than two children to a node.
--
-- Files.
--   Prelude       shared names: Boolean tests, lists over the native numbers, C++ `int` values as ℤ,
--                 byte texts (`Text`), `std::to_string`.
--   Sha256        MerkleTree::SHA256. OpenSSL's digest is the parameter `Digest` (a function whose
--                 results have 32 bytes); the hexadecimal print is the code's.
--   MerkleTree    Code/PrivateChain/MerkleTree: BuildFromBlocks = build_from_blocks, Append = append,
--                 Build = build, FindLeaf, ProverBlock, Verify, ReadBlock in MerkleTree/Prover.
--   BlockMerkle   Code/PrivateChain/Server/block_merkle.cpp.
--   Records       the structs of Code/PrivateChain/Server/block_data.hpp that the models use.
--   Chain         `calculate_block_hash` and `validate_stored_chain` of server.cpp.
--   Workflow      the saved route of a batch: `ordered_workflow_nodes` and the look-ups; in its modules
--                 Valid (`workflow_is_valid`) and Progress (`evaluate_workflow_progress`).
--   MemoryPool    Code/PrivateChain/MemoryPool (mempool.hpp, mempool.cpp), over a memory of pointers.
--   ThreadPool    Code/PrivateChain/Server/thread_pool.cpp as a step relation.
--   Identifiers   Code/PrivateChain/Server/identifier_utils.cpp.
--   Forms         percent encoding, forms and queries of server.cpp.
--   SnapshotScheduler
--                 Code/SnapshotScheduler/src/snapshot_scheduler.cpp: the worker's steps.
--   NTreeMerkle   Code/MerkleTreeNTree: `build`, `generate_proof` and `verify_proof` of
--     src/NTreeMerkle.cpp. The walk to the root has the number of nodes as fuel; in `build` the loop
--     over a level has the length of the level, the loop over the levels the number of leaves.
--   SnapshotStore Code/SnapshotStorage (src/snapshot_storage.cpp, include/snapshot_storage.hpp): the table
--                 of snapshots, the cache and the methods that save, publish, invalidate and read. A
--                 method is one step (it holds the mutex); the failure of a call of SQLite or of the file
--                 system is an argument, and a failed transaction leaves the rows alone. A text is
--                 bound up to its first zero byte and a revision is read as a 32-bit int.
--   Snapshot      Code/Snapshot (include/snapshot.hpp, src/snapshot.cpp): `route_is_complete_linear`
--                 (Route), `evaluate_eligibility` (Eligibility) and the evidence that `build_preview`
--                 chooses, with src/snapshot_policy.cpp (Evidence). The loop along a route has one round
--                 more than there are nodes as fuel. std::sort is an insertion sort: nodes that it could
--                 order otherwise have one id, and the check of the route refuses them.
--
-- Conventions. A text is the list of its bytes. A C++ `int` is a ℤ; ranges are stated where they
-- matter. An object that a method changes is passed and given back. A failure is `none`, or a
-- constructor of an error type whose text the source prints. Console output is left out. Where
-- the code relies on the digest to tell texts apart, the theorem has another case: two different texts
-- with one digest (`Clash`) at one place of the lists of the texts that the two runs hash
-- (`Collision`). Products of sizes are taken modulo 2 ^ 64.
--
-- Bounds and fuel. The loop that halves a level of the Merkle tree runs on as much fuel as there are
-- blocks, since each round shortens the level; the reads of a file on one more than it has bytes,
-- since each read takes one or more; a proof is checked for as many rounds as it has entries. A walk
-- along a route has one or two rounds more than the route has nodes, since it stops at the first id
-- that comes back. The worker steps of the scheduler are given as a list of their inputs.
--
-- Not modelled: SQLite (db_utils.cpp), sockets, HTTP and JSON text, OpenSSL signatures, password
-- hashing, logs, the vendored QR code generator, the front end and the Solidity and JavaScript
-- code. Of a snapshot, the measurements (numbers and regular expressions of the standard library), the
-- fingerprint of its route and the text of its manifest; of the storage, the schema, the archive's text,
-- the verification status and the refresh windows.
pub mod BlockMerkle
pub mod Chain
pub mod Forms
pub mod Identifiers
pub mod MemoryPool
pub mod MerkleTree
pub mod NTreeMerkle
pub mod Prelude
pub mod Records
pub mod Sha256
pub mod Snapshot
pub mod SnapshotScheduler
pub mod SnapshotStore
pub mod ThreadPool
pub mod Workflow
