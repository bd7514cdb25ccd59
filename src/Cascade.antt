-- ===== src/Cascade.antt =====
-- bin/modules/qkd-cascade: the error correction module. Two keys that differ in some bits are made
-- equal by comparing parities of blocks under several permutations of their bits.
pub mod Permutation
pub mod Frame
pub mod Checker
pub mod Correct
pub mod Process
pub mod Tiling
pub mod Parity
pub mod Difference
pub mod Peers
pub mod Rounds
pub mod Halving
pub mod Flipping
pub mod Paired
pub mod Together
pub mod Announcing
pub mod Descending
pub mod Splitting
pub mod Searching
pub mod Narrowing
pub mod Correcting
pub mod Meeting
pub mod Turning
mod Tests
mod Trials
