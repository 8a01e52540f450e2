-- ===== src/Kernel.antt =====
-- fully_in-kernel/main/xdp_prog_kern.c: the XDP program that counts packets by source address,
-- and once a second computes an entropy for each source and resets the counts.
pub mod Types
pub mod Entropy
pub mod Interval
pub mod Handler
pub mod Verdicts
pub mod Effects
pub mod Counting
pub mod Balance
pub mod Conservation
pub mod Timing
pub mod Racing
pub mod History
pub mod Overflow
mod Samples
mod Tests
