-- ===== src/TestBins.antt =====
-- test_bins/src/: the programs that the monitors are tried on, with the calls of PerfTools.
pub mod Factorial
pub mod Pointers
pub mod Primes
pub mod Forking
pub mod Cache
pub mod StartSuspended
pub mod Histogram
pub mod ArraySum
pub mod TmpFiles
mod Tests
