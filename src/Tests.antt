-- ===== src/Tests.antt =====
-- The theorems at concrete inputs, and runs of the code's functions.
pub mod ClockTests
pub mod ResolverTests
pub mod StringTests
pub mod WholeFloats
pub mod IndexTests
pub mod RestartTests
pub mod QueryTests
pub mod CollectionTests
pub mod TestLibraries
pub mod CryptoTests
pub mod StorageTests
pub mod ReplicationTests
pub mod DatabaseTests
pub mod NetworkTests
pub mod FieldTests
