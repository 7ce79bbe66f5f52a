-- ===== src/Synchprobs.antt =====
-- The synchronisation problems of kern/synchprobs/problems.c, as clients of the primitives of
-- kern/thread/synch.c.
pub mod Stoplight
pub mod Whales
mod Tests
