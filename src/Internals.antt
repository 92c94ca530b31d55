-- ===== src/Internals.antt =====
-- src/internals: the lock and the once-cell, as the threads of the program run them.
pub mod Lock
pub mod Once
