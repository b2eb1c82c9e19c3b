-- ===== src/Tests.antt =====
-- Concrete packets, connections and blocklists: runs of the model on them, and the theorems
-- applied to them.
pub mod Data
pub mod Parsing
pub mod Fingerprints
pub mod Reading
pub mod Serving
pub mod Running
pub mod Storing
pub mod Managing
pub mod Enforcing
pub mod Auditing
