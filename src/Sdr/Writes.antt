-- ===== src/Sdr/Writes.antt =====
-- The handlers of the AI SDR by the writes that they are made of: a relation that permits each kind of
-- write holds across each handler, whether it returns or throws.
mod Handlers
mod Sending
mod Replying
pub use Handlers.*
pub use Sending.*
pub use Replying.*
