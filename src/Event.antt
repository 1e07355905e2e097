-- ===== src/Event.antt =====
-- event/ and poll/: the dispatchers of file descriptors, the poller that they are registered with,
-- and the loop over them.
mod Examples
pub mod Mask
pub mod Dispatcher
pub mod Poller
pub mod Pool
pub mod Loop
pub mod Timers
pub mod LoopThread
