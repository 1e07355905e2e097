-- ===== src/Time.antt =====
-- time/: timers and their queue, and dates.
mod Examples
pub mod DateText
pub mod DateTime
pub mod Timer
pub mod TimerQueue
