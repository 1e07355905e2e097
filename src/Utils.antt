-- ===== src/Utils.antt =====
-- utils/: the hexadecimal decoder, the string splitter and the queue of many producers.
mod Examples
pub mod Hex
pub mod Split
pub mod Queue
