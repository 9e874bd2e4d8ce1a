-- ===== src/RingBuf.antt =====
-- runtime/src/ringbuf.rs: the retained scrollback (`RingBuffer`) and the bounded output queue
-- (`ByteQueue`). A `VecDeque<u8>` is the list of its bytes, oldest first.
pub mod Scrollback
pub mod Queue
mod Examples
