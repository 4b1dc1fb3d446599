-- ===== src/Protocol.antt =====
-- protocol/: the packets of AVDTP, of the LDAC codec, of RTP and of AVRCP. A packet is the list of
-- its bytes, so that a size is the length of a list, and a function that fills a buffer returns
-- what it wrote; a `NULL` argument has no counterpart.
pub mod Codec
pub mod Rtp
pub mod Avdtp
pub mod Avrcp
pub mod Observer
pub mod Source
mod Tests
