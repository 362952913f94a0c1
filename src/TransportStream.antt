-- ===== src/TransportStream.antt =====
-- tsprocessor.cpp, the processor of MPEG transport streams.
pub mod TimeStamps
pub mod Demuxer
pub mod Pmt
pub mod Demux
pub mod Bits
pub mod Examples
