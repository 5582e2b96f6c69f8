-- ===== src/Nanopb.antt =====
-- Pods/nanopb: the protocol buffer library that the diagnostics and transport pods send through.
pub mod Pb
pub mod OStream
pub mod IStream
pub mod Substream
pub mod Memory
pub mod Encoders
pub mod Decoders
pub mod FieldIter
pub mod Environment
pub mod Default
pub mod MessageEncoder
pub mod Runtime
pub mod SetDefaults
pub mod Release
pub mod DecodeField
pub mod DecodePointer
pub mod DecodeExtension
pub mod MessageDecoder
pub mod RoundTrip
