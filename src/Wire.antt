-- ===== src/Wire.antt =====
-- shared/ops-binary.ts, shared/ops-flatbuf.ts and shared/chunk-manifest.ts: the binary formats.
-- A Node `Buffer` is the list of its bytes; what is written at a cursor that only moves forward is
-- appended, and what is read is read at its absolute position.
pub mod Bytes
pub mod OpsBinary
pub mod OpsFlatbuf
pub mod Manifest
