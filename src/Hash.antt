-- ===== src/Hash.antt =====
-- shared/hash.ts and src/lib/rsync/{adler32,strong-hash}.ts: the weak and the strong hash of a
-- block, and the key of a block in the object store.
-- Bytes are numbers. The digest of Web Crypto is a parameter; its hexadecimal text is computed here.
pub mod Adler
pub mod Strong
