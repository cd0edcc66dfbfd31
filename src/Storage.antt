-- ===== src/Storage.antt =====
-- libs/domains/src/storage/storage.service.ts over libs/domains/src/storage/storage.cipher.ts: the
-- blob store. A data root is the table of its files, each with its bytes; the path
-- `<aa>/<bb>/<uuid>` of a blob is the number of its UUID.
pub mod Cipher
pub mod Blobs
