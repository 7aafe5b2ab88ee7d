-- ===== src/Tests/Memory.antt =====
-- Two runs over a database that meets the contract of Main/Memory: LMDB.
