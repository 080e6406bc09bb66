-- ===== src/Storage.antt =====
-- sources/services/storage: the tree of variables kept in memory (ramcacheddb.go), its text dump,
-- and its variant over the prefix tree (ramcacheddbpkv.go).
pub mod Tree
pub mod Keys
pub mod Scroll
pub mod Db
pub mod Values
pub mod Removal
pub mod Contract
pub mod Interface
pub mod Dump
pub mod Pkv
