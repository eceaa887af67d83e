-- ===== src/Validate.antt =====
-- validate.go. An operation that fills in the configuration is one on the state `Config`; a
-- check that fails leaves in it what was written before. Calls of glog only log, and are left out.
pub mod Command
pub mod Topology
pub mod Token
pub mod General
pub mod Prefix
pub mod Derived
pub mod Version
pub mod Contents
pub mod Load
