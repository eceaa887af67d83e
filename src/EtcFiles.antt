-- ===== src/EtcFiles.antt =====
-- The edits of files in /etc: prepare.go (`UpdateHostsInfo`, `UpdateResolvConfInfo`), cleanup.go
-- (`RevertConfigInfo`) and init.go (`UpdateConfigYAMLContents`). A loop keeps what Go's variables
-- hold, the output buffer among them; one round of a loop is a function of its own.
pub mod Edit
pub mod Hosts
pub mod Resolv
pub mod Yaml
