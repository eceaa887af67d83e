-- ===== src/Lib.antt =====
-- lazyjack, a tool that prepares nodes for a Kubernetes cluster over IPv6, IPv4 or both, brings the
-- cluster up, and takes it down again.
--
-- A command (cmd/lazyjack.go) loads a YAML file, validates and completes the configuration, and
-- then runs one of init, prepare, up, down and clean for one node. These call files, commands,
-- Docker and the kernel's network, and report errors, some of which the callers pass over.
--
--   Config           config.go: the records and constants; `find` and `put` are Go's maps;
--                    Config/Parse is `ParseConfig`, Config/Writer the `ConfigWriter`
--   Validate         validate.go: `ValidateConfigContents` and all it calls; Validate/Load opens
--                    and loads the file
--   Prepare          prepare.go, with the edits of /etc/hosts and /etc/resolv.conf in EtcFiles
--   Cleanup          cleanup.go, with `RevertConfigInfo` in EtcFiles/Edit
--   Init             init.go, with `UpdateConfigYAMLContents` in EtcFiles/Yaml
--   Up, Down         up.go, down.go
--   Files            file.go and os_exec.go
--   Hypervisor       hypervisor.go, an interface; `docker` (Docker.antt) fills it
--   Docker, NetMgr   docker.go, netmgr.go
--   NetLink          netlink_client.go
--   Address          networker.go and `BuildPodSubnetPrefix`
--   Plugin           plugin.go, bridge_plugin.go, ptp_plugin.go
--   Main             cmd/lazyjack.go
--   Net, World       Go's package `net`, and the system outside, as interfaces
--   Base             results, texts, numbers and lines, which all of them share; Base/Sequence and
--                    Base/Takes are about operations that make a list of steps, Base/Rules,
--                    Base/Yields and Base/Skip about what holds behind an operation
--   Tests            runs, and the theorems at concrete data
--
-- A Go function in mixed case is the definition with its words joined by `_`. An operation is a
-- function from a state to a result and a state (`M`); the state is the configuration, a node, or
-- the world of `Os`. A result is a value, an error with its text, or a panic.
--
-- The interface `Os` (World.antt) holds the operations of os, os/exec and netlink that the code
-- calls. What is assumed of the files stands in `FileLaws` (Files/Laws.antt), `IsApart`
-- (Init/Saved.antt) and `CopyLaws` (Up/Copied.antt), of the network in `IsOutside`
-- (NetMgr/Frame.antt) and `SparesFiles` (Prepare/Readied.antt); Tests/Memory has a system in
-- memory that satisfies them. `Net` (Net.antt) is Go's package net. The servers are prepared and
-- cleaned up over any `Hypervisor`, and the actions give them `docker`. What is asked of a
-- hypervisor stands in `HypervisorLaws` (Hypervisor/Laws.antt), what is assumed of the docker
-- commands in `DockerLaws` (Docker/Laws.antt); Tests/Servers has a system whose commands do it.
--
-- Bounds. An `int` is an integer, with the wrap-around of 64 bits where the code multiplies it by
-- 256. Numbers are printed by a recursion on fuel 64, which is enough for 64 bits. A map is an
-- association list, and `range` visits it in its order; `sort.Slice` is an insertion sort; the
-- regular expressions are matchers by hand, and so is the format of `fmt.Errorf` without operands.
-- Upper and lower case, white space and quoted texts are those of ASCII.
--
-- The templates of config.go are lists of texts and fields, which stand for text/template.
--
-- Not modelled: the YAML library, whose `Unmarshal` is the argument `unmarshal`; logging, apart from
-- `glog.Fatal`, which is an error; the parsing of flags; `RegisterExecCommand`, which the tests
-- call. A plugin's text is computed as a whole and given to a `ConfigWriter` at once. A list
-- of links or addresses that cannot be had is empty. That a drop-in file is not there is asked
-- before its removal.
pub mod Base
pub mod Config
pub mod EtcFiles
pub mod Net
pub mod World
pub mod Files
pub mod Hypervisor
pub mod Docker
pub mod Validate
pub mod NetLink
pub mod NetMgr
pub mod Address
pub mod Plugin
pub mod Prepare
pub mod Cleanup
pub mod Init
pub mod Up
pub mod Down
pub mod Main
mod Tests
