-- ===== src/Prepare/Templates.antt =====
-- config.go: the templates for kubeadm's configuration file, one for each version of kubeadm.
pub mod Engine
pub mod V1_10
pub mod V1_11
pub mod V1_12
pub mod V1_13
