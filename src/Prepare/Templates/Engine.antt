-- ===== src/Prepare/Templates/Engine.antt =====
-- config.go: `KubeAdmConfigInfo`, and what package text/template makes of the templates, which
-- hold text and actions `{{.Field}}` only.
use lazyjack.Base.{ℕ, Bytes, List, [], ◌∷◌, ◌++◌, Bool, true, false, show_nat, str}

pub record KubeAdmConfigInfo : Type 0 where
  pub advertise_address : Bytes
  pub auth_token : Bytes
  pub bind_address : Bytes
  pub bind_port : ℕ
  pub dns_service_ip : Bytes
  pub k8s_version : Bytes
  pub kube_master_name : Bytes
  pub pod_network_cidr : Bytes
  pub service_subnet : Bytes
  pub use_core_dns : Bool
  pub type_dns : Bytes

pub data Field : Type 0 where
  advertise_address auth_token bind_address bind_port dns_service_ip k8s_version kube_master_name
        pod_network_cidr service_subnet use_core_dns type_dns :
      Field

pub data Piece : Type 0 where
  text : Bytes → Piece
  field : Field → Piece

abbrev pub show_bool : Bool → Bytes
show_bool true = str "true"
show_bool false = str "false"

-- How a field's value is printed.
abbrev pub value_of : KubeAdmConfigInfo → Field → Bytes
value_of info advertise_address = info.advertise_address
value_of info auth_token = info.auth_token
value_of info bind_address = info.bind_address
value_of info bind_port = show_nat info.bind_port
value_of info dns_service_ip = info.dns_service_ip
value_of info k8s_version = info.k8s_version
value_of info kube_master_name = info.kube_master_name
value_of info pod_network_cidr = info.pod_network_cidr
value_of info service_subnet = info.service_subnet
value_of info use_core_dns = show_bool info.use_core_dns
value_of info type_dns = info.type_dns

abbrev pub piece_of : KubeAdmConfigInfo → Piece → Bytes
piece_of info (text s) = s
piece_of info (field f) = value_of info f

-- `t.Execute`
unfoldable pub execute : List Piece → KubeAdmConfigInfo → Bytes
execute [] info = []
execute (p ∷ ps) info = piece_of info p ++ execute ps info
