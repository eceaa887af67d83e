-- ===== src/Prepare/Templates/V1_10.antt =====
-- config.go: `Template_v1_10`.
use lazyjack.Base.{List, [], ◌∷◌, str}
use lazyjack.Prepare.Templates.Engine.{Piece, text, field}
use lazyjack.Prepare.Templates.Engine.Field.{
  advertise_address, auth_token, bind_address, bind_port, k8s_version, kube_master_name,
  pod_network_cidr, service_subnet, use_core_dns,
}

unfoldable pub template_v1_10 : List Piece
template_v1_10 =
    text (str "# V1.10 (and older) based config\napi:\n  advertiseAddress: \"")
    ∷ field advertise_address
    ∷ text (str "\"\napiServerExtraArgs:\n  insecure-bind-address: \"")
    ∷ field bind_address
    ∷ text (str "\"\n  insecure-port: \"")
    ∷ field bind_port
    ∷ text (str "\"\napiVersion: kubeadm.k8s.io/v1alpha1\nfeatureGates: {CoreDNS: ")
    ∷ field use_core_dns
    ∷ text (str "}\nkind: MasterConfiguration\n")
    ∷ field k8s_version
    ∷ text (str "\nnetworking:\n  # podSubnet: \"")
    ∷ field pod_network_cidr
    ∷ text (str "\"\n  serviceSubnet: \"")
    ∷ field service_subnet
    ∷ text (str "\"\ntoken: \"")
    ∷ field auth_token
    ∷ text (str "\"\ntokenTTL: 0s\nnodeName: ")
    ∷ field kube_master_name
    ∷ text (str "\nunifiedControlPlaneImage: \"\"\n")
    ∷ []
