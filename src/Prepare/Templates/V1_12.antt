-- ===== src/Prepare/Templates/V1_12.antt =====
-- config.go: `Template_v1_12`.
use lazyjack.Base.{List, [], ◌∷◌, str}
use lazyjack.Prepare.Templates.Engine.{Piece, text, field}
use lazyjack.Prepare.Templates.Engine.Field.{
  advertise_address, auth_token, bind_address, bind_port, k8s_version, kube_master_name,
  pod_network_cidr, service_subnet, use_core_dns,
}

unfoldable pub template_v1_12 : List Piece
template_v1_12 =
    text (str "# V1.12 based config\napiEndpoint:\n  advertiseAddress: \"")
    ∷ field advertise_address
    ∷ text (str "\"\n  bindPort: 6443\napiVersion: kubeadm.k8s.io/v1alpha3\nbootstrapTokens:\n")
    ∷ text (str "- groups:\n  - system:bootstrappers:kubeadm:default-node-token\n  token: ")
    ∷ field auth_token
    ∷ text
        (str "\n  ttl: 0s\n  usages:\n  - signing\n  - authentication\nkind: InitConfiguration\n")
    ∷ text (str "nodeRegistration:\n  criSocket: /var/run/dockershim.sock\n  name: ")
    ∷ field kube_master_name
    ∷ text
        (str "\n  taints:\n  - effect: NoSchedule\n    key: node-role.kubernetes.io/master\n---\n")
    ∷ text (str "apiServerExtraArgs:\n  insecure-bind-address: \"")
    ∷ field bind_address
    ∷ text (str "\"\n  insecure-port: \"")
    ∷ field bind_port
    ∷ text (str "\"\napiVersion: kubeadm.k8s.io/v1alpha3\nauditPolicy:\n")
    ∷ text (str "  logDir: /var/log/kubernetes/audit\n  logMaxAge: 2\n  path: \"\"\n")
    ∷ text
        (str "certificatesDir: /etc/kubernetes/pki\ncontrolPlaneEndpoint: \"\"\netcd:\n  local:\n")
    ∷ text (str "    dataDir: /var/lib/etcd\n    image: \"\"\nfeatureGates: {CoreDNS: ")
    ∷ field use_core_dns
    ∷ text (str "}\nimageRepository: k8s.gcr.io\nkind: ClusterConfiguration\n")
    ∷ field k8s_version
    ∷ text (str "\nnetworking:\n  # podSubnet: \"")
    ∷ field pod_network_cidr
    ∷ text (str "\"\n  serviceSubnet: \"")
    ∷ field service_subnet
    ∷ text (str "\"\nunifiedControlPlaneImage: \"\"\n")
    ∷ []
