-- ===== src/Prepare/Kubelet/Values.antt =====
-- The settings reach the files of kubeadm and of the kubelet, whatever the version of kubeadm is.
use lazyjack.Base.{
  Bytes, List, [], ◌∷◌, ◌++◌, ◌≡◌, Bool, true, false, ◌&&◌, ◌||◌, All, if◌then◌else◌, str, eq_str,
  has_suffix, show_int,
}
use lazyjack.Config.{Config, Node, NetInfo, default_token, ipv4_net_mode}
use lazyjack.Prepare.Templates.Engine.{Field, Piece, text, field}

-- A label and the field whose value stands behind it.
abbrev Setting : Type 0
Setting = Bytes × Field

Field-discrete : Discrete Field
Field-discrete = hlevel

abbrev is_same : Field → Field → Bool
is_same f g = elim (Field-discrete f g) [ yes _ ↦ true | no _ ↦ false ]

-- The template has a text that ends with the label, and the field behind it.
sets : Bytes → Field → List Piece → Bool
sets label f [] = false
sets label f (field g ∷ ps) = sets label f ps
sets label f (text t ∷ []) = false
sets label f (text t ∷ text u ∷ ps) = sets label f (text u ∷ ps)
sets label f (text t ∷ field g ∷ ps) = (has_suffix label t && is_same f g) || sets label f ps

-- The labels, which in version 1.10 differ for the token and the name.
abbrev labels : Bool → List Setting
labels old =
    (str "advertiseAddress: \"", Field.advertise_address)
    ∷ (if old then str "token: \"" else str "token: ", Field.auth_token)
    ∷ (str "insecure-bind-address: \"", Field.bind_address)
    ∷ (str "\n", Field.k8s_version)
    ∷ (if old then str "nodeName: " else str "name: ", Field.kube_master_name)
    ∷ (str "# podSubnet: \"", Field.pod_network_cidr)
    ∷ (str "serviceSubnet: \"", Field.service_subnet)
    ∷ []

abbrev SetsAll : List Piece → List Setting → Type 0
SetsAll ps = All (λ (label, f). sets label f ps ≡ true)

abbrev is_old : Bytes → Bool
is_old version = eq_str version (str "1.10")

-- The network of a pair that is of the services' family, by its mode; else the second one.
abbrev of_service_family : {A : Type 0} → Config → NetInfo → A → A → A
of_service_family c first x y = if eq_str first.mode c.service.info.mode then x else y

-- What the file must hold for a node and a configuration: the labels with the values behind them.
abbrev pub kubeadm_settings : Node → Config → List (Bytes × Bytes)
kubeadm_settings n c =
    let old = is_old c.general.kube_adm_version in
    (
      str "advertiseAddress: \"",
      of_service_family c c.mgmt.info0 c.mgmt.info0.prefix c.mgmt.info1.prefix ++ show_int n.id,
    )
    ∷ (
      if old then str "token: \"" else str "token: ",
      if c.general.insecure then default_token else c.general.token,
    )
    ∷ (
      str "insecure-bind-address: \"",
      if eq_str c.service.info.mode ipv4_net_mode then str "0.0.0.0" else str "::",
    )
    ∷ (
      str "\n",
      elim c.general.k8s_version [
        | [] ↦ str "# kubernetesVersion:"
        | d ∷ v ↦ str "kubernetesVersion: \"" ++ (d ∷ v) ++ str "\""
      ],
    )
    ∷ (if old then str "nodeName: " else str "name: ", n.name)
    ∷ (str "# podSubnet: \"", of_service_family c c.pod.info0 c.pod.cidr c.pod.cidr2)
    ∷ (str "serviceSubnet: \"", c.service.cidr)
    ∷ []
