-- ===== src/Prepare/Templates/V1_13.antt =====
-- config.go: `Template_v1_13`.
use lazyjack.Base.{List, [], ◌∷◌, str}
use lazyjack.Prepare.Templates.Engine.{Piece, text, field}
use lazyjack.Prepare.Templates.Engine.Field.{
  advertise_address, auth_token, bind_address, bind_port, dns_service_ip, k8s_version,
  kube_master_name, pod_network_cidr, service_subnet, type_dns,
}

unfoldable pub template_v1_13 : List Piece
template_v1_13 =
    text (str "# V1.13 based config\napiEndpoint:\n  advertiseAddress: \"")
    ∷ field advertise_address
    ∷ text (str "\"\n  bindPort: 6443\napiVersion: kubeadm.k8s.io/v1beta1\nbootstrapTokens:\n")
    ∷ text (str "- groups:\n  - system:bootstrappers:kubeadm:default-node-token\n  token: ")
    ∷ field auth_token
    ∷ text (str "\n  ttl: 24h0m0s\n  usages:\n  - signing\n  - authentication\n")
    ∷ text
        (str "kind: InitConfiguration\nnodeRegistration:\n  criSocket: /var/run/dockershim.sock\n")
    ∷ text (str "  name: ")
    ∷ field kube_master_name
    ∷ text
        (str "\n  taints:\n  - effect: NoSchedule\n    key: node-role.kubernetes.io/master\n---\n")
    ∷ text (str "apiServerExtraArgs:\n  insecure-bind-address: \"")
    ∷ field bind_address
    ∷ text (str "\"\n  insecure-port: \"")
    ∷ field bind_port
    ∷ text (str "\"\napiVersion: kubeadm.k8s.io/v1beta1\nauditPolicy:\n")
    ∷ text (str "  logDir: /var/log/kubernetes/audit\n  logMaxAge: 2\n  path: \"\"\n")
    ∷ text (str "certificatesDir: /etc/kubernetes/pki\n# clusterName: kubernetes\n")
    ∷ text (str "controlPlaneEndpoint: \"\"\netcd:\n  local:\n    dataDir: /var/lib/etcd\n")
    ∷ text (str "    image: \"\"\ndns:\n  type: ")
    ∷ field type_dns
    ∷ text (str "\nimageRepository: k8s.gcr.io\nkind: ClusterConfiguration\n")
    ∷ field k8s_version
    ∷ text (str "\nnetworking:\n  dnsDomain: cluster.local\n  # podSubnet: \"")
    ∷ field pod_network_cidr
    ∷ text (str "\"\n  serviceSubnet: \"")
    ∷ field service_subnet
    ∷ text (str "\"\nunifiedControlPlaneImage: \"\"\n---\n")
    ∷ text (str "apiVersion: kubeproxy.config.k8s.io/v1alpha1\nbindAddress: \"")
    ∷ field bind_address
    ∷ text (str "\"\nclientConnection:\n  acceptContentTypes: \"\"\n  burst: 10\n")
    ∷ text (str "  contentType: application/vnd.kubernetes.protobuf\n")
    ∷ text
        (str "  kubeconfig: /var/lib/kube-proxy/kubeconfig.conf\n  qps: 5\n# clusterCIDR: \"\"\n")
    ∷ text (str "configSyncPeriod: 15m0s\n# conntrack:\n#   max: null\n#   maxPerCore: 32768\n")
    ∷ text (str "#   min: 131072\n#   tcpCloseWaitTimeout: 1h0m0s\n")
    ∷ text (str "#   tcpEstablishedTimeout: 24h0m0s\nenableProfiling: false\n")
    ∷ text (str "healthzBindAddress: 0.0.0.0:10256\nhostnameOverride: \"\"\niptables:\n")
    ∷ text (str "  masqueradeAll: false\n  masqueradeBit: 14\n  minSyncPeriod: 0s\n")
    ∷ text (str "  syncPeriod: 30s\nipvs:\n  excludeCIDRs: null\n  minSyncPeriod: 0s\n")
    ∷ text (str "  scheduler: \"\"\n  syncPeriod: 30s\nkind: KubeProxyConfiguration\n")
    ∷ text (str "metricsBindAddress: 127.0.0.1:10249\nmode: \"\"\nnodePortAddresses: null\n")
    ∷ text (str "oomScoreAdj: -999\nportRange: \"\"\nresourceContainer: /kube-proxy\n")
    ∷ text (str "udpIdleTimeout: 250ms\n---\naddress: 0.0.0.0\n")
    ∷ text (str "apiVersion: kubelet.config.k8s.io/v1beta1\nauthentication:\n  anonymous:\n")
    ∷ text (str "    enabled: false\n  webhook:\n    cacheTTL: 2m0s\n    enabled: true\n  x509:\n")
    ∷ text (str "    clientCAFile: /etc/kubernetes/pki/ca.crt\nauthorization:\n  mode: Webhook\n")
    ∷ text (str "  webhook:\n    cacheAuthorizedTTL: 5m0s\n    cacheUnauthorizedTTL: 30s\n")
    ∷ text (str "cgroupDriver: cgroupfs\ncgroupsPerQOS: true\nclusterDNS:\n- \"")
    ∷ field dns_service_ip
    ∷ text
        (str "\"\nclusterDomain: cluster.local\nconfigMapAndSecretChangeDetectionStrategy: Watch\n")
    ∷ text (str "containerLogMaxFiles: 5\ncontainerLogMaxSize: 10Mi\n")
    ∷ text (str "contentType: application/vnd.kubernetes.protobuf\ncpuCFSQuota: true\n")
    ∷ text
        (str "cpuCFSQuotaPeriod: 100ms\ncpuManagerPolicy: none\ncpuManagerReconcilePeriod: 10s\n")
    ∷ text (str "enableControllerAttachDetach: true\nenableDebuggingHandlers: true\n")
    ∷ text
        (str "enforceNodeAllocatable:\n- pods\neventBurst: 10\neventRecordQPS: 5\nevictionHard:\n")
    ∷ text (str "  imagefs.available: 15%\n  memory.available: 100Mi\n  nodefs.available: 10%\n")
    ∷ text
        (str "  nodefs.inodesFree: 5%\nevictionPressureTransitionPeriod: 5m0s\nfailSwapOn: true\n")
    ∷ text (str "fileCheckFrequency: 20s\nhairpinMode: promiscuous-bridge\n")
    ∷ text (str "healthzBindAddress: 127.0.0.1\nhealthzPort: 10248\nhttpCheckFrequency: 20s\n")
    ∷ text (str "imageGCHighThresholdPercent: 85\nimageGCLowThresholdPercent: 80\n")
    ∷ text (str "imageMinimumGCAge: 2m0s\niptablesDropBit: 15\niptablesMasqueradeBit: 14\n")
    ∷ text (str "kind: KubeletConfiguration\nkubeAPIBurst: 10\nkubeAPIQPS: 5\n")
    ∷ text (str "makeIPTablesUtilChains: true\nmaxOpenFiles: 1000000\nmaxPods: 110\n")
    ∷ text (str "nodeLeaseDurationSeconds: 40\nnodeStatusUpdateFrequency: 10s\noomScoreAdj: -999\n")
    ∷ text (str "podPidsLimit: -1\n# port: 10250\nregistryBurst: 10\nregistryPullQPS: 5\n")
    ∷ text (str "resolvConf: /etc/resolv.conf\nrotateCertificates: true\n")
    ∷ text (str "runtimeRequestTimeout: 2m0s\nserializeImagePulls: true\n")
    ∷ text
        (str "staticPodPath: /etc/kubernetes/manifests\nstreamingConnectionIdleTimeout: 4h0m0s\n")
    ∷ text (str "syncFrequency: 1m0s\nvolumeStatsAggPeriod: 1m0s\n")
    ∷ []
