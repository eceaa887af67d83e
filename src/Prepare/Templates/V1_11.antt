-- ===== src/Prepare/Templates/V1_11.antt =====
-- config.go: `Template_v1_11`.
use lazyjack.Base.{List, [], ◌∷◌, str}
use lazyjack.Prepare.Templates.Engine.{Piece, text, field}
use lazyjack.Prepare.Templates.Engine.Field.{
  advertise_address, auth_token, bind_address, bind_port, dns_service_ip, k8s_version,
  kube_master_name, pod_network_cidr, service_subnet, use_core_dns,
}

unfoldable pub template_v1_11 : List Piece
template_v1_11 =
    text (str "# V1.11 based config\napi:\n  advertiseAddress: \"")
    ∷ field advertise_address
    ∷ text (str "\"\n  bindPort: 6443\n  controlPlaneEndpoint: \"\"\napiServerExtraArgs:\n")
    ∷ text (str "  insecure-bind-address: \"")
    ∷ field bind_address
    ∷ text (str "\"\n  insecure-port: \"")
    ∷ field bind_port
    ∷ text (str "\"\napiVersion: kubeadm.k8s.io/v1alpha2\nauditPolicy:\n")
    ∷ text (str "  logDir: /var/log/kubernetes/audit\n  logMaxAge: 2\n  path: \"\"\n")
    ∷ text
        (str "bootstrapTokens:\n- groups:\n  - system:bootstrappers:kubeadm:default-node-token\n")
    ∷ text (str "  token: ")
    ∷ field auth_token
    ∷ text (str "\n  ttl: 0s\n  usages:\n  - signing\n  - authentication\n")
    ∷ text
        (str "certificatesDir: /etc/kubernetes/pki\n# clusterName: kubernetes\netcd:\n  local:\n")
    ∷ text (str "    dataDir: /var/lib/etcd\n    image: \"\"\nfeatureGates: {CoreDNS: ")
    ∷ field use_core_dns
    ∷ text (str "}\nkind: MasterConfiguration\nkubeProxy:\n  config:\n    bindAddress: \"")
    ∷ field bind_address
    ∷ text (str "\"\n    clientConnection:\n      acceptContentTypes: \"\"\n      burst: 10\n")
    ∷ text (str "      contentType: application/vnd.kubernetes.protobuf\n")
    ∷ text (str "      kubeconfig: /var/lib/kube-proxy/kubeconfig.conf\n      qps: 5\n")
    ∷ text (str "    # clusterCIDR: \"\"\n    configSyncPeriod: 15m0s\n    # conntrack:\n")
    ∷ text (str "    #   max: null\n    #   maxPerCore: 32768\n    #   min: 131072\n")
    ∷ text (str "    #   tcpCloseWaitTimeout: 1h0m0s\n    #   tcpEstablishedTimeout: 24h0m0s\n")
    ∷ text (str "    enableProfiling: false\n    healthzBindAddress: 0.0.0.0:10256\n")
    ∷ text (str "    hostnameOverride: \"\"\n    iptables:\n      masqueradeAll: false\n")
    ∷ text
        (str "      masqueradeBit: 14\n      minSyncPeriod: 0s\n      syncPeriod: 30s\n    ipvs:\n")
    ∷ text (str "      excludeCIDRs: null\n      minSyncPeriod: 0s\n      scheduler: \"\"\n")
    ∷ text (str "      syncPeriod: 30s\n    metricsBindAddress: 127.0.0.1:10249\n    mode: \"\"\n")
    ∷ text (str "    nodePortAddresses: null\n    oomScoreAdj: -999\n    portRange: \"\"\n")
    ∷ text (str "    resourceContainer: /kube-proxy\n    udpIdleTimeout: 250ms\n")
    ∷ text (str "kubeletConfiguration:\n  baseConfig:\n    address: 0.0.0.0\n    authentication:\n")
    ∷ text
        (str "      anonymous:\n        enabled: false\n      webhook:\n        cacheTTL: 2m0s\n")
    ∷ text (str "        enabled: true\n      x509:\n")
    ∷ text (str "        clientCAFile: /etc/kubernetes/pki/ca.crt\n    authorization:\n")
    ∷ text (str "      mode: Webhook\n      webhook:\n        cacheAuthorizedTTL: 5m0s\n")
    ∷ text (str "        cacheUnauthorizedTTL: 30s\n    cgroupDriver: cgroupfs\n")
    ∷ text (str "    cgroupsPerQOS: true\n    clusterDNS:\n    - \"")
    ∷ field dns_service_ip
    ∷ text (str "\"\n    clusterDomain: cluster.local\n    containerLogMaxFiles: 5\n")
    ∷ text (str "    containerLogMaxSize: 10Mi\n")
    ∷ text (str "    contentType: application/vnd.kubernetes.protobuf\n    cpuCFSQuota: true\n")
    ∷ text (str "    cpuManagerPolicy: none\n    cpuManagerReconcilePeriod: 10s\n")
    ∷ text (str "    enableControllerAttachDetach: true\n    enableDebuggingHandlers: true\n")
    ∷ text
        (str "    enforceNodeAllocatable:\n    - pods\n    eventBurst: 10\n    eventRecordQPS: 5\n")
    ∷ text (str "    evictionHard:\n      imagefs.available: 15%\n      memory.available: 100Mi\n")
    ∷ text (str "      nodefs.available: 10%\n      nodefs.inodesFree: 5%\n")
    ∷ text (str "    evictionPressureTransitionPeriod: 5m0s\n    failSwapOn: true\n")
    ∷ text (str "    fileCheckFrequency: 20s\n    hairpinMode: promiscuous-bridge\n")
    ∷ text (str "    healthzBindAddress: 127.0.0.1\n    healthzPort: 10248\n")
    ∷ text (str "    httpCheckFrequency: 20s\n    imageGCHighThresholdPercent: 85\n")
    ∷ text (str "    imageGCLowThresholdPercent: 80\n    imageMinimumGCAge: 2m0s\n")
    ∷ text (str "    iptablesDropBit: 15\n    iptablesMasqueradeBit: 14\n    kubeAPIBurst: 10\n")
    ∷ text (str "    kubeAPIQPS: 5\n    makeIPTablesUtilChains: true\n    maxOpenFiles: 1000000\n")
    ∷ text (str "    maxPods: 110\n    nodeStatusUpdateFrequency: 10s\n    oomScoreAdj: -999\n")
    ∷ text (str "    podPidsLimit: -1\n    # port: 10250\n    registryBurst: 10\n")
    ∷ text (str "    registryPullQPS: 5\n    resolvConf: /etc/resolv.conf\n")
    ∷ text (str "    rotateCertificates: true\n    runtimeRequestTimeout: 2m0s\n")
    ∷ text (str "    serializeImagePulls: true\n    staticPodPath: /etc/kubernetes/manifests\n")
    ∷ text (str "    streamingConnectionIdleTimeout: 4h0m0s\n    syncFrequency: 1m0s\n")
    ∷ text (str "    volumeStatsAggPeriod: 1m0s\n")
    ∷ field k8s_version
    ∷ text (str "\nnetworking:\n  # podSubnet: \"")
    ∷ field pod_network_cidr
    ∷ text (str "\"\n  serviceSubnet: \"")
    ∷ field service_subnet
    ∷ text (str "\"\nnodeRegistration:\n  name: ")
    ∷ field kube_master_name
    ∷ text (str "\nunifiedControlPlaneImage: \"\"\n")
    ∷ []
