-- ===== src/LoadTest/Seeder/ClusterSpec.antt =====
-- The spec of a HostedCluster of loadtest/cmd/loadtest/seeder.go.
use postgres_controller_back.Base.{ℕ, ◌+◌, ◌%◌, false, [], ◌∷◌, ◌++◌}
use postgres_controller_back.Base.Text.{codes}
use postgres_controller_back.Json.{Json, str, bool}
use postgres_controller_back.LoadTest.Seeder.Documents.{text, array, object, padded, hex_padded}
use postgres_controller_back.LoadTest.Seeder.Catalog.{region_of, version_of, cluster_id}

unfoldable pub hosted_cluster_spec : ℕ → Json
unfolding region_of version_of cluster_id
hosted_cluster_spec idx = object (
    (
      "creatorARN",
      str (
          codes "arn:aws:iam::"
          ++ padded 12 (100_000_000_000 + idx)
          ++ codes ":role/ManagedOpenShift-Installer-Role"),
    )
    ∷ (
      "hostedCluster",
      object (
          (
            "dns",
            object (
                ("baseDomain", text "hyperfleet.io")
                ∷ ("publicZoneID", str (codes "Z" ++ padded 10 idx))
                ∷ ("privateZoneID", str (codes "Z" ++ padded 10 idx ++ codes "P"))
                ∷ []),
          )
          ∷ (
            "etcd",
            object (
                (
                  "managed",
                  object (
                      (
                        "storage",
                        object (
                            ("type", text "PersistentVolume")
                            ∷ (
                              "persistentVolume",
                              object (
                                  ("size", text "8Gi") ∷ ("storageClassName", text "gp3-csi") ∷ []),
                            )
                            ∷ []),
                      )
                      ∷ []),
                )
                ∷ ("managementType", text "Managed")
                ∷ []),
          )
          ∷ ("fips", bool false)
          ∷ ("sshKey", object (("name", text "ssh-key") ∷ []))
          ∷ (
            "release",
            object (
                (
                  "image",
                  str (
                      codes "quay.io/openshift-release-dev/ocp-release:"
                      ++ version_of idx
                      ++ codes "-multi"),
                )
                ∷ []),
          )
          ∷ (
            "platform",
            object (
                (
                  "aws",
                  object (
                      ("region", str (region_of idx))
                      ∷ (
                        "rolesRef",
                        object (
                            (
                              "ingressARN",
                              str (
                                  codes "arn:aws:iam::"
                                  ++ padded 12 (100_000_000_000 + idx)
                                  ++ codes ":role/ManagedOpenShift-Ingress-Role"),
                            )
                            ∷ (
                              "networkARN",
                              str (
                                  codes "arn:aws:iam::"
                                  ++ padded 12 (100_000_000_000 + idx)
                                  ++ codes ":role/ManagedOpenShift-Network-Role"),
                            )
                            ∷ (
                              "storageARN",
                              str (
                                  codes "arn:aws:iam::"
                                  ++ padded 12 (100_000_000_000 + idx)
                                  ++ codes ":role/ManagedOpenShift-Storage-Role"),
                            )
                            ∷ (
                              "imageRegistryARN",
                              str (
                                  codes "arn:aws:iam::"
                                  ++ padded 12 (100_000_000_000 + idx)
                                  ++ codes ":role/ManagedOpenShift-ImageRegistry-Role"),
                            )
                            ∷ (
                              "nodePoolManagementARN",
                              str (
                                  codes "arn:aws:iam::"
                                  ++ padded 12 (100_000_000_000 + idx)
                                  ++ codes ":role/ManagedOpenShift-NodePool-Role"),
                            )
                            ∷ (
                              "kubeCloudControllerARN",
                              str (
                                  codes "arn:aws:iam::"
                                  ++ padded 12 (100_000_000_000 + idx)
                                  ++ codes ":role/ManagedOpenShift-KubeCloud-Role"),
                            )
                            ∷ (
                              "controlPlaneOperatorARN",
                              str (
                                  codes "arn:aws:iam::"
                                  ++ padded 12 (100_000_000_000 + idx)
                                  ++ codes ":role/ManagedOpenShift-CPO-Role"),
                            )
                            ∷ []),
                      )
                      ∷ (
                        "resourceTags",
                        array (
                            object (("key", text "red-hat-managed") ∷ ("value", text "true") ∷ [])
                            ∷ object
                                (("key", text "red-hat-clustertype") ∷ ("value", text "rosa") ∷ [])
                            ∷ object (
                                ("key", text "api.openshift.com/id")
                                ∷ ("value", str (cluster_id idx))
                                ∷ [])
                            ∷ object (
                                ("key", text "api.openshift.com/environment")
                                ∷ ("value", text "production")
                                ∷ [])
                            ∷ object (
                                ("key", text "api.openshift.com/legal-entity-id")
                                ∷ ("value", str (codes "le-" ++ padded 6 (idx % 5000)))
                                ∷ [])
                            ∷ []),
                      )
                      ∷ ("endpointAccess", text "Public")
                      ∷ (
                        "cloudProviderConfigRef",
                        object (("name", text "aws-provider-config") ∷ []),
                      )
                      ∷ []),
                )
                ∷ ("type", text "AWS")
                ∷ []),
          )
          ∷ (
            "services",
            array (
                object (
                  ("service", text "APIServer")
                  ∷ ("servicePublishingStrategy", object (("type", text "LoadBalancer") ∷ []))
                  ∷ [])
                ∷ object (
                    ("service", text "OAuthServer")
                    ∷ ("servicePublishingStrategy", object (("type", text "Route") ∷ []))
                    ∷ [])
                ∷ object (
                    ("service", text "Konnectivity")
                    ∷ ("servicePublishingStrategy", object (("type", text "Route") ∷ []))
                    ∷ [])
                ∷ object (
                    ("service", text "Ignition")
                    ∷ ("servicePublishingStrategy", object (("type", text "Route") ∷ []))
                    ∷ [])
                ∷ object (
                    ("service", text "OVNSbDb")
                    ∷ ("servicePublishingStrategy", object (("type", text "Route") ∷ []))
                    ∷ [])
                ∷ []),
          )
          ∷ (
            "issuerURL",
            str (
                codes "https://d"
                ++ hex_padded 8 idx
                ++ codes ".cloudfront.net/"
                ++ cluster_id idx),
          )
          ∷ (
            "networking",
            object (
                ("networkType", text "OVNKubernetes")
                ∷ ("clusterNetwork", array (object (("cidr", text "10.128.0.0/14") ∷ []) ∷ []))
                ∷ ("machineNetwork", array (object (("cidr", text "10.0.0.0/16") ∷ []) ∷ []))
                ∷ ("serviceNetwork", array (object (("cidr", text "172.30.0.0/16") ∷ []) ∷ []))
                ∷ []),
          )
          ∷ ("pullSecret", object (("name", text "pull-secret") ∷ []))
          ∷ (
            "configuration",
            object (
                ("apiServer", object (("audit", object (("profile", text "Default") ∷ [])) ∷ []))
                ∷ []),
          )
          ∷ ("controllerAvailabilityPolicy", text "HighlyAvailable")
          ∷ ("infrastructureAvailabilityPolicy", text "HighlyAvailable")
          ∷ []),
    )
    ∷ [])
