-- ===== src/LoadTest/Seeder/Pools.antt =====
-- The documents of a HostedNodePool of loadtest/cmd/loadtest/seeder.go.
use postgres_controller_back.Base.{ℕ, ◌+◌, ◌*◌, ◌/◌, ◌%◌, true, [], ◌∷◌, ◌++◌}
use postgres_controller_back.Base.Text.{codes}
use postgres_controller_back.Json.{Json, str, bool}
use postgres_controller_back.LoadTest.Seeder.Documents.{
  text, number, array, object, padded, hex_padded,
}
use postgres_controller_back.LoadTest.Seeder.Catalog.{
  region_of, version_of, instance_type_of, replicas_of,
}

unfoldable pub node_pool_spec : ℕ → Json
unfolding region_of version_of replicas_of instance_type_of
node_pool_spec idx = object (
    (
      "config",
      array (
          object (
            ("kind", text "KubeletConfig")
            ∷ (
              "spec",
              object (
                  (
                    "kubeletConfig",
                    object (("maxPods", number 250) ∷ ("podsPerCore", number 10) ∷ []),
                  )
                  ∷ []),
            )
            ∷ ("apiVersion", text "machineconfiguration.openshift.io/v1")
            ∷ [])
          ∷ []),
    )
    ∷ (
      "release",
      object (
          (
            "image",
            str (
                codes "quay.io/openshift-release-dev/ocp-release:"
                ++ version_of idx
                ++ codes "-multi"),
          )
          ∷ []),
    )
    ∷ (
      "nodePool",
      object (
          (
            "platform",
            object (
                (
                  "aws",
                  object (
                      ("subnetID", str (codes "subnet-" ++ hex_padded 12 idx))
                      ∷ (
                        "rootVolume",
                        object (
                            ("iops", number 3000)
                            ∷ ("size", number 300)
                            ∷ ("type", text "gp3")
                            ∷ ("throughput", number 125)
                            ∷ (
                              "encryptionKey",
                              str (
                                  codes "arn:aws:kms:"
                                  ++ region_of idx
                                  ++ codes ":"
                                  ++ padded 12 (100_000_000_000 + idx)
                                  ++ codes ":key/mrk-"
                                  ++ hex_padded 32 idx),
                            )
                            ∷ []),
                      )
                      ∷ ("instanceType", str (instance_type_of idx))
                      ∷ (
                        "securityGroups",
                        array (
                            object (("id", str (codes "sg-" ++ hex_padded 12 idx)) ∷ [])
                            ∷ object
                                (("id", str (codes "sg-" ++ hex_padded 12 (idx + 10_000_000))) ∷ [])
                            ∷ []),
                      )
                      ∷ (
                        "instanceProfile",
                        str (
                            codes "arn:aws:iam::"
                            ++ padded 12 (100_000_000_000 + idx)
                            ++ codes ":instance-profile/ManagedOpenShift-Worker-Profile"),
                      )
                      ∷ []),
                )
                ∷ ("type", text "AWS")
                ∷ []),
          )
          ∷ []),
    )
    ∷ ("replicas", number (replicas_of idx))
    ∷ (
      "management",
      object (
          (
            "replace",
            object (
                ("strategy", text "RollingUpdate")
                ∷ (
                  "rollingUpdate",
                  object (("maxSurge", number 1) ∷ ("maxUnavailable", number 0) ∷ []),
                )
                ∷ []),
          )
          ∷ ("autoRepair", bool true)
          ∷ ("upgradeType", text "Replace")
          ∷ []),
    )
    ∷ (
      "autoScaling",
      object (("max", number ((replicas_of idx) * 3)) ∷ ("min", number (replicas_of idx)) ∷ []),
    )
    ∷ ("clusterName", str (codes "seed-" ++ padded 6 (idx / 5)))
    ∷ [])

unfoldable pub node_pool_status_conditions : ℕ → Json
unfolding version_of
node_pool_status_conditions idx = array (
    object (
      ("type", text "Ready")
      ∷ ("reason", text "AsExpected")
      ∷ ("status", text "True")
      ∷ ("message", text "NodePool is ready")
      ∷ [])
    ∷ object (
        ("type", text "Available")
        ∷ ("reason", text "AsExpected")
        ∷ ("status", text "True")
        ∷ ("message", text "All replicas are available")
        ∷ [])
    ∷ object (
        ("type", text "AllMachinesReady")
        ∷ ("reason", text "AsExpected")
        ∷ ("status", text "True")
        ∷ ("message", text "All machines have joined the cluster")
        ∷ [])
    ∷ object (
        ("type", text "AllNodesHealthy")
        ∷ ("reason", text "AsExpected")
        ∷ ("status", text "True")
        ∷ ("message", text "All nodes are reporting healthy status")
        ∷ [])
    ∷ object (
        ("type", text "AutoscalingEnabled")
        ∷ ("reason", text "AsExpected")
        ∷ ("status", text "True")
        ∷ ("message", text "Autoscaling is enabled")
        ∷ [])
    ∷ object (
        ("type", text "UpdateManagementEnabled")
        ∷ ("reason", text "AsExpected")
        ∷ ("status", text "True")
        ∷ ("message", text "Update management is active")
        ∷ [])
    ∷ object (
        ("type", text "AutorepairEnabled")
        ∷ ("reason", text "AsExpected")
        ∷ ("status", text "True")
        ∷ ("message", text "Auto-repair is enabled for this node pool")
        ∷ [])
    ∷ object (
        ("type", text "ReconciliationActive")
        ∷ ("reason", text "AsExpected")
        ∷ ("status", text "True")
        ∷ ("message", text "Reconciliation loop is active")
        ∷ [])
    ∷ object (
        ("type", text "ValidMachineConfig")
        ∷ ("reason", text "AsExpected")
        ∷ ("status", text "True")
        ∷ ("message", text "Machine config is valid and applied")
        ∷ [])
    ∷ object (
        ("type", text "ValidReleaseImage")
        ∷ ("reason", text "AsExpected")
        ∷ ("status", text "True")
        ∷ ("message", text "Release image is valid and pullable")
        ∷ [])
    ∷ [])

unfoldable pub node_pool_status : ℕ → Json
unfolding version_of replicas_of node_pool_status_conditions
node_pool_status idx = object (
    ("version", str (version_of idx))
    ∷ (
      "platform",
      object (
          (
            "aws",
            object (
                (
                  "securityGroups",
                  array (object (("id", str (codes "sg-" ++ hex_padded 12 idx)) ∷ []) ∷ []),
                )
                ∷ (
                  "instanceProfile",
                  str (
                      codes "arn:aws:iam::"
                      ++ padded 12 (100_000_000_000 + idx)
                      ++ codes ":instance-profile/ManagedOpenShift-Worker-Profile"),
                )
                ∷ []),
          )
          ∷ []),
    )
    ∷ ("replicas", number (replicas_of idx))
    ∷ ("conditions", node_pool_status_conditions idx)
    ∷ ("readyReplicas", number (replicas_of idx))
    ∷ ("availableReplicas", number (replicas_of idx))
    ∷ [])

unfoldable pub node_pool_metadata : ℕ → Json
unfolding region_of instance_type_of
node_pool_metadata idx = object (
    (
      "labels",
      object (
          ("hyperfleet.io/region", str (region_of idx))
          ∷ ("hyperfleet.io/account-id", str (codes "acct-" ++ padded 6 ((idx / 5) % 5000)))
          ∷ ("hyperfleet.io/cluster-name", str (codes "seed-" ++ padded 6 (idx / 5)))
          ∷ ("hyperfleet.io/instance-type", str (instance_type_of idx))
          ∷ ("hyperfleet.io/node-pool-name", str (codes "workers-" ++ padded 6 idx))
          ∷ []),
    )
    ∷ (
      "annotations",
      object (
          ("hyperfleet.io/managed-by", text "rosa-hyperfleet-api")
          ∷ ("hyperfleet.io/auto-repair", text "true")
          ∷ ("hyperfleet.io/billing-model", text "marketplace-aws")
          ∷ []),
    )
    ∷ [])
