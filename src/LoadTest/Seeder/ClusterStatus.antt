-- ===== src/LoadTest/Seeder/ClusterStatus.antt =====
-- The status and the metadata of a HostedCluster of loadtest/cmd/loadtest/seeder.go.
use postgres_controller_back.Base.{ℕ, ◌+◌, ◌%◌, [], ◌∷◌, ◌++◌}
use postgres_controller_back.Base.Text.{codes}
use postgres_controller_back.Json.{Json, str}
use postgres_controller_back.LoadTest.Seeder.Documents.{
  text, number, array, object, padded, hex_padded, cycle,
}
use postgres_controller_back.LoadTest.Seeder.Catalog.{
  region_of, version_of, cluster_id, environments,
}

unfoldable pub hosted_cluster_status_conditions : ℕ → Json
unfolding version_of
hosted_cluster_status_conditions idx = array (
    object (
      ("type", text "Ready")
      ∷ ("reason", text "AsExpected")
      ∷ ("status", text "True")
      ∷ ("message", text "All components are ready")
      ∷ [])
    ∷ object (
        ("type", text "Available")
        ∷ ("reason", text "AsExpected")
        ∷ ("status", text "True")
        ∷ ("message", text "Hosted control plane is available")
        ∷ [])
    ∷ object (
        ("type", text "Progressing")
        ∷ ("reason", text "AsExpected")
        ∷ ("status", text "False")
        ∷ ("message", text "Configuration is up to date")
        ∷ [])
    ∷ object (
        ("type", text "Degraded")
        ∷ ("reason", text "AsExpected")
        ∷ ("status", text "False")
        ∷ ("message", text "Hosted cluster is not degraded")
        ∷ [])
    ∷ object (
        ("type", text "InfrastructureReady")
        ∷ ("reason", text "AsExpected")
        ∷ ("status", text "True")
        ∷ ("message", text "Infrastructure is provisioned")
        ∷ [])
    ∷ object (
        ("type", text "KubeAPIServerAvailable")
        ∷ ("reason", text "AsExpected")
        ∷ ("status", text "True")
        ∷ ("message", text "Kube API server is available at the endpoint")
        ∷ [])
    ∷ object (
        ("type", text "EtcdAvailable")
        ∷ ("reason", text "AsExpected")
        ∷ ("status", text "True")
        ∷ ("message", text "Etcd cluster is operational")
        ∷ [])
    ∷ object (
        ("type", text "ValidHostedControlPlaneConfiguration")
        ∷ ("reason", text "AsExpected")
        ∷ ("status", text "True")
        ∷ ("message", text "Configuration passes validation")
        ∷ [])
    ∷ object (
        ("type", text "CloudResourcesDestroyed")
        ∷ ("reason", text "NotDeleting")
        ∷ ("status", text "False")
        ∷ ("message", text "Cluster is not being deleted")
        ∷ [])
    ∷ object (
        ("type", text "ExternalDNSReachable")
        ∷ ("reason", text "AsExpected")
        ∷ ("status", text "True")
        ∷ ("message", text "External DNS records are resolvable")
        ∷ [])
    ∷ object (
        ("type", text "ValidOIDCConfiguration")
        ∷ ("reason", text "AsExpected")
        ∷ ("status", text "True")
        ∷ ("message", text "OIDC provider configuration is valid")
        ∷ [])
    ∷ object (
        ("type", text "ValidReleaseImage")
        ∷ ("reason", text "AsExpected")
        ∷ ("status", text "True")
        ∷ ("message", text "Release image is valid and pullable")
        ∷ [])
    ∷ object (
        ("type", text "ReconciliationActive")
        ∷ ("reason", text "AsExpected")
        ∷ ("status", text "True")
        ∷ ("message", text "Reconciliation is active")
        ∷ [])
    ∷ object (
        ("type", text "ReconciliationSucceeded")
        ∷ ("reason", text "AsExpected")
        ∷ ("status", text "True")
        ∷ ("message", text "Reconciliation completed successfully")
        ∷ [])
    ∷ object (
        ("type", text "ClusterVersionAvailable")
        ∷ ("reason", text "AsExpected")
        ∷ ("status", text "True")
        ∷ ("message", str (codes "Cluster version " ++ version_of idx ++ codes " is available"))
        ∷ [])
    ∷ object (
        ("type", text "ClusterVersionProgressing")
        ∷ ("reason", text "AsExpected")
        ∷ ("status", text "False")
        ∷ ("message", text "Cluster version is up to date")
        ∷ [])
    ∷ [])

unfoldable pub hosted_cluster_status : ℕ → Json
unfolding region_of version_of hosted_cluster_status_conditions
hosted_cluster_status idx = object (
    ("phase", text "Ready")
    ∷ ("version", str (version_of idx))
    ∷ (
      "platform",
      object (
          (
            "aws",
            object (("defaultWorkerSecurityGroupID", str (codes "sg-" ++ hex_padded 12 idx)) ∷ []),
          )
          ∷ []),
    )
    ∷ ("conditions", hosted_cluster_status_conditions idx)
    ∷ (
      "placementRef",
      object (
          ("name", str (codes "placement-" ++ region_of idx ++ codes "-" ++ padded 2 (idx % 10)))
          ∷ (
            "managementCluster",
            str (codes "mc-" ++ region_of idx ++ codes "-" ++ padded 2 (idx % 5)),
          )
          ∷ []),
    )
    ∷ ("observedGeneration", number (idx + 1))
    ∷ (
      "controlPlaneEndpoint",
      object (
          (
            "host",
            str (
                codes "api.seed-"
                ++ padded 6 idx
                ++ codes "."
                ++ region_of idx
                ++ codes ".hyperfleet.io"),
          )
          ∷ ("port", number 6443)
          ∷ []),
    )
    ∷ (
      "oauthCallbackURLTemplate",
      str (
          codes "https://oauth.seed-"
          ++ padded 6 idx
          ++ codes "."
          ++ region_of idx
          ++ codes ".hyperfleet.io:443/oauthcallback/[identity-provider-name]"),
    )
    ∷ [])

unfoldable pub hosted_cluster_metadata : ℕ → Json
unfolding region_of cluster_id
hosted_cluster_metadata idx = object (
    (
      "labels",
      object (
          ("api.openshift.com/id", str (cluster_id idx))
          ∷ ("hyperfleet.io/region", str (region_of idx))
          ∷ ("api.openshift.com/name", str (codes "seed-" ++ padded 6 idx))
          ∷ ("hyperfleet.io/account-id", str (codes "acct-" ++ padded 6 (idx % 5000)))
          ∷ ("hyperfleet.io/cluster-id", str (cluster_id idx))
          ∷ ("hyperfleet.io/environment", str (cycle environments idx))
          ∷ (
            "hyperfleet.io/management-cluster",
            str (codes "mc-" ++ region_of idx ++ codes "-" ++ padded 2 (idx % 5)),
          )
          ∷ ("api.openshift.com/legal-entity-id", str (codes "le-" ++ padded 6 (idx % 5000)))
          ∷ []),
    )
    ∷ (
      "annotations",
      object (
          (
            "hyperfleet.io/created-by",
            str (
                codes "arn:aws:iam::"
                ++ padded 12 (100_000_000_000 + idx)
                ++ codes ":role/ManagedOpenShift-Installer-Role"),
          )
          ∷ ("hyperfleet.io/managed-by", text "rosa-hyperfleet-api")
          ∷ ("hyperfleet.io/provisioner", text "hypershift")
          ∷ ("api.openshift.com/shard-id", str (codes "shard-" ++ padded 2 (idx % 20)))
          ∷ ("hyperfleet.io/billing-model", text "marketplace-aws")
          ∷ ("hyperfleet.io/dns-base-domain", text "hyperfleet.io")
          ∷ (
            "hyperfleet.io/oidc-issuer-url",
            str (
                codes "https://d"
                ++ hex_padded 8 idx
                ++ codes ".cloudfront.net/"
                ++ cluster_id idx),
          )
          ∷ []),
    )
    ∷ [])
