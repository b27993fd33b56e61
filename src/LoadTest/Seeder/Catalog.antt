-- ===== src/LoadTest/Seeder/Catalog.antt =====
-- The lists and names that the documents of loadtest/cmd/loadtest/seeder.go draw on.
use postgres_controller_back.Base.{ℕ, ◌+◌, ◌%◌, List, [], ◌∷◌, ◌++◌}
use postgres_controller_back.Base.Text.{Text, codes}
use postgres_controller_back.LoadTest.Seeder.Documents.{padded, cycle}

abbrev pub aws_regions : List Text
aws_regions =
    codes "us-east-1"
    ∷ codes "us-east-2"
    ∷ codes "us-west-1"
    ∷ codes "us-west-2"
    ∷ codes "eu-west-1"
    ∷ codes "eu-west-2"
    ∷ codes "eu-central-1"
    ∷ codes "ap-southeast-1"
    ∷ codes "ap-northeast-1"
    ∷ []

abbrev pub instance_types : List Text
instance_types =
    codes "m6a.xlarge"
    ∷ codes "m6a.2xlarge"
    ∷ codes "m6a.4xlarge"
    ∷ codes "m5.xlarge"
    ∷ codes "m5.2xlarge"
    ∷ codes "c6a.xlarge"
    ∷ codes "c6a.2xlarge"
    ∷ codes "r6a.xlarge"
    ∷ codes "r6a.2xlarge"
    ∷ []

abbrev pub ocp_versions : List Text
ocp_versions =
    codes "4.16.20" ∷ codes "4.16.18" ∷ codes "4.16.15" ∷ codes "4.15.30" ∷ codes "4.15.28" ∷ []

abbrev pub environments : List Text
environments = codes "production" ∷ codes "staging" ∷ codes "development" ∷ []

unfoldable pub region_of : ℕ → Text
unfolding cycle
region_of idx = cycle aws_regions idx

unfoldable pub version_of : ℕ → Text
unfolding cycle
version_of idx = cycle ocp_versions idx

unfoldable pub instance_type_of : ℕ → Text
unfolding cycle
instance_type_of idx = cycle instance_types idx

unfoldable pub cluster_id : ℕ → Text
unfolding padded
cluster_id idx = codes "cluster-" ++ padded 6 idx

-- 2 to 6
unfoldable pub replicas_of : ℕ → ℕ
replicas_of idx = 2 + idx % 5
