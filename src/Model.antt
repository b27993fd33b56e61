-- ===== src/Model.antt =====
-- internal/model/types.go: the rows of `kubernetes_resources` and the write requests. A uuid and an
-- instant are numbers; a nil pointer and SQL's NULL are `none`.
use postgres_controller_back.Base.{
  ℕ, ◌≡◌, ◌↔◌, Bool, true, Option, ◌&&◌, ◌||◌, ◌==◌, is_none, ◌++◌, same, same_iff, ℕ_discrete,
  if◌then◌else◌, length, leb,
}
use postgres_controller_back.Base.Int.{ℤ}
use postgres_controller_back.Base.Text.{Text, codes}
use postgres_controller_back.Json.{Json}

-- The primary key of a row.
pub record Key : Type 0 where
  pub gvk : Text
  pub namespace : Text
  pub name : Text

pub record Resource : Type 0 where
  pub key : Key
  pub open key use *
  pub uid : ℕ
  pub txid_stamp : ℕ
  pub object_version : ℕ
  pub spec : Json
  pub status : Json
  pub metadata : Json
  pub deletion_timestamp : Option ℕ
  pub created_at : ℕ
  pub updated_at : ℕ

unfoldable pub Key-discrete : Discrete Key
unfolding ℕ_discrete
Key-discrete = hlevel ℕ_discrete

unfoldable pub key_eq : Key → Key → Bool
unfolding Key-discrete
key_eq a b = same Key-discrete a b

pub key_eq_iff : (a b : Key) → (key_eq a b ≡ true) ↔ (a ≡ b)
unfolding key_eq
key_eq_iff a b = same_iff Key-discrete a b

unfoldable pub Time-discrete : Discrete (Option ℕ)
unfolding ℕ_discrete
Time-discrete = hlevel ℕ_discrete

-- `IS NOT DISTINCT FROM` on timestamps, which are whole microseconds in the database.
unfoldable pub time_eq : Option ℕ → Option ℕ → Bool
unfolding Time-discrete
time_eq a b = same Time-discrete a b

pub time_eq_iff : (a b : Option ℕ) → (time_eq a b ≡ true) ↔ (a ≡ b)
unfolding time_eq
time_eq_iff a b = same_iff Time-discrete a b

-- `timeEqual`, of a row's timestamp and a request's, which has nanoseconds beyond its microsecond.
unfoldable pub time_equal : Option ℕ → Option ℕ → ℕ → Bool
unfolding time_eq
time_equal a b nanos = time_eq a b && (is_none b || nanos == 0)

-- `expected_version` is 0 for create. A Go int64 may be negative too. `deletion_timestamp` is in
-- microseconds, which the driver keeps; `deletion_nanos` is the rest, which it drops.
pub record WriteRequest : Type 0 where
  pub key : Key
  pub spec : Option Json
  pub status : Option Json
  pub metadata : Option Json
  pub deletion_timestamp : Option ℕ
  pub deletion_nanos : ℕ
  pub expected_version : ℤ
  pub force_write : Bool

pub record StatusWriteRequest : Type 0 where
  pub key : Key
  pub status : Option Json
  pub expected_version : ℤ
  pub force_write : Bool

pub record ObjectWriteRequest : Type 0 where
  pub key : Key
  pub spec : Option Json
  pub metadata : Option Json
  pub deletion_timestamp : Option ℕ
  pub deletion_nanos : ℕ
  pub expected_version : ℤ
  pub force_write : Bool

-- `changed` is false for a suppressed write.
pub record WriteResult : Type 0 where
  pub txid : ℕ
  pub object_version : ℕ
  pub uid : ℕ
  pub changed : Bool

-- The LISTEN/NOTIFY channel of a GVK; `digest` is the hex text of the first 12 bytes of its SHA-256.
unfoldable pub doorbell_channel : (Text → Text) → Text → Text
doorbell_channel digest gvk =
    let raw = codes "resource_changes_" ++ gvk in
    if leb (length raw) 63 then raw else codes "rc_" ++ digest gvk
