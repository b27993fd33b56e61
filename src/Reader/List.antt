-- ===== src/Reader/List.antt =====
-- internal/reader/list.go: the snapshot list, its tombstone filter and its resource version.
use postgres_controller_back.Base.{
  ℕ, zero, suc, ◌≡◌, Bool, false, ◌&&◌, ◌||◌, not, Option, none, some, List, keep, is_none, take,
  drop, arith, refl, ap, sym, ◌∙◌, true,
}
use postgres_controller_back.Base.Int.{ℤ, pos}
use postgres_controller_back.Base.Text.{Text, codes, text_eq}
use postgres_controller_back.Json.{Json, field, json_eq, empty_array}
use postgres_controller_back.Model.{Key, Resource}
use postgres_controller_back.Table.{Table, find, IsKeyed}
use postgres_controller_back.Table.Keyed.{passing, find-keep, IsKeyed-keep}
use postgres_controller_back.Reader.Shard.{ShardSpec, owns, in_shard}
use postgres_controller_back.Reader.Rows.Keyed.{find-order, IsKeyed-order}
use postgres_controller_back.ResourceVersion.{Rv}
use postgres_controller_back.Reader.Rows.{order_by_stamp}
use postgres_controller_back.Writer.Proc.{is_tombstone}

-- `ListFilter`: the WHERE clauses as a test on rows. A limit or offset of 0 is none; the source's
-- integers below 0 count as 0.
pub record ListFilter : Type 0 where
  pub where_clauses : Resource → Bool
  pub limit : ℕ
  pub offset : ℕ

pub record ListResult : Type 0 where
  pub resources : List Resource
  pub resource_version : Rv

-- `metadata->'finalizers' != '[]'::jsonb`, which is not true of NULL
unfoldable pub not_empty_array : Option Json → Bool
not_empty_array none = false
not_empty_array (some f) = not (json_eq f empty_array)

-- `deletion_timestamp IS NULL OR metadata->'finalizers' != '[]'::jsonb`
unfoldable pub is_listed : Resource → Bool
unfolding not_empty_array
is_listed r =
    is_none r.deletion_timestamp || not_empty_array (field (codes "finalizers") r.metadata)

abbrev pub page : ℕ → ℕ → List Resource → List Resource
page zero offset rs = rs
page (suc n) offset rs = take (suc n) (drop offset rs)

unfoldable pub filtered : Option ListFilter → Table → List Resource
filtered none t = order_by_stamp t
filtered (some f) t = page f.limit f.offset (order_by_stamp (keep f.where_clauses t))

-- `if xmin > 0 { watermark = xmin - 1 }`
unfoldable pub watermark : ℕ → ℕ
watermark zero = 0
watermark (suc x) = x

unfoldable pub list : ℕ → Text → Option ListFilter → Table → ListResult
unfolding filtered watermark
list xmin gvk filter t = record {
  resources = filtered filter (keep (λ r. text_eq r.gvk gvk && is_listed r) t);
  resource_version = record { object_version = pos 0; watermark = watermark xmin };
}

-- The list and the write path draw the same line: a row is listed exactly when it is no tombstone that
-- a create may revive.
pub is_listed-is_tombstone : (r : Resource) → is_listed r ≡ not (is_tombstone r)
unfolding is_listed is_tombstone
is_listed-is_tombstone r = ground arith

passing_all : (o : Option Resource) → passing (λ r. true) o ≡ o
passing_all none = refl
passing_all (some r) = refl

module _ (hashtext : Text → ℤ) where
  -- `ToListFilter` of internal/reader/shard.go
  unfoldable pub to_list_filter : ShardSpec → ListFilter
  to_list_filter s = record {
    where_clauses = λ r. owns hashtext s r.namespace;
    limit = 0;
    offset = 0;
  }

  -- The filter of an informer's list, which has a shard or none.
  unfoldable pub informer_filter : Option ShardSpec → Option ListFilter
  unfolding to_list_filter
  informer_filter none = none
  informer_filter (some s) = some (to_list_filter s)

  -- What a key finds in the informer's list.
  pub find-list :
      (k : Key) (xmin : ℕ) (gvk : Text) (shard : Option ShardSpec) (t : Table)
      → IsKeyed t
      → find k (list xmin gvk (informer_filter shard) t).resources
        ≡ passing
            (λ r. in_shard hashtext shard r.namespace)
            (passing (λ r. text_eq r.gvk gvk && is_listed r) (find k t))
  unfolding list filtered informer_filter in_shard
  find-list k xmin gvk none t h =
      find-order k (keep (λ r. text_eq r.gvk gvk && is_listed r) t)
        (IsKeyed-keep (λ r. text_eq r.gvk gvk && is_listed r) t h)
      ∙ find-keep (λ r. text_eq r.gvk gvk && is_listed r) k t h
      ∙ sym (passing_all (passing (λ r. text_eq r.gvk gvk && is_listed r) (find k t)))
  find-list k xmin gvk (some s) t h =
      let t' : Table = keep (λ r. text_eq r.gvk gvk && is_listed r) t in
      let h' : IsKeyed t' = IsKeyed-keep (λ r. text_eq r.gvk gvk && is_listed r) t h in
      find-order k (keep (λ r. owns hashtext s r.namespace) t')
        (IsKeyed-keep (λ r. owns hashtext s r.namespace) t' h')
      ∙ find-keep (λ r. owns hashtext s r.namespace) k t' h'
      ∙ ap (passing (λ r. owns hashtext s r.namespace))
          (find-keep (λ r. text_eq r.gvk gvk && is_listed r) k t h)

  pub IsKeyed-list :
      (xmin : ℕ) (gvk : Text) (shard : Option ShardSpec) (t : Table)
      → IsKeyed t
      → IsKeyed (list xmin gvk (informer_filter shard) t).resources
  unfolding list filtered informer_filter
  IsKeyed-list xmin gvk none t h = IsKeyed-order (keep _ t) (IsKeyed-keep _ t h)
  IsKeyed-list xmin gvk (some s) t h =
      IsKeyed-order (keep _ (keep _ t)) (IsKeyed-keep _ (keep _ t) (IsKeyed-keep _ t h))
