-- ===== src/Compaction.antt =====
-- pkg/compaction/compactor.go: one statement deletes old tombstones and raises the horizons.
use postgres_controller_back.Base.{
  ℕ, ◌+◌, ◌*◌, ◌≤◌, Bool, false, ◌&&◌, not, Option, none, some, List, [], ◌∷◌, ltb, ◌==◌,
  if◌then◌else◌, keep, max, length, In, here, there, arith, inl, inr, Bool-cases, ap, subst,
}
use postgres_controller_back.Base.Text.{Text, text_eq, text_eq_iff}
use postgres_controller_back.Model.{Resource}
use postgres_controller_back.Table.{Table}
use postgres_controller_back.Writer.Proc.{is_tombstone}

-- The table `compaction_horizon`, by GVK.
abbrev pub Horizon : Type 0
Horizon = Text → Option ℕ

-- The retention in seconds; 0 stands for the default of a day.
unfoldable pub effective_retention : ℕ → ℕ
effective_retention retention = if retention == 0 then 24 * 3600 else retention

-- `GREATEST(deletion_timestamp, updated_at) < now() - retention`
abbrev pub is_older : Option ℕ → ℕ → ℕ → ℕ → Bool
is_older none updated now retention = false
is_older (some d) updated now retention = ltb (max d updated + retention) now

unfoldable pub is_compactable : ℕ → ℕ → Resource → Bool
is_compactable now retention r =
    is_tombstone r && is_older r.deletion_timestamp r.updated_at now retention

-- `GREATEST(compacted_xid, EXCLUDED.compacted_xid)`, or the first entry
abbrev pub greatest : Option ℕ → ℕ → Option ℕ
greatest none x = some x
greatest (some h) x = some (max h x)

-- The highest stamp of each GVK goes into its horizon, which is raised row by row.
unfoldable pub raise : Horizon → List Resource → Horizon
raise h [] g = h g
raise h (r ∷ rs) g = if text_eq r.gvk g then greatest (raise h rs g) r.txid_stamp else raise h rs g

-- Result.Deleted, the rows that stay, and the horizons.
pub record Compacted : Type 0 where
  pub removed : List Resource
  pub table : Table
  pub horizon : Horizon

unfoldable pub compact : ℕ → ℕ → Table → Horizon → Compacted
compact now retention t h =
    let old = is_compactable now (effective_retention retention) in
    record {
      removed = keep old t;
      table = keep (λ r. not (old r)) t;
      horizon = raise h (keep old t);
    }

unfoldable pub deleted : Compacted → ℕ
deleted c = length c.removed

-- `x` is at most the horizon.
abbrev pub Reaches : Option ℕ → ℕ → Type 0
Reaches none x = ⊥
Reaches (some h) x = x ≤ h

Reaches-greatest : (o : Option ℕ) (x y : ℕ) → Reaches o x → Reaches (greatest o y) x
Reaches-greatest none x y h = absurd h
Reaches-greatest (some z) x y h = omega arith

greatest-Reaches : (o : Option ℕ) (x : ℕ) → Reaches (greatest o x) x
greatest-Reaches none x = omega arith
greatest-Reaches (some z) x = omega arith

-- A horizon never falls.
pub raise_keeps :
    (h : Horizon) (rs : List Resource) (g : Text) (x : ℕ)
    → Reaches (h g) x
    → Reaches (raise h rs g) x
unfolding raise
raise_keeps h [] g x p = p
raise_keeps h (r ∷ rs) g x p = elim (Bool-cases (text_eq r.gvk g)) [
  | inl b ↦ rw b (Reaches-greatest (raise h rs g) x r.txid_stamp (raise_keeps h rs g x p))
  | inr b ↦ rw b (raise_keeps h rs g x p)
]

-- Every removed row lies at or below its GVK's horizon.
pub raise_covers :
    (h : Horizon) (rs : List Resource) (r : Resource)
    → In r rs
    → Reaches (raise h rs r.gvk) r.txid_stamp
unfolding raise
raise_covers h [] r i = elim i [ ]
raise_covers h (x ∷ rs) r (here e) =
    rw ((text_eq_iff x.gvk r.gvk).1 (ap (λ (y : Resource). y.gvk) e)) (
      subst (λ (n : ℕ). Reaches (greatest (raise h rs r.gvk) x.txid_stamp) n)
        (ap (λ (y : Resource). y.txid_stamp) e) (greatest-Reaches (raise h rs r.gvk) x.txid_stamp))
raise_covers h (x ∷ rs) r (there i) = elim (Bool-cases (text_eq x.gvk r.gvk)) [
  | inl b ↦
      rw b (Reaches-greatest (raise h rs r.gvk) r.txid_stamp x.txid_stamp (raise_covers h rs r i))
  | inr b ↦ rw b (raise_covers h rs r i)
]
