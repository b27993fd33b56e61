-- ===== src/Reader/Shard.antt =====
-- internal/reader/shard.go. `hashtext` is PostgreSQL's hash of a text, an int4.
use native.Mathlib.Nat.{mod-lt}
use postgres_controller_back.Base.{
  ℕ, zero, suc, ◌+◌, ◌%◌, ◌<◌, ◌≡◌, refl, Bool, true, false, ◌||◌, Option, none, some, List, [],
  ◌∷◌, leb, if◌then◌else◌, arith, All, ◌∙◌,
}
use postgres_controller_back.Base.Int.{ℤ, pos, negsuc, abs, int_eq}
use postgres_controller_back.Base.Text.{Text}

pub record ShardSpec : Type 0 where
  pub modulus : ℤ
  pub owned : List ℤ

pub data ShardError : Type 0 where
  mod_not_positive owned_empty : ShardError
  out_of_range duplicate : ℤ → ShardError

unfoldable pub contains : ℤ → List ℤ → Bool
contains a [] = false
contains a (x ∷ xs) = int_eq x a || contains a xs

-- `o < 0 || o >= s.Mod`, for a positive modulus
abbrev pub outside : ℤ → ℕ → Bool
outside (pos n) m = leb m n
outside (negsuc n) m = true

-- The loop of `Validate`; `seen` holds the residues met so far.
unfoldable pub check_owned : ℕ → List ℤ → List ℤ → Option ShardError
unfolding contains
check_owned m seen [] = none
check_owned m seen (o ∷ os) =
    let rest = check_owned m (o ∷ seen) os in
    if outside o m
    then some (out_of_range o)
    else if contains o seen
    then some (duplicate o)
    else rest

unfoldable pub check_modulus : ℤ → List ℤ → Option ShardError
unfolding check_owned
check_modulus (negsuc n) owned = some mod_not_positive
check_modulus (pos zero) owned = some mod_not_positive
check_modulus (pos (suc m)) [] = some owned_empty
check_modulus (pos (suc m)) (o ∷ os) = check_owned (suc m) [] (o ∷ os)

unfoldable pub validate : ShardSpec → Option ShardError
unfolding check_modulus
validate s = check_modulus s.modulus s.owned

module _ (hashtext : Text → ℤ) where
  -- `abs(hashtext(namespace)::bigint) % Mod = ANY(Owned)`, for a modulus that is not 0
  unfoldable pub owns : ShardSpec → Text → Bool
  owns s ns = contains (pos (abs (hashtext ns) % abs s.modulus)) s.owned

  -- A nil shard restricts nothing.
  unfoldable pub in_shard : Option ShardSpec → Text → Bool
  in_shard none ns = true
  in_shard (some s) ns = owns s ns

  -- How many of the replicas own a namespace.
  unfoldable pub owners : List ShardSpec → Text → ℕ
  owners [] ns = 0
  owners (s ∷ ss) ns = (if owns s ns then 1 else 0) + owners ss ns

-- How many of the replicas are configured with a residue.
unfoldable pub holders : ℤ → List ShardSpec → ℕ
holders r [] = 0
holders r (s ∷ ss) = (if contains r s.owned then 1 else 0) + holders r ss

valid_modulus : (s : ShardSpec) → validate s ≡ none → 0 < abs s.modulus
unfolding validate
valid_modulus s h = go s.modulus s.owned h
  where
    go : (m : ℤ) (os : List ℤ) → check_modulus m os ≡ none → 0 < abs m
    go (negsuc n) os e = cc
    go (pos zero) os e = cc
    go (pos (suc n)) os e = omega arith

module _ (hashtext : Text → ℤ) where
  owners-holders :
      (ss : List ShardSpec) (m : ℤ) (ns : Text)
      → All (λ s. s.modulus ≡ m) ss
      → owners hashtext ss ns ≡ holders (pos (abs (hashtext ns) % abs m)) ss
  unfolding owners holders owns
  owners-holders [] m ns h = refl
  owners-holders (s ∷ ss) m ns (e, h) = rw (e, owners-holders ss m ns h)

  -- Valid replicas of one modulus that between them hold every residue once share the namespaces out:
  -- each namespace, whatever its hash, belongs to exactly one of them.
  pub shards_partition :
      (s : ShardSpec) (ss : List ShardSpec) (ns : Text)
      → validate s ≡ none
      → All (λ x. x.modulus ≡ s.modulus) ss
      → ((r : ℕ) → r < abs s.modulus → holders (pos r) (s ∷ ss) ≡ 1)
      → owners hashtext (s ∷ ss) ns ≡ 1
  shards_partition s ss ns v h once =
      owners-holders (s ∷ ss) s.modulus ns (refl, h)
      ∙ once (abs (hashtext ns) % abs s.modulus) (mod-lt _ (valid_modulus s v))
