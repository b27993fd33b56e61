-- ===== src/Json.antt =====
-- JSON documents, as the values of a jsonb column. A numeral is kept as the shortest text of
-- its value, so that 1.0 and 1 are one numeral, as they are for jsonb's equality; the scale that jsonb
-- prints is left out. The members of an object are in jsonb's own order. So two equal documents are one
-- value. `json.RawMessage` is
-- `Option Json`: `none` is the empty message, which the driver sends as NULL.
use postgres_controller_back.Base.{
  ◌≡◌, ◌↔◌, Bool, true, false, Option, none, some, same, same_iff, ℕ_discrete, if◌then◌else◌, refl,
}
use postgres_controller_back.Base.Text.{Text, text_eq, codes}

mutual
  pub data Json : Type 0 where
    null : Json
    bool : Bool → Json
    num : Text → Json
    str : Text → Json
    arr : Items → Json
    obj : Members → Json

  pub data Items : Type 0 where
    nil : Items
    cons : Json → Items → Items

  pub data Members : Type 0 where
    end : Members
    member : Text → Json → Members → Members

unfoldable pub Json-discrete : Discrete Json
unfolding ℕ_discrete
Json-discrete = hlevel ℕ_discrete

unfoldable pub json_eq : Json → Json → Bool
unfolding Json-discrete
json_eq a b = same Json-discrete a b

pub json_eq_iff : (a b : Json) → (json_eq a b ≡ true) ↔ (a ≡ b)
unfolding json_eq
json_eq_iff a b = same_iff Json-discrete a b

unfoldable pub RawMessage-discrete : Discrete (Option Json)
RawMessage-discrete = hlevel Json-discrete

-- The operator `->` with a member's name: NULL where there is no such member.
unfoldable pub find_member : Text → Members → Option Json
find_member k end = none
find_member k (member j v ms) = if text_eq j k then some v else find_member k ms

unfoldable pub field : Text → Json → Option Json
unfolding find_member
field k (obj ms) = find_member k ms
field k null = none
field k (bool b) = none
field k (num t) = none
field k (str t) = none
field k (arr xs) = none

-- '[]'::jsonb and '{}'::jsonb
abbrev pub empty_array : Json
empty_array = arr nil

abbrev pub empty_object : Json
empty_object = obj end

-- SQL `a = b` and `a IS NOT DISTINCT FROM b` where b may be NULL, as far as a WHERE clause sees it.
unfoldable pub sql_eq : Json → Option Json → Bool
unfolding json_eq
sql_eq a none = false
sql_eq a (some b) = json_eq a b

abbrev sample : Json
sample = obj (member (codes "finalizers") (arr (cons (str (codes "x")) nil)) end)

field-sample : field (codes "finalizers") sample ≡ some (arr (cons (str (codes "x")) nil))
unfolding field text_eq
field-sample = refl

json_eq-sample : json_eq sample empty_object ≡ false
unfolding json_eq Json-discrete
json_eq-sample = refl

-- `json.Unmarshal` into `any`, then `json.Marshal`. Each numeral goes through a float64 and back:
-- `round` is that trip on its text.
module _ (round : Text → Text) where
  unfoldable mutual
    pub reencode : Json → Json
    reencode null = null
    reencode (bool b) = bool b
    reencode (num t) = num (round t)
    reencode (str t) = str t
    reencode (arr xs) = arr (reencode_items xs)
    reencode (obj ms) = obj (reencode_members ms)

    pub reencode_items : Items → Items
    reencode_items nil = nil
    reencode_items (cons x xs) = cons (reencode x) (reencode_items xs)

    pub reencode_members : Members → Members
    reencode_members end = end
    reencode_members (member k v ms) = member k (reencode v) (reencode_members ms)

  -- `JSONEqual` of internal/writer/writer.go, on valid messages.
  unfoldable pub json_equal : Option Json → Option Json → Bool
  json_equal none none = true
  json_equal none (some b) = false
  json_equal (some a) none = false
  json_equal (some a) (some b) = json_eq (reencode a) (reencode b)

pub json_eq_refl : (a : Json) → json_eq a a ≡ true
json_eq_refl a = (json_eq_iff a a).1 refl
