-- ===== src/Runtime/FieldSelector.antt =====
-- pkg/pgruntime/fieldselector.go: field selectors as clauses of SQL. A clause is kept with its parts, of
-- which `expr_text` and `clause_text` are the text that the code builds, and `holds` what the server
-- makes of it. `print` is the server's text of a document, for `->>` on an array or an object.
pub mod Safety
use postgres_controller_back.Base.{
  ℕ, ◌+◌, ◌≡◌, refl, Bool, true, false, not, ◌&&◌, ◌||◌, Option, none, some, List, [], ◌∷◌, ◌++◌,
  leb, ◌==◌, if◌then◌else◌, Outcome, ok, err, ◌>>=◌,
}
use postgres_controller_back.Base.Int.{pos}
use postgres_controller_back.Base.Text.{Text, codes, text_eq}
use postgres_controller_back.Json.{Json, null, bool, num, str, arr, obj, field}
use postgres_controller_back.Model.{Resource}
use postgres_controller_back.Strconv.{format_int}
use postgres_controller_back.Strings.{cut, split}

-- The operators of the API machinery's selectors that have SQL here, and the rest of them.
pub data Operator : Type 0 where
  equals double_equals not_equals other : Operator

pub record Requirement : Type 0 where
  pub field : Text
  pub operator : Operator
  pub value : Text

pub data SelectorError : Type 0 where
  unsupported_operator no_dot unsupported_root : SelectorError
  invalid_segment : SelectorError

pub data Column : Type 0 where
  metadata spec status : Column

-- A column of the table, or a path into one of its documents, whose last step is apart.
pub data Expr : Type 0 where
  name namespace : Expr
  path : Column → List Text → Text → Expr

pub record Clause : Type 0 where
  pub expr : Expr
  pub negated : Bool
  pub param : ℕ
  pub value : Text

unfoldable pub is_letter : ℕ → Bool
is_letter c = leb b'a' c && leb c b'z' || leb b'A' c && leb c b'Z' || c == b'_'

unfoldable pub is_word : ℕ → Bool
unfolding is_letter
is_word c = is_letter c || leb b'0' c && leb c b'9'

unfoldable pub all_word : Text → Bool
unfolding is_word
all_word [] = true
all_word (c ∷ s) = is_word c && all_word s

-- ^[a-zA-Z_][a-zA-Z0-9_]*$
unfoldable pub valid_path_segment : Text → Bool
unfolding all_word
valid_path_segment [] = false
valid_path_segment (c ∷ s) = is_letter c && all_word s

unfoldable pub selection_op_to_sql : Operator → Outcome SelectorError Bool
selection_op_to_sql equals = ok false
selection_op_to_sql double_equals = ok false
selection_op_to_sql not_equals = ok true
selection_op_to_sql other = err unsupported_operator

unfoldable pub all_valid : List Text → Bool
all_valid [] = true
all_valid (s ∷ ss) = valid_path_segment s && all_valid ss

abbrev pub step_before : Text → Expr → Expr
step_before s name = name
step_before s namespace = namespace
step_before s (path c ss l) = path c (s ∷ ss) l

-- The segments of a path, of which there is at least one.
unfoldable pub path_of : Column → List Text → Expr
path_of c [] = path c [] []
path_of c (s ∷ []) = path c [] s
path_of c (s ∷ t ∷ ss) = step_before s (path_of c (t ∷ ss))

unfoldable pub jsonb_path : Column → Text → Outcome SelectorError Expr
unfolding all_valid path_of
jsonb_path c p =
    if all_valid (split b'.' p) then ok (path_of c (split b'.' p)) else err invalid_segment

unfoldable pub metadata_field : Text → Outcome SelectorError Expr
unfolding jsonb_path
metadata_field f =
    if text_eq f (codes "name")
    then ok name
    else if text_eq f (codes "namespace")
    then ok namespace
    else jsonb_path metadata f

unfoldable pub rooted : Option (Text × Text) → Outcome SelectorError Expr
unfolding metadata_field
rooted none = err no_dot
rooted (some (root, rest)) =
    if text_eq root (codes "metadata")
    then metadata_field rest
    else if text_eq root (codes "spec")
    then jsonb_path spec rest
    else if text_eq root (codes "status")
    then jsonb_path status rest
    else err unsupported_root

-- SplitN(field, ".", 2), and the root's case.
unfoldable pub field_path : Text → Outcome SelectorError Expr
unfolding rooted
field_path f = rooted (cut b'.' f)

unfoldable pub field_requirement : Requirement → ℕ → Outcome SelectorError Clause
unfolding selection_op_to_sql field_path
field_requirement r idx = do
  n ← selection_op_to_sql r.operator
  e ← field_path r.field
  ok (record { expr = e; negated = n; param = idx; value = r.value })

-- The clauses, with their parameters numbered from `start` on; the values are the arguments.
unfoldable pub build_field_selector_filter :
    List Requirement → ℕ → Outcome SelectorError (List Clause)
unfolding field_requirement
build_field_selector_filter [] start = ok []
build_field_selector_filter (r ∷ rs) start = do
  c ← field_requirement r start
  cs ← build_field_selector_filter rs (start + 1)
  ok (c ∷ cs)

abbrev pub column_text : Column → Text
column_text metadata = codes "metadata"
column_text spec = codes "spec"
column_text status = codes "status"

unfoldable pub steps_text : List Text → Text → Text
steps_text [] l = codes "->>'" ++ (l ++ codes "'")
steps_text (s ∷ ss) l = codes "->'" ++ (s ++ (b'\'' ∷ steps_text ss l))

unfoldable pub expr_text : Expr → Text
unfolding steps_text
expr_text name = codes "name"
expr_text namespace = codes "namespace"
expr_text (path c ss l) = column_text c ++ steps_text ss l

unfoldable pub clause_text : Clause → Text
unfolding expr_text
clause_text c =
    expr_text c.expr
    ++ ((if c.negated then codes " != $" else codes " = $") ++ format_int (pos c.param))

module _ (print : Json → Text) where
  -- `->>`
  unfoldable pub as_text : Option Json → Option Text
  as_text none = none
  as_text (some null) = none
  as_text (some (bool b)) = some (if b then codes "true" else codes "false")
  as_text (some (num t)) = some t
  as_text (some (str t)) = some t
  as_text (some (arr xs)) = some (print (arr xs))
  as_text (some (obj ms)) = some (print (obj ms))

  abbrev step_into : Text → Option Json → Option Json
  step_into s none = none
  step_into s (some j) = field s j

  unfoldable pub walk : List Text → Option Json → Option Json
  walk [] o = o
  walk (s ∷ ss) o = walk ss (step_into s o)

  abbrev column_of : Column → Resource → Json
  column_of metadata r = r.metadata
  column_of spec r = r.spec
  column_of status r = r.status

  unfoldable pub value_of : Expr → Resource → Option Text
  unfolding as_text walk
  value_of name r = some r.name
  value_of namespace r = some r.namespace
  value_of (path c ss l) r = as_text (step_into l (walk ss (some (column_of c r))))

  -- A comparison with NULL is not true.
  abbrev compares : Bool → Option Text → Text → Bool
  compares negated none v = false
  compares negated (some t) v = if negated then not (text_eq t v) else text_eq t v

  unfoldable pub holds : Clause → Resource → Bool
  unfolding value_of
  holds c r = compares c.negated (value_of c.expr r) c.value

  unfoldable pub all_hold : List Clause → Resource → Bool
  unfolding holds
  all_hold [] r = true
  all_hold (c ∷ cs) r = holds c r && all_hold cs r
