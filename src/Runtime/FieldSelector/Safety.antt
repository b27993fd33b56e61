-- ===== src/Runtime/FieldSelector/Safety.antt =====
-- No field selector can put text of its own into the SQL, but for identifiers between quotes.
use postgres_controller_back.Base.{
  ℕ, ◌≡◌, refl, Bool, true, false, ◌&&◌, List, [], ◌∷◌, ◌++◌, ◌==◌, if◌then◌else◌, Outcome, ok, err,
  ◌⊎◌, arith, Bool-cases, inl, inr, subst, ◌∙◌, Option, none, some,
}
use postgres_controller_back.Base.Text.{Text, codes, text_eq}
use postgres_controller_back.Strings.{cut, split}
use postgres_controller_back.Runtime.FieldSelector.{
  Column, metadata, spec, status, Expr, name, namespace, path, column_text, SelectorError, is_word,
  all_word, valid_path_segment, all_valid, path_of, step_before, jsonb_path, metadata_field, rooted,
  field_path, steps_text, expr_text,
}

-- Where a reader of a path stands: before an arrow, in it, behind it, behind `->>`, between the quotes
-- of a step, of the last one or not, and at the end.
pub data Place : Type 0 where
  arrow arrow_head step last_step : Place
  quoted : Bool → Place
  done : Place

-- The text is a sequence of `->'word'` and at its end one `->>'word'`, where a word has letters, digits
-- and underscores only.
unfoldable pub is_path : Place → Text → Bool
unfolding is_word
is_path arrow [] = false
is_path arrow (c ∷ s) = c == b'-' && is_path arrow_head s
is_path arrow_head [] = false
is_path arrow_head (c ∷ s) = c == b'>' && is_path step s
is_path step [] = false
is_path step (c ∷ s) =
    let last = is_path last_step s in
    let word = is_path (quoted false) s in if c == b'>' then last else c == b'\'' && word
is_path last_step [] = false
is_path last_step (c ∷ s) = c == b'\'' && is_path (quoted true) s
is_path (quoted b) [] = false
is_path (quoted b) (c ∷ s) =
    let after = is_path (if b then done else arrow) s in
    let word = is_path (quoted b) s in if c == b'\'' then after else is_word c && word
is_path done [] = true
is_path done (c ∷ s) = false

-- The text for a field: one of the two columns, or a path into one of the three documents.
unfoldable pub IsColumnPath : Text → Type 0
IsColumnPath t =
    ((t ≡ codes "name") ⊎ (t ≡ codes "namespace"))
    ⊎ ((c : Column) × (rest : Text) × (t ≡ column_text c ++ rest) × (is_path arrow rest ≡ true))

word_ne_quote : (c : ℕ) → is_word c ≡ true → (c == b'\'') ≡ false
unfolding is_word
word_ne_quote c h = ground arith

is_path-word :
    (b : Bool) (s t : Text)
    → all_word s ≡ true
    → is_path (quoted b) (s ++ b'\'' ∷ t) ≡ is_path (if b then done else arrow) t
unfolding is_path all_word
is_path-word b [] t h = refl
is_path-word b (c ∷ s) t h =
    let w : is_word c ≡ true = ground arith in
    let r : all_word s ≡ true = ground arith in rw (word_ne_quote c w) (rw w (is_path-word b s t r))

valid-all_word : (s : Text) → valid_path_segment s ≡ true → all_word s ≡ true
unfolding valid_path_segment all_word
valid-all_word [] h = cc
valid-all_word (c ∷ s) h = ground arith

abbrev AreWords : List Text → Type 0
AreWords [] = Unit
AreWords (s ∷ ss) = (all_word s ≡ true) × AreWords ss

abbrev HasWords : Expr → Type 0
HasWords name = Unit
HasWords namespace = Unit
HasWords (path c ss l) = AreWords ss × (all_word l ≡ true)

step-HasWords : (s : Text) (e : Expr) → all_word s ≡ true → HasWords e → HasWords (step_before s e)
step-HasWords s name w h = tt
step-HasWords s namespace w h = tt
step-HasWords s (path c ss l) w h = ((w, h.0), h.1)

path_of-HasWords : (c : Column) (ss : List Text) → all_valid ss ≡ true → HasWords (path_of c ss)
unfolding path_of all_valid
path_of-HasWords c [] h = (tt, unfold all_word in refl)
path_of-HasWords c (s ∷ []) h = (tt, valid-all_word s (ground arith))
path_of-HasWords c (s ∷ t ∷ ss) h =
    step-HasWords s (path_of c (t ∷ ss)) (valid-all_word s (ground arith))
      (path_of-HasWords c (t ∷ ss) (ground arith))

-- What a computation that may fail gives, has a property.
abbrev Yields : (Expr → Type 0) → Outcome SelectorError Expr → Type 0
Yields P (ok e) = P e
Yields P (err x) = Unit

jsonb_path-HasWords : (c : Column) (p : Text) → Yields HasWords (jsonb_path c p)
unfolding jsonb_path
jsonb_path-HasWords c p = elim (Bool-cases (all_valid (split b'.' p))) [
  | inl b ↦ rw b (path_of-HasWords c (split b'.' p) b)
  | inr b ↦ rw b tt
]

metadata_field-HasWords : (f : Text) → Yields HasWords (metadata_field f)
unfolding metadata_field
metadata_field-HasWords f = elim (Bool-cases (text_eq f (codes "name"))) [
  | inl b ↦ rw b tt
  | inr b ↦ elim (Bool-cases (text_eq f (codes "namespace"))) [
    | inl d ↦ rw (b, d) tt
    | inr d ↦ rw (b, d) (jsonb_path-HasWords metadata f)
  ]
]

rooted-HasWords : (o : Option (Text × Text)) → Yields HasWords (rooted o)
unfolding rooted
rooted-HasWords none = tt
rooted-HasWords (some (root, rest)) = elim (Bool-cases (text_eq root (codes "metadata"))) [
  | inl b ↦ rw b (metadata_field-HasWords rest)
  | inr b ↦ elim (Bool-cases (text_eq root (codes "spec"))) [
    | inl d ↦ rw (b, d) (jsonb_path-HasWords spec rest)
    | inr d ↦ elim (Bool-cases (text_eq root (codes "status"))) [
      | inl f ↦ rw (b, d, f) (jsonb_path-HasWords status rest)
      | inr f ↦ rw (b, d, f) tt
    ]
  ]
]

steps-is_path :
    (ss : List Text) (l : Text)
    → AreWords ss
    → all_word l ≡ true
    → is_path arrow (steps_text ss l) ≡ true
unfolding steps_text is_path
steps-is_path [] l h w = is_path-word true l [] w
steps-is_path (s ∷ ss) l h w = is_path-word false s (steps_text ss l) h.0 ∙ steps-is_path ss l h.1 w

expr-IsColumnPath : (e : Expr) → HasWords e → IsColumnPath (expr_text e)
unfolding expr_text IsColumnPath
expr-IsColumnPath name h = inl (inl refl)
expr-IsColumnPath namespace h = inl (inr refl)
expr-IsColumnPath (path c ss l) h = inr (c, steps_text ss l, refl, steps-is_path ss l h.0 h.1)

-- Whatever the field of a requirement is: if it is accepted, the text that goes into the SQL for it is
-- the column `name` or `namespace`, or one of the three document columns followed by steps `->'word'` and
-- one `->>'word'`, so that text of the field stands between quotes only and has letters, digits and
-- underscores only.
pub field_text_safe : (f : Text) {e : Expr} → field_path f ≡ ok e → IsColumnPath (expr_text e)
unfolding field_path
field_text_safe f {e} h =
    expr-IsColumnPath e (yielded (rooted (cut b'.' f)) (rooted-HasWords (cut b'.' f)) h)
  where
    yielded : (o : Outcome SelectorError Expr) → Yields HasWords o → o ≡ ok e → HasWords e
    yielded (ok x) w p = let q : x ≡ e = cc in subst HasWords q w
    yielded (err x) w p = cc
