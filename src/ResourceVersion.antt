-- ===== src/ResourceVersion.antt =====
-- internal/resourceversion/rv.go. The positions of errors in their texts are not modelled.
pub mod RoundTrip
use postgres_controller_back.Base.{
  ℕ, zero, suc, ◌≡◌, refl, Bool, true, false, Option, none, some, List, [], ◌∷◌, ◌++◌, ◌==◌,
  if◌then◌else◌, Outcome, ok, err, ◌>>=◌, map_err,
}
use postgres_controller_back.Base.Int.{ℤ, pos, negsuc}
use postgres_controller_back.Base.Text.{Text, codes}
use postgres_controller_back.Strconv.{NumError, format_int, format_uint, parse_int, parse_uint}

pub record Rv : Type 0 where
  pub object_version : ℤ
  pub watermark : ℕ

abbrev pub zero_rv : Rv
zero_rv = record { object_version = pos 0; watermark = 0 }

pub data RvError : Type 0 where
  no_watermark empty_watermark old_bucket_format : RvError
  bad_object_version bad_watermark : NumError → RvError

abbrev pub is_positive : ℤ → Bool
is_positive (pos zero) = false
is_positive (pos (suc n)) = true
is_positive (negsuc n) = false

unfoldable pub to_text : Rv → Text
to_text rv =
    if is_positive rv.object_version
    then b'o' ∷ (format_int rv.object_version ++ b';' ∷ format_uint rv.watermark)
    else format_uint rv.watermark

-- The bytes before and after the first semicolon.
unfoldable pub cut_at_semicolon : Text → Option (Text × Text)
cut_at_semicolon [] = none
cut_at_semicolon (c ∷ s) = elim (c == b';') [
  | true ↦ some ([], s)
  | false ↦ elim (cut_at_semicolon s) [ none ↦ none | some (a, b) ↦ some (c ∷ a, b) ]
]

-- The watermark, which is all that is left.
unfoldable pub parse_watermark : ℤ → Text → Outcome RvError Rv
parse_watermark v s = do
  w ← map_err bad_watermark (parse_uint s)
  ok (record { object_version = v; watermark = w })

unfoldable pub parse_tail : ℤ → Text → Outcome RvError Rv
unfolding parse_watermark
parse_tail v [] = parse_watermark v []
parse_tail v (c ∷ s) = if c == b'b' then err old_bucket_format else parse_watermark v (c ∷ s)

-- After the prefix of an object version, the watermark may not be empty.
unfoldable pub parse_rest : ℤ → Text → Outcome RvError Rv
unfolding parse_tail
parse_rest v [] = err empty_watermark
parse_rest v (c ∷ s) = parse_tail v (c ∷ s)

unfoldable pub parse_object : Text → Outcome RvError Rv
parse_object s = elim (cut_at_semicolon s) [
  | none ↦ err no_watermark
  | some (a, b) ↦ do v ← map_err bad_object_version (parse_int a); parse_rest v b
]

unfoldable pub parse : Text → Outcome RvError Rv
parse [] = ok zero_rv
parse (c ∷ s) = if c == b'o' then parse_object s else parse_tail (pos 0) (c ∷ s)

parsed : parse (codes "o5;12345678") ≡ ok (record { object_version = pos 5; watermark = 12345678 })
unfolding parse parse_object parse_rest cut_at_semicolon parse_int parse_uint
parsed = refl

old_format : parse (codes "b3") ≡ err old_bucket_format
unfolding parse parse_tail
old_format = refl

-- A negative object version is accepted, and is not printed again.
negative : parse (codes "o-5;3") ≡ ok (record { object_version = negsuc 4; watermark = 3 })
unfolding parse parse_object parse_rest cut_at_semicolon parse_int parse_uint
negative = refl
