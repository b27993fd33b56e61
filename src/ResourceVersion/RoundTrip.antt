-- ===== src/ResourceVersion/RoundTrip.antt =====
-- Resource versions are read back from their texts.
use postgres_controller_back.Base.{
  ℕ, zero, suc, ◌^◌, ◌<◌, ◌≤◌, ◌≡◌, ◌≢◌, refl, Option, some, none, [], ◌∷◌, ◌++◌, arith, Outcome,
  ok, err, map_err, ◌>>=◌, ◌==◌, Bool-cases, inl, inr, All, ◌∙◌,
}
use postgres_controller_back.Base.Int.{ℤ, pos}
use postgres_controller_back.Base.Text.{Text}
use postgres_controller_back.Strconv.{max_uint64, format_int, format_uint, parse_int}
use postgres_controller_back.Strconv.RoundTrip.{
  IsDigit, format_uint-IsDigit, format_uint-ne-nil, parse_uint-format_uint, parse_int-format_uint,
  parse_uint-le,
}
use postgres_controller_back.ResourceVersion.{
  Rv, RvError, no_watermark, bad_object_version, to_text, cut_at_semicolon, parse_watermark,
  parse_tail, parse_rest, parse_object, parse,
}

cut-digits : (s rest : Text) → All IsDigit s → cut_at_semicolon (s ++ b';' ∷ rest) ≡ some (s, rest)
unfolding cut_at_semicolon
cut-digits [] rest d = refl
cut-digits (c ∷ s) rest (dc, d) = ground (arith, cut-digits s rest d)

tail-digits : (v : ℤ) (s : Text) → s ≢ [] → All IsDigit s → parse_rest v s ≡ parse_watermark v s
unfolding parse_rest parse_tail
tail-digits v [] n d = absurd (n refl)
tail-digits v (c ∷ s) n d = ground arith

watermark-format :
    (v : ℤ) (w : ℕ)
    → w ≤ max_uint64
    → parse_watermark v (format_uint w) ≡ ok (record { object_version = v; watermark = w })
unfolding parse_watermark
watermark-format v w h = ground (arith, parse_uint-format_uint w h)

rest-format :
    (v : ℤ) (w : ℕ)
    → w ≤ max_uint64
    → parse_rest v (format_uint w) ≡ ok (record { object_version = v; watermark = w })
rest-format v w h =
    tail-digits v (format_uint w) (format_uint-ne-nil w) (format_uint-IsDigit w)
    ∙ watermark-format v w h

parse-unprefixed : (s : Text) → s ≢ [] → All IsDigit s → parse s ≡ parse_rest (pos 0) s
unfolding parse parse_rest
parse-unprefixed [] n d = absurd (n refl)
parse-unprefixed (c ∷ s) n d = ground arith

object-format :
    (n w : ℕ)
    → n < 2 ^ 63
    → w ≤ max_uint64
    → parse_object (format_uint n ++ b';' ∷ format_uint w)
      ≡ ok (record { object_version = pos n; watermark = w })
unfolding parse_object
object-format n w hn hw = ground (
  arith,
  cut-digits (format_uint n) (format_uint w) (format_uint-IsDigit n),
  parse_int-format_uint n hn,
  rest-format (pos n) w hw,
)

to_text-plain : (w : ℕ) → to_text (record { object_version = pos 0; watermark = w }) ≡ format_uint w
unfolding to_text
to_text-plain w = refl

to_text-object :
    (n w : ℕ)
    → to_text (record { object_version = pos (suc n); watermark = w })
      ≡ b'o' ∷ (format_uint (suc n) ++ b';' ∷ format_uint w)
unfolding to_text format_int
to_text-object n w = refl

parse-prefixed : (s : Text) → parse (b'o' ∷ s) ≡ parse_object s
unfolding parse
parse-prefixed s = refl

-- Every resource version that the program makes, with an object version in int64 that is not negative
-- and a watermark in uint64, is read back from its text.
pub parse-to_text :
    (n w : ℕ)
    → n < 2 ^ 63
    → w ≤ max_uint64
    → parse (to_text (record { object_version = pos n; watermark = w }))
      ≡ ok (record { object_version = pos n; watermark = w })
parse-to_text zero w hn hw = rw (to_text-plain w) (
    parse-unprefixed (format_uint w) (format_uint-ne-nil w) (format_uint-IsDigit w)
    ∙ rest-format (pos 0) w hw)
parse-to_text (suc n) w hn hw =
    rw (to_text-object n w) (parse-prefixed _ ∙ object-format (suc n) w hn hw)

watermark_bound :
    (v : ℤ) (s : Text) {rv : Rv}
    → parse_watermark v s ≡ ok rv
    → (rv.object_version ≡ v) × (rv.watermark ≤ max_uint64)
unfolding parse_watermark
watermark_bound v s {rv} h = (ground arith, ground (arith, parse_uint-le s {n = rv.watermark}))

tail_bound :
    (v : ℤ) (s : Text) {rv : Rv}
    → parse_tail v s ≡ ok rv
    → (rv.object_version ≡ v) × (rv.watermark ≤ max_uint64)
unfolding parse_tail
tail_bound v [] h = watermark_bound v [] h
tail_bound v (c ∷ s) {rv} h = watermark_bound v (c ∷ s) (ground arith)

rest_bound :
    (v : ℤ) (s : Text) {rv : Rv}
    → parse_rest v s ≡ ok rv
    → (rv.object_version ≡ v) × (rv.watermark ≤ max_uint64)
unfolding parse_rest
rest_bound v [] h = cc
rest_bound v (c ∷ s) h = tail_bound v (c ∷ s) h

object_bound : (s : Text) {rv : Rv} → parse_object s ≡ ok rv → rv.watermark ≤ max_uint64
unfolding parse_object
object_bound s {rv} h = go (cut_at_semicolon s) h
  where
    then_rest :
        (b : Text) (o : Outcome RvError ℤ)
        → (do v ← o; parse_rest v b) ≡ ok rv
        → rv.watermark ≤ max_uint64
    then_rest b (ok v) e = (rest_bound v b e).1
    then_rest b (err x) e = cc

    go :
        (o : Option (Text × Text))
        → elim o [
          | none ↦ err no_watermark
          | some (a, b) ↦ do v ← map_err bad_object_version (parse_int a); parse_rest v b
        ]
          ≡ ok rv
        → rv.watermark ≤ max_uint64
    go none e = cc
    go (some (a, b)) e = then_rest b (map_err bad_object_version (parse_int a)) e

-- What is parsed without an error has a watermark in uint64, however long the digits of the text.
parse_fits : (s : Text) {rv : Rv} → parse s ≡ ok rv → rv.watermark ≤ max_uint64
unfolding parse
parse_fits [] h = ground arith
parse_fits (c ∷ s) {rv} h = elim (Bool-cases (c == b'o')) [
  | inl b ↦ object_bound s (rw b at h)
  | inr b ↦ (tail_bound (pos 0) (c ∷ s) (rw b at h)).1
]
