-- ===== src/LoadTest/Seeder/Documents.antt =====
-- Documents as the load test's seeder builds them, and fmt's padded numbers. The members of an object
-- stand in jsonb's order.
use Prim.Native.String.{String}
use postgres_controller_back.Base.{
  ℕ, zero, suc, ◌+◌, ◌-◌, ◌/◌, ◌%◌, true, false, ltb, List, [], ◌∷◌, length, if◌then◌else◌,
}
use postgres_controller_back.Base.Text.{Text, codes}
use postgres_controller_back.Json.{Json, num, str, arr, obj, Items, nil, cons, Members, end, member}
use postgres_controller_back.Strconv.{format_uint}

abbrev pub text : String → Json
text s = str (codes s)

abbrev pub number : ℕ → Json
number n = num (format_uint n)

abbrev items : List Json → Items
items [] = nil
items (x ∷ xs) = cons x (items xs)

abbrev pub array : List Json → Json
array xs = arr (items xs)

abbrev pub fields : List (String × Json) → Members
fields [] = end
fields ((k, v) ∷ ms) = member (codes k) v (fields ms)

abbrev pub object : List (String × Json) → Json
object ms = obj (fields ms)

abbrev pub zeros : ℕ → Text → Text
zeros zero t = t
zeros (suc n) t = b'0' ∷ zeros n t

-- `%0wd`
unfoldable pub padded : ℕ → ℕ → Text
padded w n = zeros (w - length (format_uint n)) (format_uint n)

abbrev hex_digit : ℕ → ℕ
hex_digit d = if ltb d 10 then b'0' + d else b'a' + (d - 10)

-- The hexadecimal digits of n in front of `out`; sixteen are enough for 64 bits.
unfoldable pub hex_digits : ℕ → ℕ → Text → Text
hex_digits zero n out = out
hex_digits (suc f) n out = elim (ltb n 16) [
  | true ↦ hex_digit n ∷ out
  | false ↦ hex_digits f (n / 16) (hex_digit (n % 16) ∷ out)
]

-- `%0wx`
unfoldable pub hex_padded : ℕ → ℕ → Text
unfolding hex_digits
hex_padded w n = zeros (w - length (hex_digits 16 n [])) (hex_digits 16 n [])

-- The text at an index; the empty text stands for Go's panic, which a remainder never meets.
unfoldable pub text_at : ℕ → List Text → Text
text_at i [] = []
text_at zero (t ∷ ts) = t
text_at (suc i) (t ∷ ts) = text_at i ts

-- `xs[idx%len(xs)]`
unfoldable pub cycle : List Text → ℕ → Text
unfolding text_at
cycle xs idx = text_at (idx % length xs) xs
