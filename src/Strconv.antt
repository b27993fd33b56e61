-- ===== src/Strconv.antt =====
-- What the program uses of Go's strconv, in base 10 and 64 bits: FormatUint, FormatInt, ParseUint and
-- ParseInt. Twenty digits are enough for 64 bits.
pub mod RoundTrip
use postgres_controller_back.Base.{
  ℕ, zero, suc, ◌+◌, ◌-◌, ◌*◌, ◌/◌, ◌%◌, ◌^◌, ◌≡◌, refl, Bool, true, false, ◌||◌, List, [], ◌∷◌,
  ltb, ◌==◌, if◌then◌else◌, Outcome, ok, err, ◌>>=◌,
}
use postgres_controller_back.Base.Int.{ℤ, pos, negsuc}
use postgres_controller_back.Base.Text.{Text, codes}

pub data NumError : Type 0 where
  syntax range : NumError

abbrev pub max_uint64 : ℕ
max_uint64 = 2 ^ 64 - 1

-- The digits of n in front of `out`.
unfoldable pub digits : ℕ → ℕ → Text → Text
digits zero n out = out
digits (suc f) n out = elim (ltb n 10) [
  | true ↦ (b'0' + n) ∷ out
  | false ↦ digits f (n / 10) ((b'0' + n % 10) ∷ out)
]

unfoldable pub format_uint : ℕ → Text
unfolding digits
format_uint n = digits 20 n []

unfoldable pub format_int : ℤ → Text
format_int (pos n) = format_uint n
format_int (negsuc n) = b'-' ∷ format_uint (suc n)

unfoldable pub scan : Text → ℕ → Outcome NumError ℕ
scan [] n = ok n
scan (c ∷ s) n =
    let m = n * 10 + (c - b'0') in
    let rest = scan s m in
    if ltb c b'0' || ltb b'9' c then err syntax else if ltb max_uint64 m then err range else rest

unfoldable pub parse_uint : Text → Outcome NumError ℕ
unfolding scan
parse_uint [] = err syntax
parse_uint (c ∷ s) = scan (c ∷ s) 0

abbrev pub neg : ℕ → ℤ
neg zero = pos 0
neg (suc n) = negsuc n

unfoldable pub parse_positive : Text → Outcome NumError ℤ
unfolding parse_uint
parse_positive s = do n ← parse_uint s; if ltb n (2 ^ 63) then ok (pos n) else err range

unfoldable pub parse_negative : Text → Outcome NumError ℤ
unfolding parse_uint
parse_negative s = do n ← parse_uint s; if ltb (2 ^ 63) n then err range else ok (neg n)

unfoldable pub parse_int : Text → Outcome NumError ℤ
unfolding parse_positive parse_negative
parse_int [] = err syntax
parse_int (c ∷ s) =
    if c == b'-'
    then parse_negative s
    else if c == b'+'
    then parse_positive s
    else parse_positive (c ∷ s)

formatted : format_int (negsuc 41) ≡ codes "-42"
unfolding format_int format_uint
formatted = refl

parsed : parse_int (codes "-9223372036854775808") ≡ ok (negsuc 9223372036854775807)
unfolding parse_int
parsed = refl

overflow : parse_uint (codes "18446744073709551616") ≡ err range
unfolding parse_uint
overflow = refl
