-- ===== src/Base64.antt =====
-- base64.StdEncoding of Go, which the continue tokens of pkg/pgruntime/pgclient.go use.
pub mod RoundTrip
use postgres_controller_back.Base.{
  ℕ, ◌+◌, ◌-◌, ◌*◌, ◌/◌, ◌%◌, ◌≡◌, refl, Bool, true, false, not, ◌&&◌, ◌||◌, Option, none, some,
  List, [], ◌∷◌, keep, ltb, leb, ◌==◌, if◌then◌else◌,
}
use postgres_controller_back.Base.Text.{Text, codes}

unfoldable pub char : ℕ → ℕ
char n =
    if ltb n 26
    then 65 + n
    else if ltb n 52
    then 71 + n
    else if ltb n 62
    then n - 4
    else if n == 62
    then b'+'
    else b'/'

unfoldable pub sextet : ℕ → Option ℕ
sextet c =
    if leb b'A' c && leb c b'Z'
    then some (c - 65)
    else if leb b'a' c && leb c b'z'
    then some (c - 71)
    else if leb b'0' c && leb c b'9'
    then some (c + 4)
    else if c == b'+'
    then some 62
    else if c == b'/'
    then some 63
    else none

unfoldable pub encode : Text → Text
unfolding char
encode [] = []
encode (a ∷ []) = char (a / 4) ∷ char (a % 4 * 16) ∷ b'=' ∷ b'=' ∷ []
encode (a ∷ b ∷ []) = char (a / 4) ∷ char (a % 4 * 16 + b / 16) ∷ char (b % 16 * 4) ∷ b'=' ∷ []
encode (a ∷ b ∷ c ∷ bs) =
    char (a / 4)
    ∷ char (a % 4 * 16 + b / 16)
    ∷ char (b % 16 * 4 + c / 64)
    ∷ char (c % 64)
    ∷ encode bs

-- Go skips carriage returns and line feeds.
abbrev pub not_newline : ℕ → Bool
not_newline c = not (c == 10 || c == 13)

abbrev pub is_nil : Text → Bool
is_nil [] = true
is_nil (c ∷ s) = false

abbrev pub byte_0 : ℕ → ℕ → ℕ
byte_0 x y = x * 4 + y / 16

abbrev pub byte_1 : ℕ → ℕ → ℕ
byte_1 y z = y % 16 * 16 + z / 4

abbrev pub byte_2 : ℕ → ℕ → ℕ
byte_2 z w = z % 4 * 64 + w

abbrev pub three : ℕ → ℕ → ℕ → Option Text → Option Text
three a b c none = none
three a b c (some s) = some (a ∷ b ∷ c ∷ s)

-- A group of four; the padding ends the text. The last bits that padding cuts off may be anything.
unfoldable pub last_two : ℕ → ℕ → Option ℕ → ℕ → Option ℕ → Bool → Option Text → Option Text
last_two x y none d w ends rest = none
last_two x y (some z) d none ends rest =
    if d == b'=' && ends then some (byte_0 x y ∷ byte_1 y z ∷ []) else none
last_two x y (some z) d (some w) ends rest = three (byte_0 x y) (byte_1 y z) (byte_2 z w) rest

unfoldable pub group : Option ℕ → Option ℕ → ℕ → ℕ → Bool → Option Text → Option Text
unfolding last_two sextet
group none y c d ends rest = none
group (some x) none c d ends rest = none
group (some x) (some y) c d ends rest =
    if c == b'='
    then (if d == b'=' && ends then some (byte_0 x y ∷ []) else none)
    else last_two x y (sextet c) d (sextet d) ends rest

unfoldable pub decode_groups : Text → Option Text
unfolding group sextet
decode_groups [] = some []
decode_groups (a ∷ []) = none
decode_groups (a ∷ b ∷ []) = none
decode_groups (a ∷ b ∷ c ∷ []) = none
decode_groups (a ∷ b ∷ c ∷ d ∷ s) = group (sextet a) (sextet b) c d (is_nil s) (decode_groups s)

-- DecodeString
unfoldable pub decode : Text → Option Text
unfolding decode_groups
decode s = decode_groups (keep not_newline s)

encodes : encode (codes "Man is") ≡ codes "TWFuIGlz"
unfolding encode
encodes = refl

decodes : decode (codes "TWE=") ≡ some (codes "Ma")
unfolding decode
decodes = refl
