-- ===== src/Base64/RoundTrip.antt =====
-- What was encoded is decoded.
use postgres_controller_back.Base.{
  ℕ, ◌+◌, ◌*◌, ◌/◌, ◌%◌, ◌≡◌, ◌<◌, refl, Bool, true, false, Option, some, [], ◌∷◌, keep, arith, All,
  ap, ◌∙◌, ◌==◌,
}
use postgres_controller_back.Base.Text.{Text}
use postgres_controller_back.Base64.{
  char, sextet, encode, not_newline, is_nil, byte_0, byte_1, byte_2, three, group, last_two,
  decode_groups, decode,
}

pub sextet-char : (n : ℕ) → n < 64 → sextet (char n) ≡ some n
unfolding sextet char
sextet-char n h = ground arith

char_plain : (n : ℕ) → n < 64 → (not_newline (char n) ≡ true) × ((char n == b'=') ≡ false)
unfolding char
char_plain n h = ground arith

abbrev pub IsByte : ℕ → Type 0
IsByte b = b < 256

bytes_of :
    (a b c : ℕ)
    → a < 256
    → b < 256
    → c < 256
    → (byte_0 (a / 4) (a % 4 * 16 + b / 16) ≡ a)
      × (byte_1 (a % 4 * 16 + b / 16) (b % 16 * 4 + c / 64) ≡ b)
      × (byte_2 (b % 16 * 4 + c / 64) (c % 64) ≡ c)
bytes_of a b c h k l = omega arith

keep-encode : (bs : Text) → All IsByte bs → keep not_newline (encode bs) ≡ encode bs
unfolding encode
keep-encode [] h = refl
keep-encode (a ∷ []) (ha, h) =
    rw ((char_plain (a / 4) (omega arith)).0, (char_plain (a % 4 * 16) (omega arith)).0)
keep-encode (a ∷ b ∷ []) (ha, (hb, h)) = rw (
  (char_plain (a / 4) (omega arith)).0,
  (char_plain (a % 4 * 16 + b / 16) (omega arith)).0,
  (char_plain (b % 16 * 4) (omega arith)).0,
)
keep-encode (a ∷ b ∷ c ∷ bs) (ha, (hb, (hc, h))) = rw (
  (char_plain (a / 4) (omega arith)).0,
  (char_plain (a % 4 * 16 + b / 16) (omega arith)).0,
  (char_plain (b % 16 * 4 + c / 64) (omega arith)).0,
  (char_plain (c % 64) (omega arith)).0,
  keep-encode bs h,
)

group_full :
    (x y z w c d : ℕ) (ends : Bool) (rest : Option Text)
    → (c == b'=') ≡ false
    → sextet c ≡ some z
    → sextet d ≡ some w
    → group (some x) (some y) c d ends rest ≡ three (byte_0 x y) (byte_1 y z) (byte_2 z w) rest
unfolding group last_two
group_full x y z w c d ends rest n p q = rw (n, p, q)

group_padded :
    (x y z c : ℕ)
    → (c == b'=') ≡ false
    → sextet c ≡ some z
    → group (some x) (some y) c b'=' true (some []) ≡ some (byte_0 x y ∷ byte_1 y z ∷ [])
unfolding group last_two
group_padded x y z c n p = rw (n, p) (unfold sextet in refl)

decode_groups-encode : (bs : Text) → All IsByte bs → decode_groups (encode bs) ≡ some bs
unfolding encode decode_groups
decode_groups-encode [] h = refl
decode_groups-encode (a ∷ []) (ha, h) =
    rw (sextet-char (a / 4) (omega arith), sextet-char (a % 4 * 16) (omega arith))
      (unfold group in ground (arith, bytes_of a 0 0))
decode_groups-encode (a ∷ b ∷ []) (ha, (hb, h)) =
    rw (sextet-char (a / 4) (omega arith), sextet-char (a % 4 * 16 + b / 16) (omega arith))
      (group_padded (a / 4) (a % 4 * 16 + b / 16) (b % 16 * 4) (char (b % 16 * 4))
          (char_plain (b % 16 * 4) (omega arith)).1 (sextet-char (b % 16 * 4) (omega arith))
        ∙ ground (arith, bytes_of a b 0))
decode_groups-encode (a ∷ b ∷ c ∷ bs) (ha, (hb, (hc, h))) =
    rw (sextet-char (a / 4) (omega arith), sextet-char (a % 4 * 16 + b / 16) (omega arith))
      (group_full (a / 4) (a % 4 * 16 + b / 16) (b % 16 * 4 + c / 64) (c % 64)
          (char (b % 16 * 4 + c / 64)) (char (c % 64)) (is_nil (encode bs))
          (decode_groups (encode bs)) (char_plain (b % 16 * 4 + c / 64) (omega arith)).1
          (sextet-char (b % 16 * 4 + c / 64) (omega arith)) (sextet-char (c % 64) (omega arith))
        ∙ ground (arith, bytes_of a b c, decode_groups-encode bs h))

-- Of a text of bytes, the encoding is decoded to it.
pub decode-encode : (bs : Text) → All IsByte bs → decode (encode bs) ≡ some bs
unfolding decode
decode-encode bs h = ap decode_groups (keep-encode bs h) ∙ decode_groups-encode bs h
