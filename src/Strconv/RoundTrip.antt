-- ===== src/Strconv/RoundTrip.antt =====
-- A number is read back from its decimal print.
use native.Mathlib.Nat.{pow-suc}
use mathlib.Core.List.{cons-ne-nil}
use native.Mathlib.Decide.{dec_lt}
use postgres_controller_back.Base.{
  ℕ, zero, suc, ◌+◌, ◌-◌, ◌*◌, ◌/◌, ◌%◌, ◌^◌, ◌<◌, ◌≤◌, ◌≡◌, ◌≢◌, refl, [], ◌∷◌, arith, ok, All,
  ◌∙◌, ap,
}
use postgres_controller_back.Base.Int.{pos}
use postgres_controller_back.Base.Text.{Text}
use postgres_controller_back.Strconv.{
  max_uint64, digits, format_uint, format_int, scan, parse_uint, parse_int, parse_positive,
}

abbrev pub IsDigit : ℕ → Type 0
IsDigit c = (b'0' ≤ c) × (c ≤ b'9')

-- Reading one more digit.
scan_digit :
    (d n : ℕ) (out : Text)
    → d < 10
    → n * 10 + d ≤ max_uint64
    → scan ((b'0' + d) ∷ out) n ≡ scan out (n * 10 + d)
unfolding scan
scan_digit d n out h fits = ground arith

digits_last : (f n : ℕ) (out : Text) → n < 10 → digits (suc f) n out ≡ (b'0' + n) ∷ out
unfolding digits
digits_last f n out h = ground arith

digits_more :
    (f n : ℕ) (out : Text)
    → 10 ≤ n
    → digits (suc f) n out ≡ digits f (n / 10) ((b'0' + n % 10) ∷ out)
unfolding digits
digits_more f n out h = ground arith

-- One digit more divides the bound by ten.
tenth_below : (f n : ℕ) → n < 10 ^ suc f → n / 10 < 10 ^ f
tenth_below f n h = omega (arith, pow-suc 10 f)

fuel_left : (n f : ℕ) → 10 ≤ n → n < 10 ^ suc f → 0 < f
fuel_left n zero h b = absurd (omega arith)
fuel_left n (suc f) h b = omega arith

scan-digits :
    (f n : ℕ) (out : Text)
    → n < 10 ^ f
    → 0 < f
    → n ≤ max_uint64
    → scan (digits f n out) 0 ≡ scan out n
scan-digits zero n out h p fits = absurd (omega arith)
scan-digits (suc f) n out h p fits = elim (dec_lt n 10) [
  | yes small ↦
      rw (digits_last f n out small)
        (scan_digit n 0 out small (omega arith) ∙ ap (scan out) (omega arith))
  | no large ↦ rw (digits_more f n out (omega arith)) (last (scan-digits f (n / 10)) (omega arith))
]
  where
    last :
        ((o : Text)
          → n / 10 < 10 ^ f
          → 0 < f
          → n / 10 ≤ max_uint64
          → scan (digits f (n / 10) o) 0 ≡ scan o (n / 10))
        → 10 ≤ n
        → scan (digits f (n / 10) ((b'0' + n % 10) ∷ out)) 0 ≡ scan out n
    last ih large =
        ih ((b'0' + n % 10) ∷ out) (tenth_below f n h) (fuel_left n f large h) (omega arith)
        ∙ scan_digit (n % 10) (n / 10) out (omega arith) (omega arith)
        ∙ ap (scan out) (omega arith)

-- `digits` puts only digits in front of `out`.
digits-IsDigit : (f n : ℕ) (out : Text) → All IsDigit out → All IsDigit (digits f n out)
digits-IsDigit zero n out h = unfold digits in h
digits-IsDigit (suc f) n out h = elim (dec_lt n 10) [
  | yes small ↦ rw (digits_last f n out small) ((omega arith, omega arith), h)
  | no large ↦
      rw (digits_more f n out (omega arith))
        (digits-IsDigit f (n / 10) ((b'0' + n % 10) ∷ out) ((omega arith, omega arith), h))
]

digits-ne-nil : (f n : ℕ) (c : ℕ) (out : Text) → digits f n (c ∷ out) ≢ []
digits-ne-nil zero n c out = unfold digits in cons-ne-nil c out
digits-ne-nil (suc f) n c out = elim (dec_lt n 10) [
  | yes small ↦ rw (digits_last f n (c ∷ out) small) (cons-ne-nil _ _)
  | no large ↦ rw (digits_more f n (c ∷ out) (omega arith)) (digits-ne-nil f (n / 10) _ _)
]

pub format_uint-IsDigit : (n : ℕ) → All IsDigit (format_uint n)
unfolding format_uint
format_uint-IsDigit n = digits-IsDigit 20 n [] tt

pub format_uint-ne-nil : (n : ℕ) → format_uint n ≢ []
format_uint-ne-nil n = elim (dec_lt n 10) [
  | yes small ↦ unfold format_uint in rw (digits_last 19 n [] small) (cons-ne-nil _ _)
  | no large ↦
      unfold format_uint in rw (digits_more 19 n [] (omega arith)) (digits-ne-nil 19 (n / 10) _ _)
]

parse_uint-scan : (s : Text) → s ≢ [] → parse_uint s ≡ scan s 0
unfolding parse_uint
parse_uint-scan [] h = absurd (h refl)
parse_uint-scan (c ∷ s) h = refl

-- ParseUint reads back what FormatUint prints, for every uint64.
pub parse_uint-format_uint : (n : ℕ) → n ≤ max_uint64 → parse_uint (format_uint n) ≡ ok n
parse_uint-format_uint n h =
    parse_uint-scan (format_uint n) (format_uint-ne-nil n)
    ∙ unfold format_uint in scan-digits 20 n [] (omega arith) (omega arith) h ∙ unfold scan in refl

parse_int-unsigned : (s : Text) → s ≢ [] → All IsDigit s → parse_int s ≡ parse_positive s
unfolding parse_int
parse_int-unsigned [] h d = absurd (h refl)
parse_int-unsigned (c ∷ s) h d = ground arith

pub parse_int-format_uint : (n : ℕ) → n < 2 ^ 63 → parse_int (format_uint n) ≡ ok (pos n)
unfolding parse_positive
parse_int-format_uint n h =
    parse_int-unsigned (format_uint n) (format_uint-ne-nil n) (format_uint-IsDigit n)
    ∙ ground (arith, parse_uint-format_uint n)

-- ParseInt reads back what FormatInt prints, for every int64 that is not negative.
pub parse_int-format_int : (n : ℕ) → n < 2 ^ 63 → parse_int (format_int (pos n)) ≡ ok (pos n)
unfolding format_int
parse_int-format_int n h = parse_int-format_uint n h

scan-le : (s : Text) (n : ℕ) {m : ℕ} → n ≤ max_uint64 → scan s n ≡ ok m → m ≤ max_uint64
unfolding scan
scan-le [] n h e = ground arith
scan-le (c ∷ s) n {m} h e = ground (arith, scan-le s (n * 10 + (c - b'0')) {m = m})

-- What ParseUint accepts fits in uint64.
pub parse_uint-le : (s : Text) {n : ℕ} → parse_uint s ≡ ok n → n ≤ max_uint64
unfolding parse_uint
parse_uint-le [] h = cc
parse_uint-le (c ∷ s) h = scan-le (c ∷ s) 0 (omega arith) h
