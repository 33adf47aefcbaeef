-- ===== src/Time6/RoundTrip.antt =====
-- The times that are encoded and decoded again.
use gb32960_go_sdk.Base.{
  ℕ, zero, suc, ◌+◌, ◌-◌, ◌*◌, ◌/◌, ◌%◌, ◌≤◌, ◌<◌, ◌≡◌, refl, ap, Bool, true, ◌&&◌, ◌==◌, arith,
  List, [], ◌∷◌, ok, le→ltb, ==_iff, length, IsByte, Satisfies,
}
use gb32960_go_sdk.GoTime.{Time, IsCalendar, date-fields, date-IsCalendar, days_in_bounds}
use gb32960_go_sdk.Decoder.{TimeCodec, bcd, binary}
use gb32960_go_sdk.Time6.{
  parse_binary_time6, parse_bcd_time6, from_bcd, decode_time6, encode_binary_time6, bcd_byte,
  encode_bcd_time,
}

-- A table over the numbers below a bound.
all_below : ℕ → (ℕ → Bool) → Bool
all_below zero p = true
all_below (suc n) p = p n && all_below n p

all_below-lt : (n : ℕ) (p : ℕ → Bool) (x : ℕ) → all_below n p ≡ true → x < n → p x ≡ true
unfolding all_below
all_below-lt zero p x h lt = absurd (omega arith)
all_below-lt (suc n) p x h lt = ground (arith, all_below-lt n p x)

bcd_table : all_below 160 (λ v. bcd_byte v == v / 10 * 16 + v % 10) ≡ true
unfolding all_below bcd_byte
bcd_table = refl

bcd_byte-digits : (v : ℕ) → v < 160 → bcd_byte v ≡ v / 10 * 16 + v % 10
bcd_byte-digits v h = (==_iff _ _).0 (all_below-lt 160 _ v bcd_table h)

from_bcd-bcd_byte : (v : ℕ) → v < 160 → from_bcd (bcd_byte v) ≡ v
from_bcd-bcd_byte v h = omega (arith, bcd_byte-digits v h)

pub bcd_byte-IsByte : (v : ℕ) → v < 160 → IsByte (bcd_byte v)
bcd_byte-IsByte v h = omega (arith, bcd_byte-digits v h)

-- A time with fields in their ranges, from the years 2000 to 2159, is encoded in six bytes from
-- which the decoder reads it back in its standard mode. 160 years are what two digits of four bits
-- hold.
pub decode_time6-encode_bcd_time :
    (t : Time)
    → IsCalendar t
    → 2000 ≤ t.year
    → t.year < 2160
    → decode_time6 bcd (encode_bcd_time t) ≡ ok t
unfolding decode_time6 encode_bcd_time parse_bcd_time6
decode_time6-encode_bcd_time t v lo hi =
    let y = t.year - 2000 in
    let ey : 2000 + y ≡ t.year = omega arith in
    let days = days_in_bounds t.year t.month in
    rw
      (
        le→ltb t.year 2000 lo,
        from_bcd-bcd_byte y (omega arith),
        from_bcd-bcd_byte t.month (omega arith),
        from_bcd-bcd_byte t.day (omega arith),
        from_bcd-bcd_byte t.hour (omega arith),
        from_bcd-bcd_byte t.minute (omega arith),
        from_bcd-bcd_byte t.second (omega arith),
        ey,
      )
      (ap ok (date-fields t v))

-- A time with fields in their ranges, from the years 2000 to 2099, is encoded in six bytes in the
-- plain binary format, from which the decoder in its binary mode reads it back.
pub decode_time6-encode_binary_time6 :
    (t : Time)
    → IsCalendar t
    → 2000 ≤ t.year
    → t.year < 2100
    → decode_time6 binary (encode_binary_time6 t) ≡ ok t
unfolding decode_time6 encode_binary_time6 parse_binary_time6
decode_time6-encode_binary_time6 t v lo hi =
    let days = days_in_bounds t.year t.month in
    let byte : (n : ℕ) → n < 256 → n % 256 ≡ n = λ n h. omega arith in
    let ey : 2000 + t.year % 100 ≡ t.year = omega arith in
    rw
      (
        ey,
        byte t.month (omega arith),
        byte t.day (omega arith),
        byte t.hour (omega arith),
        byte t.minute (omega arith),
        byte t.second (omega arith),
      )
      (ap ok (date-fields t v))

-- In both formats six bytes, whatever they hold, are decoded to a time whose fields are in their
-- ranges.
pub decode_time6-IsCalendar :
    (tc : TimeCodec) (b : List ℕ) → 6 ≤ length b → Satisfies IsCalendar (decode_time6 tc b)
unfolding decode_time6 parse_binary_time6 parse_bcd_time6
decode_time6-IsCalendar tc [] h = absurd (omega arith)
decode_time6-IsCalendar tc (y ∷ []) h = absurd (omega arith)
decode_time6-IsCalendar tc (y ∷ mo ∷ []) h = absurd (omega arith)
decode_time6-IsCalendar tc (y ∷ mo ∷ d ∷ []) h = absurd (omega arith)
decode_time6-IsCalendar tc (y ∷ mo ∷ d ∷ ho ∷ []) h = absurd (omega arith)
decode_time6-IsCalendar tc (y ∷ mo ∷ d ∷ ho ∷ mi ∷ []) h = absurd (omega arith)
decode_time6-IsCalendar bcd (y ∷ mo ∷ d ∷ ho ∷ mi ∷ s ∷ r) h = date-IsCalendar _ _ _ _ _ _
decode_time6-IsCalendar binary (y ∷ mo ∷ d ∷ ho ∷ mi ∷ s ∷ r) h = date-IsCalendar _ _ _ _ _ _
