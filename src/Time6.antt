-- ===== src/Time6.antt =====
-- decoder.go, the times of six bytes: binary coded decimals (the standard) and plain binary.
mod Tests
pub mod RoundTrip
use Prim.Native.Nat.{bit_or}
use gb32960_go_sdk.Base.{
  ℕ, zero, suc, ◌+◌, ◌-◌, ◌*◌, ◌/◌, ◌%◌, ◌≤◌, ◌<◌, ◌≡◌, refl, ap, ◌∙◌, Bool, true, false, ◌==◌, ltb,
  if◌then◌else◌, arith, List, [], ◌∷◌, Result, ok, panic, le→ltb, length,
}
use gb32960_go_sdk.GoTime.{Time, date, IsCalendar, date-fields, days_in}
use gb32960_go_sdk.Decoder.{TimeCodec, bcd, binary}

pub parse_binary_time6 : List ℕ → Result Time
parse_binary_time6 (y ∷ mo ∷ d ∷ h ∷ mi ∷ s ∷ r) = ok (date (2000 + y) mo d h mi s)
parse_binary_time6 _ = panic

-- `int(b>>4)*10 + int(b&0x0F)`
abbrev pub from_bcd : ℕ → ℕ
from_bcd b = b / 16 * 10 + b % 16

unfoldable pub parse_bcd_time6 : List ℕ → Result Time
parse_bcd_time6 (y ∷ mo ∷ d ∷ h ∷ mi ∷ s ∷ r) =
    ok (date (2000 + from_bcd y) (from_bcd mo) (from_bcd d) (from_bcd h) (from_bcd mi) (from_bcd s))
parse_bcd_time6 _ = panic

unfoldable pub decode_time6 : TimeCodec → List ℕ → Result Time
decode_time6 binary b = parse_binary_time6 b
decode_time6 bcd b = parse_bcd_time6 b

pub encode_binary_time6 : Time → List ℕ
encode_binary_time6 t =
    t.year % 100 ∷ t.month % 256 ∷ t.day % 256 ∷ t.hour % 256 ∷ t.minute % 256 ∷ t.second % 256 ∷ []

-- `byte((v/10)<<4 | (v % 10))`
unfoldable pub bcd_byte : ℕ → ℕ
bcd_byte v = bit_or (v / 10 * 16 % 256) (v % 10)

-- The same of the negative int `- v`: division and remainder keep the sign, and the bits are those
-- of the two's complement.
pub bcd_byte_negative : ℕ → ℕ
bcd_byte_negative v = bit_or ((256 - v / 10 * 16 % 256) % 256) ((256 - v % 10) % 256)

-- The years count from 2000, and an earlier year is negative.
unfoldable pub encode_bcd_time : Time → List ℕ
encode_bcd_time t =
    (if ltb t.year 2000 then bcd_byte_negative (2000 - t.year) else bcd_byte (t.year - 2000))
    ∷ bcd_byte t.month
    ∷ bcd_byte t.day
    ∷ bcd_byte t.hour
    ∷ bcd_byte t.minute
    ∷ bcd_byte t.second
    ∷ []
