-- ===== src/Base/Bytes.antt =====
-- Byte slices as lists of numbers: indexing and slicing with Go's bounds checks, and the big-endian
-- words of encoding/binary.
use Prim.Native.Nat.{ℕ, zero, suc, ◌+◌, ◌-◌, ◌*◌, ◌/◌, ◌%◌, ◌≤◌, ◌<◌}
use mathlib.Core.Path.{◌≡◌, refl, ap, sym, ◌∙◌}
use mathlib.Core.Bool.{◌&&◌}
use mathlib.Core.List.{List, [], ◌∷◌, ◌++◌}
use mathlib.Core.Option.{none, some}
use native.Mathlib.Omega.{arith}
use gb32960_go_sdk.Base.Tests.{leb, if◌then◌else◌, le→leb}
use gb32960_go_sdk.Base.Lists.{
  length, get_elem?, take, drop, length-append, length-take, length-drop, get_elem?-lt, take-append,
  drop-append, drop-drop,
}
use gb32960_go_sdk.Base.Outcome.{Result, ok, panic, ◌>>=◌, Returns, Satisfies}

abbrev pub IsByte : ℕ → Type 0
IsByte b = b < 256

-- `data[i]`
unfoldable pub index : List ℕ → ℕ → Result ℕ
index xs i = elim (get_elem? xs i) [ none ↦ panic | some b ↦ ok b ]

-- `data[a:b]`
unfoldable pub slice : List ℕ → ℕ → ℕ → Result (List ℕ)
slice xs a b = if leb a b && leb b (length xs) then ok (take (b - a) (drop a xs)) else panic

-- `binary.BigEndian.Uint16`
unfoldable pub be_uint16 : List ℕ → Result ℕ
be_uint16 [] = panic
be_uint16 (a ∷ []) = panic
be_uint16 (a ∷ b ∷ r) = ok (a * 256 + b)

-- `binary.BigEndian.Uint32`
unfoldable pub be_uint32 : List ℕ → Result ℕ
be_uint32 (a ∷ b ∷ c ∷ d ∷ r) = ok (((a * 256 + b) * 256 + c) * 256 + d)
be_uint32 _ = panic

-- `binary.BigEndian.PutUint16` and `PutUint32` of a word, whose bytes are appended.
abbrev pub put_uint16 : ℕ → List ℕ
put_uint16 v = (v / 256 % 256) ∷ (v % 256) ∷ []

abbrev pub put_uint32 : ℕ → List ℕ
put_uint32 v = (v / 16777216 % 256) ∷ (v / 65536 % 256) ∷ (v / 256 % 256) ∷ (v % 256) ∷ []

-- `binary.BigEndian.Uint16(data[pos : pos+2])`, and the same of 32 bits.
unfoldable pub uint16_at : List ℕ → ℕ → Result ℕ
unfolding be_uint16
uint16_at xs pos = do s ← slice xs pos (pos + 2); be_uint16 s

unfoldable pub uint32_at : List ℕ → ℕ → Result ℕ
unfolding be_uint32
uint32_at xs pos = do s ← slice xs pos (pos + 4); be_uint32 s

-- What a call finds at `pos` is read off the bytes from `pos` on.
pub index_cursor :
    (xs : List ℕ) (pos b : ℕ) (r : List ℕ) → drop pos xs ≡ b ∷ r → index xs pos ≡ ok b
unfolding index
index_cursor [] zero b r e = cc
index_cursor (x ∷ xs) zero b r e = cc
index_cursor [] (suc pos) b r e = cc
index_cursor (x ∷ xs) (suc pos) b r e = index_cursor xs pos b r e

drop-length-le :
    (xs : List ℕ) (pos : ℕ) (w r : List ℕ)
    → drop pos xs ≡ w ++ r
    → 0 < length w
    → pos + length w ≤ length xs
drop-length-le xs pos w r e h = omega (arith, length-drop pos xs, ap length e, length-append w r)

pub slice_cursor :
    (xs : List ℕ) (pos end : ℕ) (w r : List ℕ)
    → drop pos xs ≡ w ++ r
    → pos ≤ length xs
    → pos + length w ≡ end
    → slice xs pos end ≡ ok w
unfolding slice
slice_cursor xs pos end w r e p q =
    rw
      (
        le→leb pos end (omega arith),
        le→leb end (length xs) (omega (arith, length-drop pos xs, ap length e, length-append w r)),
        e,
      )
      (ap ok (take-append (end - pos) w r (omega arith)))

pub uint16_at_cursor :
    (xs : List ℕ) (pos a b : ℕ) (r : List ℕ)
    → drop pos xs ≡ a ∷ b ∷ r
    → uint16_at xs pos ≡ ok (a * 256 + b)
unfolding uint16_at
uint16_at_cursor xs pos a b r e = rw (
    slice_cursor xs pos (pos + 2) (a ∷ b ∷ []) r e
      (omega (arith, drop-length-le xs pos (a ∷ b ∷ []) r e)) refl)

pub uint32_at_cursor :
    (xs : List ℕ) (pos a b c d : ℕ) (r : List ℕ)
    → drop pos xs ≡ a ∷ b ∷ c ∷ d ∷ r
    → uint32_at xs pos ≡ ok (((a * 256 + b) * 256 + c) * 256 + d)
unfolding uint32_at
uint32_at_cursor xs pos a b c d r e = rw (
    slice_cursor xs pos (pos + 4) (a ∷ b ∷ c ∷ d ∷ []) r e
      (omega (arith, drop-length-le xs pos (a ∷ b ∷ c ∷ d ∷ []) r e)) refl)

-- The cursor moves on over what was read.
pub advance_cursor :
    (xs : List ℕ) (pos end : ℕ) (w r : List ℕ)
    → drop pos xs ≡ w ++ r
    → pos + length w ≡ end
    → drop end xs ≡ r
advance_cursor xs pos end w r e q =
    sym (drop-drop end (length w) pos xs q)
    ∙ ap (drop (length w)) e
    ∙ drop-append (length w) w r refl

-- Accesses within the bounds return.
pub index_lt : (xs : List ℕ) (pos : ℕ) → pos < length xs → Returns (index xs pos)
unfolding index
index_lt xs pos h = let (b, e) = get_elem?-lt xs pos h in rw (e, index) tt

pub slice_le : (xs : List ℕ) (a b : ℕ) → a ≤ b → b ≤ length xs → Returns (slice xs a b)
unfolding slice
slice_le xs a b h k = rw (le→leb a b h, le→leb b (length xs) k) tt

pub slice_ok :
    (xs : List ℕ) (a b : ℕ) → a ≤ b → b ≤ length xs → slice xs a b ≡ ok (take (b - a) (drop a xs))
unfolding slice
slice_ok xs a b h k = rw (le→leb a b h, le→leb b (length xs) k)

-- A slice within the bounds has the length that they say.
pub slice-length :
    (xs : List ℕ) (a b : ℕ)
    → a ≤ b
    → b ≤ length xs
    → Satisfies (λ s. length s ≡ b - a) (slice xs a b)
slice-length xs a b h k =
    rw (slice_ok xs a b h k) (omega (arith, length-take (b - a) (drop a xs), length-drop a xs))

be_uint16_long : (s : List ℕ) → 2 ≤ length s → Returns (be_uint16 s)
unfolding be_uint16
be_uint16_long [] h = absurd (omega arith)
be_uint16_long (a ∷ []) h = absurd (omega arith)
be_uint16_long (a ∷ b ∷ r) h = tt

be_uint32_long : (s : List ℕ) → 4 ≤ length s → Returns (be_uint32 s)
unfolding be_uint32
be_uint32_long (a ∷ b ∷ c ∷ d ∷ r) h = tt
be_uint32_long [] h = absurd (omega arith)
be_uint32_long (a ∷ []) h = absurd (omega arith)
be_uint32_long (a ∷ b ∷ []) h = absurd (omega arith)
be_uint32_long (a ∷ b ∷ c ∷ []) h = absurd (omega arith)

pub uint16_at_le : (xs : List ℕ) (pos : ℕ) → pos + 2 ≤ length xs → Returns (uint16_at xs pos)
unfolding uint16_at
uint16_at_le xs pos h = rw (slice_ok xs pos (pos + 2) (omega arith) h) (
    be_uint16_long _ (omega (arith, length-take (pos + 2 - pos) (drop pos xs), length-drop pos xs)))

pub uint32_at_le : (xs : List ℕ) (pos : ℕ) → pos + 4 ≤ length xs → Returns (uint32_at xs pos)
unfolding uint32_at
uint32_at_le xs pos h = rw (slice_ok xs pos (pos + 4) (omega arith) h) (
    be_uint32_long _ (omega (arith, length-take (pos + 4 - pos) (drop pos xs), length-drop pos xs)))

-- A word that is split into bytes and put together again.
pub uint16_bytes : (v : ℕ) → v < 65536 → v / 256 % 256 * 256 + v % 256 ≡ v
uint16_bytes v h = omega arith

pub uint32_bytes :
    (v : ℕ)
    → v < 4294967296
    → ((v / 16777216 % 256 * 256 + v / 65536 % 256) * 256 + v / 256 % 256) * 256 + v % 256 ≡ v
uint32_bytes v h = omega arith
