-- ===== src/Message/Fields.antt =====
-- Which bytes make a field, described apart from the decoder, and that `findFieldEnd` finds its end.
use gb32960_go_sdk.Base.{
  ℕ, suc, ◌+◌, ◌-◌, ◌*◌, ◌≤◌, ◌≡◌, refl, ap, ◌∙◌, List, [], ◌∷◌, ◌++◌, some, length, drop, ok,
  arith, append_assoc, length-append, index_cursor, uint16_at_cursor, advance_cursor, le→ltb,
  lt→ltb,
}
use gb32960_go_sdk.Codec.{
  FieldId, vehicle, motor, fuel_cell, engine, position, extreme, voltage, temperature,
}
use gb32960_go_sdk.Message.FieldEnd.{subsystems_end, known_field_end}

-- A row of subsystems, each with a head whose last two bytes count what follows in it.
pub data Subsystems (head unit : ℕ) : ℕ → List ℕ → Type 0 where
  no_more : Subsystems head unit 0 []
  one_more :
      (n hi lo : ℕ) (front cells more : List ℕ)
      → length front + 2 ≡ head
      → length cells ≡ (hi * 256 + lo) * unit
      → Subsystems head unit n more
      → Subsystems head unit (suc n) (front ++ (hi ∷ lo ∷ (cells ++ more)))

-- The bytes of a field, by its id, but for alarms.
pub data IsField : FieldId → List ℕ → Type 0 where
  vehicle_field : (body : List ℕ) → length body ≡ 20 → IsField vehicle body
  motor_field : (n : ℕ) (motors : List ℕ) → length motors ≡ n * 12 → IsField motor (n ∷ motors)
  fuel_cell_field :
      (hi lo : ℕ) (front back : List ℕ)
      → length front ≡ 6
      → length back ≡ hi * 256 + lo + 13
      → IsField fuel_cell (front ++ (hi ∷ lo ∷ back))
  engine_field : (body : List ℕ) → length body ≡ 5 → IsField engine body
  position_field : (body : List ℕ) → length body ≡ 8 → IsField position body
  extreme_field : (body : List ℕ) → length body ≡ 10 → IsField extreme body
  voltage_field :
      (hi lo : ℕ) (subs : List ℕ)
      → Subsystems 7 3 (hi * 256 + lo) subs
      → IsField voltage (hi ∷ lo ∷ subs)
  temperature_field :
      (hi lo : ℕ) (subs : List ℕ)
      → Subsystems 3 1 (hi * 256 + lo) subs
      → IsField temperature (hi ∷ lo ∷ subs)

subsystems_end-Subsystems :
    (head unit n : ℕ) (subs input rest : List ℕ) (end : ℕ)
    → Subsystems head unit n subs
    → drop end input ≡ subs ++ rest
    → end + length subs ≤ length input
    → subsystems_end head unit n input end ≡ ok (end + length subs)
unfolding subsystems_end
subsystems_end-Subsystems head unit _ _ input rest end no_more e h = ap ok (omega arith)
subsystems_end-Subsystems head unit _ _ input rest end (one_more n hi lo front cells more ef ec s) e
      h =
    let after = hi ∷ lo ∷ (cells ++ more) in
    let size : length (front ++ after) ≡ head + length cells + length more =
      omega (arith, length-append front after, length-append cells more) in
    let at_count : drop (end + head - 2) input ≡ hi ∷ lo ∷ ((cells ++ more) ++ rest) =
      advance_cursor input end (end + head - 2) front (after ++ rest)
        (e ∙ append_assoc front after rest) (omega arith) in
    let at_more : drop (end + head + (hi * 256 + lo) * unit) input ≡ more ++ rest =
      advance_cursor input (end + head - 2) (end + head + (hi * 256 + lo) * unit) (hi ∷ lo ∷ cells)
        (more ++ rest) (at_count ∙ simp append_assoc) (omega arith) in
    rw
      (
        lt→ltb end (length input) (omega arith),
        le→ltb (length input) (end + head) (omega arith),
        uint16_at_cursor input (end + head - 2) hi lo ((cells ++ more) ++ rest) at_count,
      )
      (subsystems_end-Subsystems head unit n more input rest (end + head + (hi * 256 + lo) * unit) s
          at_more (omega arith)
        ∙ ap ok (omega arith))

-- `findFieldEnd` finds the end of a field that stands at `pos`.
pub known_field_end-IsField :
    (f : FieldId) (body input rest : List ℕ) (pos : ℕ)
    → IsField f body
    → drop pos input ≡ body ++ rest
    → pos + length body ≤ length input
    → known_field_end f input pos ≡ ok (some (pos + length body))
unfolding known_field_end
known_field_end-IsField _ _ input rest pos (vehicle_field body l) e h = ground arith
known_field_end-IsField _ _ input rest pos (motor_field n motors l) e h =
    rw (le→ltb (length input) (pos + 1) (omega arith), index_cursor input pos n (motors ++ rest) e)
      (ap (λ k. ok (some k)) (omega arith))
known_field_end-IsField _ _ input rest pos (fuel_cell_field hi lo front back lf lb) e h =
    let after = hi ∷ lo ∷ back in
    let size = length-append front after in
    let at_count : drop (pos + 6) input ≡ hi ∷ lo ∷ (back ++ rest) =
      advance_cursor input pos (pos + 6) front (after ++ rest) (e ∙ append_assoc front after rest)
        (omega arith) in
    rw
      (
        le→ltb (length input) (pos + 8) (omega arith),
        uint16_at_cursor input (pos + 6) hi lo (back ++ rest) at_count,
      )
      (ap (λ k. ok (some k)) (omega arith))
known_field_end-IsField _ _ input rest pos (engine_field body l) e h = ground arith
known_field_end-IsField _ _ input rest pos (position_field body l) e h = ground arith
known_field_end-IsField _ _ input rest pos (extreme_field body l) e h = ground arith
known_field_end-IsField _ _ input rest pos (voltage_field hi lo subs s) e h =
    rw
      (
        le→ltb (length input) (pos + 2) (omega arith),
        uint16_at_cursor input pos hi lo (subs ++ rest) e,
        subsystems_end-Subsystems 7 3 (hi * 256 + lo) subs input rest (pos + 2) s
            (advance_cursor input pos (pos + 2) (hi ∷ lo ∷ []) (subs ++ rest) e refl) (omega arith),
      )
      (ap (λ k. ok (some k)) (omega arith))
known_field_end-IsField _ _ input rest pos (temperature_field hi lo subs s) e h =
    rw
      (
        le→ltb (length input) (pos + 2) (omega arith),
        uint16_at_cursor input pos hi lo (subs ++ rest) e,
        subsystems_end-Subsystems 3 1 (hi * 256 + lo) subs input rest (pos + 2) s
            (advance_cursor input pos (pos + 2) (hi ∷ lo ∷ []) (subs ++ rest) e refl) (omega arith),
      )
      (ap (λ k. ok (some k)) (omega arith))
