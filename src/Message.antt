-- ===== src/Message.antt =====
-- message.go: realtime and reissue messages, a time and a row of data fields.
mod Tests
pub mod Store
pub mod FieldEnd
pub mod Bounds
pub mod Safe
pub mod AlarmLoss
pub mod Fields
pub mod Cut
pub mod Reissue
pub mod Accept
use gb32960_go_sdk.Base.{
  ℕ, zero, suc, ◌+◌, ◌-◌, ◌*◌, List, [], ◌∷◌, ◌++◌, Option, none, some, Bool, true, false, not, ltb,
  leb, if◌then◌else◌, length, drop, Result, ok, err, panic, stuck, ◌>>=◌, too_short, index, slice,
  uint16_at,
}
use gb32960_go_sdk.GoTime.{Time}
use gb32960_go_sdk.Decoder.{TimeCodec}
use gb32960_go_sdk.Time6.{decode_time6}
use gb32960_go_sdk.Codec.{decode_field, has_decoder, Decoded}
use gb32960_go_sdk.Packet.Fields.{RealtimeMessage, ReissueMessage}
use Store.{store}
use FieldEnd.{find_field_end}

-- A message with a time and no field.
abbrev pub no_fields : Time → RealtimeMessage
no_fields t = record {
  info_time = t;
  vehicle_data = none;
  motor_data = [];
  fuel_cell_data = none;
  engine_data = none;
  position_data = none;
  extreme_data = none;
  alarm_data = none;
  voltage_data = none;
}

-- A field that is decoded is stored, and one with an error is passed over.
pub store_result : RealtimeMessage → Result Decoded → Result RealtimeMessage
store_result msg (ok x) = ok (store msg x)
store_result msg (err e) = ok msg
store_result msg panic = panic
store_result msg stuck = stuck

-- The rest of a round, from the end that `findFieldEnd` gives: the field is cut out and stored, or
-- the loop ends.
pub field_body : List ℕ → ℕ → RealtimeMessage → ℕ → Option ℕ → Result (Option RealtimeMessage × ℕ)
field_body input pos msg id none = ok (none, pos + 1)
field_body input pos msg id (some end) = if ltb (length input) end then ok (none, pos + 1) else do
  body ← slice input (pos + 1) end
  msg' ← store_result msg (decode_field id body)
  ok (some msg', end)

-- One round of the loop over the fields: `none` ends it, with the position that it leaves.
pub field_step : List ℕ → ℕ → RealtimeMessage → Result (Option RealtimeMessage × ℕ)
field_step input pos msg = do
  id ← index input pos
  if not (has_decoder id)
      then ok (none, pos)
      else do end ← find_field_end id input (pos + 1); field_body input pos msg id end

-- What follows a round: the loop ends, or `more` goes on with the message and the position.
abbrev pub after_round :
    RealtimeMessage
    → (ℕ → RealtimeMessage → Result (RealtimeMessage × ℕ))
    → Option RealtimeMessage × ℕ
    → Result (RealtimeMessage × ℕ)
after_round msg more (none, pos) = ok (msg, pos)
after_round msg more (some msg', pos) = more pos msg'

pub fields_loop : ℕ → List ℕ → ℕ → RealtimeMessage → Result (RealtimeMessage × ℕ)
fields_loop zero input pos msg = stuck
fields_loop (suc fuel) input pos msg =
    if not (ltb pos (length input))
    then ok (msg, pos)
    else field_step input pos msg >>= after_round msg (fields_loop fuel input)

-- Each round passes a byte at least.
pub decode_realtime_item : TimeCodec → List ℕ → Result (RealtimeMessage × ℕ)
decode_realtime_item tc input = if ltb (length input) 6 then err (too_short (length input)) else do
  t6 ← slice input 0 6
  t ← decode_time6 tc t6
  fields_loop (suc (length input)) input 6 (no_fields t)

-- `DecodeRealtimeData` has the body of `decodeRealtimeItem`, and returns no position.
pub decode_realtime_data : TimeCodec → List ℕ → Result RealtimeMessage
unfolding decode_realtime_item
decode_realtime_data tc input = do (msg, pos) ← decode_realtime_item tc input; ok msg

-- What follows an item: the later ones, or the loop's end at an error.
abbrev pub after_item :
    (ℕ → Result (List RealtimeMessage))
    → Result (RealtimeMessage × ℕ)
    → Result (List RealtimeMessage)
after_item more (ok (item, consumed)) = do items ← more consumed; ok (item ∷ items)
after_item more (err e) = ok []
after_item more panic = panic
after_item more stuck = stuck

-- The items from `pos` on, of which `n` are announced still.
pub items_loop : TimeCodec → ℕ → List ℕ → ℕ → Result (List RealtimeMessage)
items_loop tc zero input pos = ok []
items_loop tc (suc n) input pos =
    if not (ltb pos (length input))
    then ok []
    else after_item (λ consumed. items_loop tc n input (pos + consumed))
        (decode_realtime_item tc (drop pos input))

pub decode_reissue_data : TimeCodec → List ℕ → Result ReissueMessage
decode_reissue_data tc input = if ltb (length input) 8 then err (too_short (length input)) else do
  t6 ← slice input 0 6
  t ← decode_time6 tc t6
  total ← uint16_at input 6
  items ← items_loop tc total input 8
  ok (record { info_time = t; data_items = items })
