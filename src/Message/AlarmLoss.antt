-- ===== src/Message/AlarmLoss.antt =====
-- Alarm fields: `findFieldEnd` takes their length from the message's time.
use gb32960_go_sdk.Base.{
  ℕ, suc, ◌+◌, ◌≤◌, ◌<◌, ◌≡◌, ◌≢◌, refl, List, [], ◌∷◌, ltb, inl, inr, length, Result, ok, err,
  panic, stuck, ◌>>=◌, Satisfies, >>=-Satisfies, >>=-after, Satisfies-mono, slice-length, index,
  slice, uint32_at, uint32_at_cursor, index_lt, slice_le, arith, Bool-cases, Option, Option-cases,
  none, some, lt→ltb,
}
use gb32960_go_sdk.GoTime.{IsCalendar}
use gb32960_go_sdk.Decoder.{TimeCodec}
use gb32960_go_sdk.Time6.{decode_time6}
use gb32960_go_sdk.Time6.RoundTrip.{decode_time6-IsCalendar}
use gb32960_go_sdk.Codec.{
  FieldId, vehicle, motor, fuel_cell, engine, position, extreme, alarm, voltage, temperature,
  field_id, has_decoder, decode_known, decode_field, Decoded, vehicle_of, motors_of, fuel_cell_of,
  engine_of, position_of, extreme_of, alarm_of, voltage_of, temperature_of, raw,
}
use gb32960_go_sdk.Codec.Safe
use gb32960_go_sdk.Packet.Fields.{RealtimeMessage}
use gb32960_go_sdk.Message.Store.{store}
use gb32960_go_sdk.Message.FieldEnd.{known_field_end, find_field_end}
use gb32960_go_sdk.Message.{
  no_fields, store_result, field_body, field_step, decode_realtime_item, decode_realtime_data,
}
use gb32960_go_sdk.Message.Safe.{RoundKeeps, fields_loop_rule}
use gb32960_go_sdk.Message.Bounds.{checked-Satisfies, From, find_field_end-From}

abbrev NotAlarm : Decoded → Type 0
NotAlarm (vehicle_of v) = Unit {0}
NotAlarm (motors_of v) = Unit {0}
NotAlarm (fuel_cell_of v) = Unit {0}
NotAlarm (engine_of v) = Unit {0}
NotAlarm (position_of v) = Unit {0}
NotAlarm (extreme_of v) = Unit {0}
NotAlarm (alarm_of v) = ⊥
NotAlarm (voltage_of v) = Unit {0}
NotAlarm (temperature_of v) = Unit {0}
NotAlarm (raw v) = Unit {0}

decode_known-NotAlarm :
    (f : FieldId) (i : List ℕ) → f ≢ alarm → Satisfies NotAlarm (decode_known f i)
unfolding decode_known
decode_known-NotAlarm vehicle i h =
    >>=-Satisfies NotAlarm _ _ (Safe.decode_vehicle_data-Returns i) λ _ _. tt
decode_known-NotAlarm motor i h =
    >>=-Satisfies NotAlarm _ _ (Safe.decode_motor_data-Returns i) λ _ _. tt
decode_known-NotAlarm fuel_cell i h =
    >>=-Satisfies NotAlarm _ _ (Safe.decode_fuel_cell_data-Returns i) λ _ _. tt
decode_known-NotAlarm engine i h =
    >>=-Satisfies NotAlarm _ _ (Safe.decode_engine_data-Returns i) λ _ _. tt
decode_known-NotAlarm position i h =
    >>=-Satisfies NotAlarm _ _ (Safe.decode_position_data-Returns i) λ _ _. tt
decode_known-NotAlarm extreme i h =
    >>=-Satisfies NotAlarm _ _ (Safe.decode_extreme_data-Returns i) λ _ _. tt
decode_known-NotAlarm alarm i h = absurd (h refl)
decode_known-NotAlarm voltage i h =
    >>=-Satisfies NotAlarm _ _ (Safe.decode_voltage_data-Returns i) λ _ _. tt
decode_known-NotAlarm temperature i h =
    >>=-Satisfies NotAlarm _ _ (Safe.decode_temperature_data-Returns i) λ _ _. tt

abbrev Alarmless : RealtimeMessage → Type 0
Alarmless msg = msg.alarm_data ≡ none

store_result-Alarmless :
    (msg : RealtimeMessage) (r : Result Decoded)
    → Alarmless msg
    → Satisfies NotAlarm r
    → Satisfies Alarmless (store_result msg r)
unfolding store_result store
store_result-Alarmless msg (ok (vehicle_of v)) h k = h
store_result-Alarmless msg (ok (motors_of v)) h k = h
store_result-Alarmless msg (ok (fuel_cell_of v)) h k = h
store_result-Alarmless msg (ok (engine_of v)) h k = h
store_result-Alarmless msg (ok (position_of v)) h k = h
store_result-Alarmless msg (ok (extreme_of v)) h k = h
store_result-Alarmless msg (ok (alarm_of v)) h k = absurd k
store_result-Alarmless msg (ok (voltage_of v)) h k = h
store_result-Alarmless msg (ok (temperature_of v)) h k = h
store_result-Alarmless msg (ok (raw v)) h k = h
store_result-Alarmless msg (err e) h k = h
store_result-Alarmless msg panic h k = k
store_result-Alarmless msg stuck h k = k

-- The bytes 1 to 4, read as a length, begin with the month.
time_as_length :
    (y mo : ℕ) (rest : List ℕ)
    → 1 ≤ mo
    → length rest + 2 < 16777216
    → 3 ≤ length rest
    → Satisfies (λ n. length rest + 2 < n) (uint32_at (y ∷ mo ∷ rest) 1)
time_as_length y mo [] dated small h = absurd (omega arith)
time_as_length y mo (d ∷ []) dated small h = absurd (omega arith)
time_as_length y mo (d ∷ ho ∷ []) dated small h = absurd (omega arith)
time_as_length y mo (d ∷ ho ∷ mi ∷ r) dated small h =
    rw (uint32_at_cursor (y ∷ mo ∷ d ∷ ho ∷ mi ∷ r) 1 mo d ho mi r refl) (omega arith)

abbrev AlarmlessRound : Option RealtimeMessage × ℕ → Type 0
AlarmlessRound = RoundKeeps Alarmless

FieldId-discrete : Discrete FieldId
FieldId-discrete = hlevel

-- No end, or one behind the bytes.
abbrev Outside : ℕ → Option ℕ → Type 0
Outside len none = Unit {0}
Outside len (some end) = len < end

-- A message whose second byte, the month, is not 0, and that is shorter than 2 ^ 24 bytes.
module _ (y mo : ℕ) (rest : List ℕ) (dated : 1 ≤ mo) (small : length rest + 2 < 16777216) where
  abbrev whole : List ℕ
  whole = y ∷ mo ∷ rest

  alarm_end : (pos : ℕ) → Satisfies (Outside (length whole)) (known_field_end alarm whole pos)
  unfolding known_field_end
  alarm_end pos = checked-Satisfies (Outside (length whole)) (length whole) (pos + 5) _ _ tt λ h.
      >>=-after (λ n. length whole < n) (Outside (length whole)) (uint32_at whole 1) _
        (Satisfies-mono (λ n. length rest + 2 < n) (λ n. length whole < n) _ (λ n k. omega arith)
          (time_as_length y mo rest dated small (omega arith)))
        λ n k. omega arith

  body-Outside :
      (pos : ℕ) (msg : RealtimeMessage) (b : ℕ) (end : Option ℕ)
      → Outside (length whole) end
      → Satisfies AlarmlessRound (field_body whole pos msg b end)
  unfolding field_body
  body-Outside pos msg b none h = tt
  body-Outside pos msg b (some end) h = rw (lt→ltb (length whole) end h) tt

  body_other :
      (pos : ℕ) (msg : RealtimeMessage) (b : ℕ) (end : Option ℕ)
      → Alarmless msg
      → ((i : List ℕ) → Satisfies NotAlarm (decode_field b i))
      → From (pos + 1) end
      → Satisfies AlarmlessRound (field_body whole pos msg b end)
  unfolding field_body
  body_other pos msg b none h k f = tt
  body_other pos msg b (some end) h k f =
      checked-Satisfies AlarmlessRound (length whole) end _ _ tt λ within.
        >>=-Satisfies AlarmlessRound (slice whole (pos + 1) end) _
          (slice_le whole (pos + 1) end f within)
          λ body _.
            >>=-after Alarmless AlarmlessRound (store_result msg (decode_field b body)) _
              (store_result-Alarmless msg (decode_field b body) h (k body)) λ msg' a. a

  known_Alarmless :
      (pos : ℕ) (msg : RealtimeMessage) (b : ℕ) (f : FieldId)
      → Alarmless msg
      → field_id b ≡ some f
      → Satisfies AlarmlessRound (find_field_end b whole (pos + 1) >>= field_body whole pos msg b)
  unfolding find_field_end decode_field
  known_Alarmless pos msg b f a e = elim (FieldId-discrete f alarm) [
    | yes is_alarm ↦
        rw (e, find_field_end, is_alarm)
          (>>=-after (Outside (length whole)) AlarmlessRound (known_field_end alarm whole (pos + 1))
            _ (alarm_end (pos + 1)) (body-Outside pos msg b))
    | no other ↦
        >>=-after (From (pos + 1)) AlarmlessRound (find_field_end b whole (pos + 1)) _
          (find_field_end-From b whole (pos + 1))
          (λ end k.
            body_other pos msg b end a (λ i. rw (e, decode_field) (decode_known-NotAlarm f i other))
              k)
  ]

  step_Alarmless :
      (pos : ℕ) (msg : RealtimeMessage)
      → pos < length whole
      → Alarmless msg
      → Satisfies AlarmlessRound (field_step whole pos msg)
  unfolding field_step has_decoder
  step_Alarmless pos msg h a =
      >>=-Satisfies AlarmlessRound (index whole pos) _ (index_lt whole pos h) λ b _.
        elim (Option-cases (field_id b)) [
          | inl e ↦ rw (e, has_decoder) tt
          | inr (f, e) ↦ rw (e, has_decoder) (known_Alarmless pos msg b f a e)
        ]

-- Alarm fields are lost. Where the month of a message's time is not 0 and the message is shorter
-- than 2 ^ 24 bytes, as a frame's data always are, `decode_realtime_data` returns no alarm data,
-- whatever fields follow the time: it gives a message without them, or an error.
pub decode_realtime_data_no_alarm :
    (tc : TimeCodec) (y mo : ℕ) (rest : List ℕ)
    → 1 ≤ mo
    → length rest + 2 < 16777216
    → Satisfies (λ msg. msg.alarm_data ≡ none) (decode_realtime_data tc (y ∷ mo ∷ rest))
unfolding decode_realtime_data decode_realtime_item
decode_realtime_data_no_alarm tc y mo rest dated small =
    let input : List ℕ = y ∷ mo ∷ rest in
    >>=-after (λ r. Alarmless r.0) Alarmless (decode_realtime_item tc input) _
      (elim (Bool-cases (ltb (length input) 6)) [
        | inl short ↦ rw short tt
        | inr long ↦ rw long (
            >>=-after (λ s. length s ≡ 6) (λ r. Alarmless r.0) (slice input 0 6) _
              (slice-length input 0 6 (omega arith) (ground arith))
              λ t6 e.
                >>=-after IsCalendar (λ r. Alarmless r.0) (decode_time6 tc t6) _
                  (decode_time6-IsCalendar tc t6 (omega arith))
                  λ t _.
                    fields_loop_rule Alarmless input
                      (λ pos msg h a. step_Alarmless y mo rest dated small pos msg h a)
                      (suc (length input)) 6 (no_fields t) (omega arith) refl)
      ])
      λ r a. a
