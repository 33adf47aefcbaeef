-- ===== src/Message/Safe.antt =====
-- The message decoders return on every input: no read leaves the bytes given, and no loop runs on.
use gb32960_go_sdk.Base.{
  ℕ, zero, suc, ◌+◌, ◌-◌, ◌<◌, ◌≡◌, List, ltb, not, inl, inr, length, drop, Result, ok, err, panic,
  stuck, Returns, >>=-Returns, Satisfies, >>=-Satisfies, Satisfies-Returns, Returns-Satisfies,
  slice-length, >>=-after, Satisfies-mono, Satisfies-both, index, slice, uint16_at, index_lt,
  slice_le, uint16_at_le, arith, Bool-cases, Option, none, some,
}
use gb32960_go_sdk.GoTime.{IsCalendar}
use gb32960_go_sdk.Time6.RoundTrip.{decode_time6-IsCalendar}
use gb32960_go_sdk.Decoder.{TimeCodec}
use gb32960_go_sdk.Time6.{decode_time6}
use gb32960_go_sdk.Codec.{has_decoder, decode_field, Decoded}
use gb32960_go_sdk.Codec.Safe.{decode_field-Returns}
use gb32960_go_sdk.Packet.Fields.{RealtimeMessage}
use gb32960_go_sdk.Message.FieldEnd.{find_field_end}
use gb32960_go_sdk.Message.{
  no_fields, store_result, field_body, field_step, fields_loop, after_round, decode_realtime_item,
  decode_realtime_data, after_item, items_loop, decode_reissue_data,
}
use gb32960_go_sdk.Message.Bounds.{checked-Satisfies, From, find_field_end-From}

store_result-Returns :
    (msg : RealtimeMessage) (r : Result Decoded) → Returns r → Returns (store_result msg r)
unfolding store_result
store_result-Returns msg (ok x) h = tt
store_result-Returns msg (err e) h = tt
store_result-Returns msg panic h = h
store_result-Returns msg stuck h = h

-- A round that goes on has passed a byte at least.
abbrev pub Past : ℕ → Option RealtimeMessage × ℕ → Type 0
Past pos (none, pos') = Unit {0}
Past pos (some msg, pos') = pos < pos'

field_body-Past :
    (input : List ℕ) (pos : ℕ) (msg : RealtimeMessage) (b : ℕ) (end : Option ℕ)
    → From (pos + 1) end
    → Satisfies (Past pos) (field_body input pos msg b end)
unfolding field_body
field_body-Past input pos msg b none h = tt
field_body-Past input pos msg b (some end) h =
    checked-Satisfies (Past pos) (length input) end _ _ tt λ k.
      >>=-Satisfies _ (slice input (pos + 1) end) _ (slice_le input (pos + 1) end h k) λ body _.
        >>=-Satisfies _ (store_result msg (decode_field b body)) _
          (store_result-Returns msg (decode_field b body) (decode_field-Returns b body))
          λ msg' _. omega arith

pub field_step-Past :
    (input : List ℕ) (pos : ℕ) (msg : RealtimeMessage)
    → pos < length input
    → Satisfies (Past pos) (field_step input pos msg)
unfolding field_step
field_step-Past input pos msg h =
    >>=-Satisfies (Past pos) (index input pos) _ (index_lt input pos h) λ b _.
      elim (Bool-cases (not (has_decoder b))) [
        | inl unknown ↦ rw unknown tt
        | inr known ↦ rw known (
            >>=-after (From (pos + 1)) (Past pos) (find_field_end b input (pos + 1)) _
              (find_field_end-From b input (pos + 1)) (field_body-Past input pos msg b))
      ]

-- A round that goes on keeps a property of the message.
abbrev pub RoundKeeps : (RealtimeMessage → Type 0) → Option RealtimeMessage × ℕ → Type 0
RoundKeeps P (none, pos) = Unit {0}
RoundKeeps P (some msg, pos) = P msg

module _ (P : RealtimeMessage → Type 0) (input : List ℕ) where
  after_round-keeps :
      (pos : ℕ) (msg : RealtimeMessage) (more : ℕ → RealtimeMessage → Result (RealtimeMessage × ℕ))
      → P msg
      → ((pos' : ℕ) (msg' : RealtimeMessage)
          → pos < pos'
          → P msg'
          → Satisfies (λ r. P r.0) (more pos' msg'))
      → (r : Option RealtimeMessage × ℕ) → Past pos r × RoundKeeps P r
      → Satisfies (λ r. P r.0) (after_round msg more r)
  after_round-keeps pos msg more p h (none, pos') k = p
  after_round-keeps pos msg more p h (some msg', pos') k = h pos' msg' k.0 k.1

  -- The loop's rule: the bytes left bound the rounds, and a property that each round keeps holds
  -- of the message that the loop returns.
  pub fields_loop_rule :
      ((pos : ℕ) (msg : RealtimeMessage)
        → pos < length input
        → P msg
        → Satisfies (RoundKeeps P) (field_step input pos msg))
      → (fuel pos : ℕ) (msg : RealtimeMessage) → length input - pos < fuel
      → P msg
      → Satisfies (λ r. P r.0) (fields_loop fuel input pos msg)
  unfolding fields_loop
  fields_loop_rule keep zero pos msg h p = absurd (omega arith)
  fields_loop_rule keep (suc fuel) pos msg h p = elim (Bool-cases (not (ltb pos (length input)))) [
    | inl done ↦ rw done p
    | inr more ↦
        let lt : pos < length input = ground arith in
        rw more (
          >>=-after (λ r. Past pos r × RoundKeeps P r) (λ r. P r.0) (field_step input pos msg) _
            (Satisfies-both (Past pos) (RoundKeeps P) (field_step input pos msg)
              (field_step-Past input pos msg lt) (keep pos msg lt p))
            (after_round-keeps pos msg (fields_loop fuel input) p
              (λ pos' msg' past p'. fields_loop_rule keep fuel pos' msg' (omega arith) p')))
  ]

fields_loop-Returns :
    (input : List ℕ) (msg : RealtimeMessage)
    → Returns (fields_loop (suc (length input)) input 6 msg)
fields_loop-Returns input msg = Satisfies-Returns _ _ (
    fields_loop_rule (λ _. Unit {0}) input
      (λ pos m h _.
        Satisfies-mono (Past pos) (RoundKeeps (λ _. Unit {0})) _ (trivial pos)
          (field_step-Past input pos m h))
      (suc (length input)) 6 msg (omega arith) tt)
  where
    trivial : (pos : ℕ) (r : Option RealtimeMessage × ℕ) → Past pos r → RoundKeeps (λ _. Unit {0}) r
    trivial pos (none, pos') h = tt
    trivial pos (some m, pos') h = tt

-- For all bytes `decode_realtime_item` gives a value or an error.
pub decode_realtime_item-Returns :
    (tc : TimeCodec) (input : List ℕ) → Returns (decode_realtime_item tc input)
unfolding decode_realtime_item
decode_realtime_item-Returns tc input = elim (Bool-cases (ltb (length input) 6)) [
  | inl short ↦ rw short tt
  | inr long ↦ rw long (
      Satisfies-Returns (λ _. Unit {0}) _
        (>>=-after (λ s. length s ≡ 6) (λ _. Unit {0}) (slice input 0 6) _
          (slice-length input 0 6 (omega arith) (ground arith))
          λ t6 e.
            >>=-after IsCalendar (λ _. Unit {0}) (decode_time6 tc t6) _
              (decode_time6-IsCalendar tc t6 (omega arith))
              λ t _. Returns-Satisfies _ (fields_loop-Returns input (no_fields t))))
]

-- For all bytes, in both time formats, `decode_realtime_data` gives a value or an error: it reads
-- and slices within the bytes, whatever ids and counts they hold, and its loop ends.
pub decode_realtime_data-Returns :
    (tc : TimeCodec) (input : List ℕ) → Returns (decode_realtime_data tc input)
unfolding decode_realtime_data
decode_realtime_data-Returns tc input =
    >>=-Returns (decode_realtime_item tc input) _ (decode_realtime_item-Returns tc input) λ r _. tt

after_item-Returns :
    (more : ℕ → Result (List RealtimeMessage)) (r : Result (RealtimeMessage × ℕ))
    → ((k : ℕ) → Returns (more k))
    → Returns r
    → Returns (after_item more r)
after_item-Returns more (ok (item, consumed)) h k =
    >>=-Returns (more consumed) _ (h consumed) λ _ _. tt
after_item-Returns more (err e) h k = tt
after_item-Returns more panic h k = k
after_item-Returns more stuck h k = k

items_loop-Returns :
    (tc : TimeCodec) (n : ℕ) (input : List ℕ) (pos : ℕ) → Returns (items_loop tc n input pos)
unfolding items_loop
items_loop-Returns tc zero input pos = tt
items_loop-Returns tc (suc n) input pos = elim (Bool-cases (not (ltb pos (length input)))) [
  | inl done ↦ rw done tt
  | inr more ↦ rw more (
      after_item-Returns (λ k. items_loop tc n input (pos + k))
        (decode_realtime_item tc (drop pos input)) (λ k. items_loop-Returns tc n input (pos + k))
        (decode_realtime_item-Returns tc (drop pos input)))
]

-- For all bytes, in both time formats, `decode_reissue_data` gives a value or an error: its items,
-- whatever number of them is announced, are cut within the bytes.
pub decode_reissue_data-Returns :
    (tc : TimeCodec) (input : List ℕ) → Returns (decode_reissue_data tc input)
unfolding decode_reissue_data
decode_reissue_data-Returns tc input = elim (Bool-cases (ltb (length input) 8)) [
  | inl short ↦ rw short tt
  | inr long ↦ rw long (
      Satisfies-Returns (λ _. Unit {0}) _
        (>>=-after (λ s. length s ≡ 6) (λ _. Unit {0}) (slice input 0 6) _
          (slice-length input 0 6 (omega arith) (ground arith))
          λ t6 e.
            >>=-after IsCalendar (λ _. Unit {0}) (decode_time6 tc t6) _
              (decode_time6-IsCalendar tc t6 (omega arith))
              λ t _.
                >>=-Satisfies _ (uint16_at input 6) _ (uint16_at_le input 6 (ground arith))
                  λ total _.
                    >>=-Satisfies _ (items_loop tc total input 8) _
                      (items_loop-Returns tc total input 8) λ _ _. tt))
]
