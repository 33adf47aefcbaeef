-- ===== src/Message/Cut.antt =====
-- A message of well-formed fields is cut into these fields, and each of them is stored.
use gb32960_go_sdk.Base.{
  ℕ, zero, suc, ◌+◌, ◌-◌, ◌≤◌, ◌<◌, ◌≡◌, refl, sym, ap, true, List, [], ◌∷◌, ◌++◌, some, length,
  drop, Result, ok, err, panic, stuck, Returns, arith, length-append, length-drop, drop-append,
  index_cursor, slice_cursor, advance_cursor, le→ltb, lt→ltb, append_assoc, append-nil, false, ◌∙◌,
}
use gb32960_go_sdk.GoTime.{Time}
use gb32960_go_sdk.Decoder.{TimeCodec}
use gb32960_go_sdk.Time6.{decode_time6}
use gb32960_go_sdk.Codec.{FieldId, field_id, Decoded, decode_field, has_decoder}
use gb32960_go_sdk.Codec.Safe.{decode_field-Returns}
use gb32960_go_sdk.Packet.Fields.{RealtimeMessage}
use gb32960_go_sdk.Message.Store.{store}
use gb32960_go_sdk.Message.FieldEnd.{find_field_end}
use gb32960_go_sdk.Message.Fields.{IsField, known_field_end-IsField}
use gb32960_go_sdk.Message.{
  no_fields, store_result, field_body, field_step, fields_loop, decode_realtime_item,
  decode_realtime_data,
}

pub record Field : Type 0 where
  pub id : ℕ
  pub body : List ℕ

-- A field of the table, with the bytes that its id asks for.
abbrev pub IsKnown : Field → Type 0
IsKnown x = (f : FieldId) × (field_id x.id ≡ some f) × IsField f x.body

abbrev pub AllKnown : List Field → Type 0
AllKnown [] = Unit {0}
AllKnown (x ∷ xs) = IsKnown x × AllKnown xs

abbrev pub join : List Field → List ℕ
join [] = []
join (x ∷ xs) = x.id ∷ (x.body ++ join xs)

-- The message with a field that its decoder gives; one that it refuses is left out.
abbrev pub with_decoded : RealtimeMessage → Result Decoded → RealtimeMessage
with_decoded msg (ok d) = store msg d
with_decoded msg (err e) = msg
with_decoded msg panic = msg
with_decoded msg stuck = msg

abbrev pub put_all : RealtimeMessage → List Field → RealtimeMessage
put_all msg [] = msg
put_all msg (x ∷ xs) = put_all (with_decoded msg (decode_field x.id x.body)) xs

store_result_ok :
    (msg : RealtimeMessage) (r : Result Decoded)
    → Returns r
    → store_result msg r ≡ ok (with_decoded msg r)
unfolding store_result
store_result_ok msg (ok x) h = refl
store_result_ok msg (err e) h = refl
store_result_ok msg panic h = absurd h
store_result_ok msg stuck h = absurd h

module _ (input : List ℕ) (pos : ℕ) (msg : RealtimeMessage) (x : Field) (rest : List ℕ)
    (k : IsKnown x) (e : drop pos input ≡ x.id ∷ (x.body ++ rest)) where
  at_body : drop (pos + 1) input ≡ x.body ++ rest
  at_body = advance_cursor input pos (pos + 1) (x.id ∷ []) (x.body ++ rest) e refl

  within : pos + 1 + length x.body ≤ length input
  within = omega (arith, length-drop pos input, ap length e, length-append x.body rest)

  found : find_field_end x.id input (pos + 1) ≡ ok (some (pos + 1 + length x.body))
  unfolding find_field_end
  found =
      rw (k.1, find_field_end)
        (known_field_end-IsField k.0 x.body input rest (pos + 1) k.2 at_body within)

  has : has_decoder x.id ≡ true
  unfolding has_decoder
  has = rw (k.1, has_decoder) refl

  field_step_known :
      field_step input pos msg
      ≡ ok (some (with_decoded msg (decode_field x.id x.body)), pos + 1 + length x.body)
  unfolding field_step field_body
  field_step_known =
      rw
        (
          index_cursor input pos x.id (x.body ++ rest) e,
          has,
          found,
          le→ltb (length input) (pos + 1 + length x.body) within,
          slice_cursor input (pos + 1) (pos + 1 + length x.body) x.body rest at_body
              (omega (arith, within)) refl,
          store_result_ok msg (decode_field x.id x.body) (decode_field-Returns x.id x.body),
        )
        refl

  after_known : drop (pos + 1 + length x.body) input ≡ rest
  after_known = advance_cursor input (pos + 1) (pos + 1 + length x.body) x.body rest at_body refl

-- What ends a row of fields: the end of the input, or a byte that is no id.
abbrev pub IsEnd : List ℕ → Type 0
IsEnd [] = Unit {0}
IsEnd (b ∷ r) = has_decoder b ≡ false

fields_loop_end :
    (rest : List ℕ) (fuel : ℕ) (input : List ℕ) (pos : ℕ) (msg : RealtimeMessage)
    → IsEnd rest
    → drop pos input ≡ rest
    → length input - pos < fuel
    → pos ≤ length input
    → fields_loop fuel input pos msg ≡ ok (msg, pos)
unfolding fields_loop field_step
fields_loop_end rest zero input pos msg n e h p = absurd (omega arith)
fields_loop_end [] (suc fuel) input pos msg n e h p =
    rw (le→ltb pos (length input) (omega (arith, length-drop pos input, ap length e))) refl
fields_loop_end (b ∷ r) (suc fuel) input pos msg n e h p =
    rw
      (
        lt→ltb pos (length input) (omega (arith, length-drop pos input, ap length e)),
        index_cursor input pos b r e,
        n,
      )
      refl

fields_loop_known :
    (xs : List Field) (fuel : ℕ) (input : List ℕ) (pos : ℕ) (msg : RealtimeMessage) (rest : List ℕ)
    → AllKnown xs
    → IsEnd rest
    → drop pos input ≡ join xs ++ rest
    → length input - pos < fuel
    → pos ≤ length input
    → fields_loop fuel input pos msg ≡ ok (put_all msg xs, pos + length (join xs))
unfolding fields_loop
fields_loop_known xs zero input pos msg rest k n e h p = absurd (omega arith)
fields_loop_known [] (suc fuel) input pos msg rest k n e h p =
    fields_loop_end rest (suc fuel) input pos msg n e h p ∙ ap (λ q. ok (msg, q)) (omega arith)
fields_loop_known (x ∷ xs) (suc fuel) input pos msg rest k n e h p =
    let tail = join xs ++ rest in
    let e' = e ∙ ap (◌∷◌ x.id) (append_assoc x.body (join xs) rest) in
    let inside = within input pos msg x tail k.0 e' in
    let next : pos + 1 + length x.body + length (join xs) ≡ pos + length (join (x ∷ xs)) =
      omega (arith, length-append x.body (join xs)) in
    rw
      (
        lt→ltb pos (length input) (omega (arith, inside)),
        field_step_known input pos msg x tail k.0 e',
      )
      (fields_loop_known xs fuel input (pos + 1 + length x.body)
          (with_decoded msg (decode_field x.id x.body)) rest k.1 n
          (after_known input pos msg x tail k.0 e') (omega (arith, inside)) inside
        ∙ ap (λ q. ok (put_all (with_decoded msg (decode_field x.id x.body)) xs, q)) next)

-- An item that stands in front of the end of a row of fields.
pub decode_realtime_item-join :
    (tc : TimeCodec) (t6 : List ℕ) (t : Time) (xs : List Field) (rest : List ℕ)
    → length t6 ≡ 6
    → decode_time6 tc t6 ≡ ok t
    → AllKnown xs
    → IsEnd rest
    → decode_realtime_item tc (t6 ++ (join xs ++ rest))
      ≡ ok (put_all (no_fields t) xs, 6 + length (join xs))
unfolding decode_realtime_item
decode_realtime_item-join tc t6 t xs rest six time k n =
    let input = t6 ++ (join xs ++ rest) in
    let size = length-append t6 (join xs ++ rest) in
    rw
      (
        le→ltb (length input) 6 (omega (arith, size)),
        slice_cursor input 0 6 t6 (join xs ++ rest) refl (omega arith) (omega arith),
        time,
      )
      (fields_loop_known xs (suc (length input)) input 6 (no_fields t) rest k n
        (drop-append 6 t6 (join xs ++ rest) (sym six)) (omega arith) (omega (arith, size)))

-- A message that is a time of six bytes and a row of fields, each an id of the table other than
-- that of alarms and the bytes that this id asks for, is decoded to the message with that time in
-- which the decoded fields are stored one after the other: the loop cuts every field where it ends.
-- A field that its decoder refuses is left out.
pub decode_realtime_data-join :
    (tc : TimeCodec) (t6 : List ℕ) (t : Time) (xs : List Field)
    → length t6 ≡ 6
    → decode_time6 tc t6 ≡ ok t
    → AllKnown xs
    → decode_realtime_data tc (t6 ++ join xs) ≡ ok (put_all (no_fields t) xs)
unfolding decode_realtime_data
decode_realtime_data-join tc t6 t xs six time k =
    let item = decode_realtime_item-join tc t6 t xs [] six time k tt in
    let whole : t6 ++ (join xs ++ []) ≡ t6 ++ join xs = ap (◌++◌ t6) (append-nil (join xs)) in
    rw (sym whole, item) refl
