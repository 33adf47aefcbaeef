-- ===== src/Message/Reissue.antt =====
-- A reissue message is cut into its items, each a time and fields of its own.
use gb32960_go_sdk.Base.{
  ℕ, ◌+◌, ◌/◌, ◌%◌, ◌<◌, ◌≡◌, refl, sym, ap, ◌∙◌, List, [], ◌∷◌, ◌++◌, length, map, drop, ok, arith,
  length-append, length-drop, drop-append, slice_cursor, uint16_at_cursor, advance_cursor, le→ltb,
  lt→ltb, append_assoc, put_uint16, uint16_bytes,
}
use gb32960_go_sdk.GoTime.{Time}
use gb32960_go_sdk.Decoder.{TimeCodec}
use gb32960_go_sdk.Time6.{decode_time6}
use gb32960_go_sdk.Packet.Fields.{RealtimeMessage}
use gb32960_go_sdk.Message.Cut.{Field, AllKnown, IsEnd, join, put_all, decode_realtime_item-join}
use gb32960_go_sdk.Message.{no_fields, items_loop, decode_reissue_data}

pub record Item : Type 0 where
  pub time6 : List ℕ
  pub time : Time
  pub fields : List Field

pub record IsItem (tc : TimeCodec) (x : Item) : Type 0 where
  pub six : length x.time6 ≡ 6
  pub decoded : decode_time6 tc x.time6 ≡ ok x.time
  pub known : AllKnown x.fields

abbrev pub put_items : List Item → List ℕ
put_items [] = []
put_items (x ∷ xs) = x.time6 ++ (join x.fields ++ put_items xs)

abbrev pub message : Item → RealtimeMessage
message x = put_all (no_fields x.time) x.fields

-- Items of which each is followed by the end or a byte that is no id.
abbrev pub AllItems : TimeCodec → List Item → Type 0
AllItems tc [] = Unit {0}
AllItems tc (x ∷ xs) = IsItem tc x × IsEnd (put_items xs) × AllItems tc xs

items_loop_row :
    (tc : TimeCodec) (xs : List Item) (input : List ℕ) (pos : ℕ)
    → AllItems tc xs
    → drop pos input ≡ put_items xs
    → items_loop tc (length xs) input pos ≡ ok (map message xs)
unfolding items_loop
items_loop_row tc [] input pos k e = refl
items_loop_row tc (x ∷ xs) input pos k e =
    let size = length-append x.time6 (join x.fields ++ put_items xs) in
    let six = k.0.six in
    let after =
      advance_cursor input pos (pos + (6 + length (join x.fields))) (x.time6 ++ join x.fields)
        (put_items xs) (e ∙ sym (append_assoc x.time6 (join x.fields) (put_items xs)))
        (omega (arith, length-append x.time6 (join x.fields))) in
    rw
      (
        lt→ltb pos (length input) (omega (arith, size, length-drop pos input, ap length e)),
        e,
        decode_realtime_item-join tc x.time6 x.time x.fields (put_items xs) k.0.six k.0.decoded
            k.0.known k.1,
        items_loop_row tc xs input (pos + (6 + length (join x.fields))) k.2 after,
      )
      refl

-- A reissue message that is a time of six bytes, the number of its items, less than 65536, and the
-- items, each a time of six bytes and a row of known fields, is decoded to its time and to the
-- messages of all items in their order, provided that no item but the first begins with a byte that is
-- an id.
pub decode_reissue_data-put_items :
    (tc : TimeCodec) (t6 : List ℕ) (t : Time) (xs : List Item)
    → length t6 ≡ 6
    → decode_time6 tc t6 ≡ ok t
    → length xs < 65536
    → AllItems tc xs
    → decode_reissue_data tc (t6 ++ (put_uint16 (length xs) ++ put_items xs))
      ≡ ok (record { info_time = t; data_items = map message xs })
unfolding decode_reissue_data
decode_reissue_data-put_items tc t6 t xs six time few k =
    let rest = put_uint16 (length xs) ++ put_items xs in
    let input = t6 ++ rest in
    let size = length-append t6 rest in
    let number = drop-append 6 t6 rest (sym six) in
    rw
      (
        le→ltb (length input) 8 (omega (arith, size)),
        slice_cursor input 0 6 t6 rest refl (omega arith) (omega arith),
        time,
        uint16_at_cursor input 6 (length xs / 256 % 256) (length xs % 256) (put_items xs) number,
        uint16_bytes (length xs) few,
        items_loop_row tc xs input 8 k
            (advance_cursor input 6 8 (put_uint16 (length xs)) (put_items xs) number refl),
      )
      refl
