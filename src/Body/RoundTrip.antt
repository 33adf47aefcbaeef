-- ===== src/Body/RoundTrip.antt =====
-- The bodies that the `Send` methods write, decoded again.
use gb32960_go_sdk.Base.{
  ℕ, suc, ◌+◌, ◌%◌, ◌≤◌, ◌<◌, ◌≡◌, refl, sym, ap, ◌∙◌, List, [], ◌∷◌, ◌++◌, length, drop, All, ok,
  put_uint32, arith, append_assoc, append-nil, length-append, length-drop, drop-append,
  index_cursor, slice_cursor, uint16_at_cursor, uint32_at_cursor, advance_cursor, uint32_bytes,
  le→ltb,
}
use gb32960_go_sdk.GoTime.{Time, IsCalendar}
use gb32960_go_sdk.Decoder.{bcd}
use gb32960_go_sdk.Time6.{encode_bcd_time}
use gb32960_go_sdk.Time6.RoundTrip.{decode_time6-encode_bcd_time}
use gb32960_go_sdk.Packet.Bodies.{ParamItem}
use gb32960_go_sdk.Body.{
  time_at_start, encode_param_string, decode_param_string, decode_plat_login_response,
  decode_plat_logout_response, ids_from, decode_param_query_data, params_from,
  decode_param_setting_data, plat_login_body, plat_logout_body, put_ids, param_query_body,
  put_params, param_setting_body,
}

-- The times that six bytes can carry.
pub record IsSendable (t : Time) : Type 0 where
  pub calendar : IsCalendar t
  pub from_2000 : 2000 ≤ t.year
  pub to_2159 : t.year < 2160

pub length-encode_bcd_time : (t : Time) → length (encode_bcd_time t) ≡ 6
unfolding encode_bcd_time
length-encode_bcd_time t = refl

module _ (t : Time) (s : IsSendable t) (rest : List ℕ) where
  abbrev dated : List ℕ
  dated = encode_bcd_time t ++ rest

  time_at_start-encoded : time_at_start bcd dated ≡ ok t
  unfolding time_at_start
  time_at_start-encoded =
      rw
        (slice_cursor dated 0 6 (encode_bcd_time t) rest refl (omega arith)
          (omega (arith, length-encode_bcd_time t)))
        (decode_time6-encode_bcd_time t s.calendar s.from_2000 s.to_2159)

  after_time : drop 6 dated ≡ rest
  after_time = drop-append 6 (encode_bcd_time t) rest (sym (length-encode_bcd_time t))

  length-dated : length dated ≡ 6 + length rest
  length-dated = omega (arith, length-append (encode_bcd_time t) rest, length-encode_bcd_time t)

length-encode_param_string : (s : List ℕ) → length (encode_param_string s) ≡ 1 + length s
unfolding encode_param_string
length-encode_param_string s = omega arith

decode_param_string-encode :
    (s rest : List ℕ)
    → length s < 256
    → decode_param_string (encode_param_string s ++ rest) ≡ ok (s, 1 + length s)
unfolding decode_param_string encode_param_string
decode_param_string-encode s rest h =
    let e : length s % 256 ≡ length s = omega arith in
    rw (
      e,
      le→ltb (suc (length (s ++ rest))) (1 + length s) (omega (arith, length-append s rest)),
      slice_cursor (length s ∷ (s ++ rest)) 1 (1 + length s) s rest refl (omega arith) refl,
    )

-- The body that `SendPlatLogin` writes is decoded to the time, the user name and the password that
-- it was given, with the sequence number 0, for strings shorter than 256 bytes.
pub decode_plat_login_response-body :
    (t : Time) (username password : List ℕ)
    → IsSendable t
    → length username < 256
    → length password < 256
    → decode_plat_login_response bcd (plat_login_body t username password)
      ≡ ok (record { login_time = t; sequence = 0; username = username; password = password })
unfolding decode_plat_login_response plat_login_body
decode_plat_login_response-body t username password s hu hp =
    let user = encode_param_string username in
    let pass = encode_param_string password in
    let rest : List ℕ = 0 ∷ 0 ∷ (user ++ pass) in
    let input = encode_bcd_time t ++ rest in
    let at6 : drop 6 input ≡ rest = after_time t s rest in
    let at8 : drop 8 input ≡ user ++ pass =
      advance_cursor input 6 8 (0 ∷ 0 ∷ []) (user ++ pass) at6 refl in
    let at_pass : drop (8 + (1 + length username)) input ≡ pass ++ [] =
      advance_cursor input 8 (8 + (1 + length username)) user pass at8
        (omega (arith, length-encode_param_string username))
      ∙ sym (append-nil pass) in
    let size : length input ≡ 8 + (length user + length pass) =
      omega (arith, length-dated t s rest, length-append user pass) in
    let last : decode_param_string pass ≡ ok (password, 1 + length password) =
      rw (append-nil pass) at (decode_param_string-encode password [] hp) in
    let whole =
      slice_cursor input 8 (length input) (user ++ pass) [] (at8 ∙ sym (append-nil (user ++ pass)))
        (omega (arith, size)) (omega (arith, size, length-append user pass)) in
    let end =
      slice_cursor input (8 + (1 + length username)) (length input) pass [] at_pass
        (omega (arith, size, length-encode_param_string username))
        (omega (arith, size, length-encode_param_string username)) in
    rw (
      le→ltb (length input) 8 (omega (arith, length-dated t s rest)),
      time_at_start-encoded t s rest,
      uint16_at_cursor input 6 0 0 (user ++ pass) at6,
      whole,
      decode_param_string-encode username pass hu,
      end,
      last,
    )

ids_from-put_ids :
    (ids input : List ℕ) (pos : ℕ) (r : List ℕ)
    → All (λ id. id < 4294967296) ids
    → drop pos input ≡ put_ids ids ++ r
    → ids_from (length ids) input pos ≡ ok ids
unfolding ids_from
ids_from-put_ids [] input pos r h e = refl
ids_from-put_ids (id ∷ ids) input pos r h e = rw (
  le→ltb (length input) (pos + 4) (omega (arith, length-drop pos input, ap length e)),
  uint32_at_cursor input pos _ _ _ _ (put_ids ids ++ r) e,
  uint32_bytes id h.0,
  ids_from-put_ids ids input (pos + 4) r h.1
      (advance_cursor input pos (pos + 4) (put_uint32 id) (put_ids ids ++ r) e refl),
)

-- The body that `SendParamQuery` writes is decoded to the time and the ids that it was given, for
-- at most 255 ids of 32 bits.
pub decode_param_query_data-body :
    (t : Time) (ids : List ℕ)
    → IsSendable t
    → length ids < 256
    → All (λ id. id < 4294967296) ids
    → decode_param_query_data bcd (param_query_body t ids)
      ≡ ok (record { query_time = t; count = length ids; param_ids = ids })
unfolding decode_param_query_data param_query_body
decode_param_query_data-body t ids s h k =
    let e : length ids % 256 ≡ length ids = omega arith in
    let rest : List ℕ = (length ids % 256) ∷ put_ids ids in
    let input = encode_bcd_time t ++ rest in
    let at6 : drop 6 input ≡ rest = after_time t s rest in
    let at7 : drop 7 input ≡ put_ids ids ++ [] =
      advance_cursor input 6 7 ((length ids % 256) ∷ []) (put_ids ids) at6 refl
      ∙ sym (append-nil (put_ids ids)) in
    rw (
      le→ltb (length input) 7 (omega (arith, length-dated t s rest)),
      time_at_start-encoded t s rest,
      index_cursor input 6 (length ids % 256) (put_ids ids) at6,
      ap (λ n. ids_from n input 7) e ∙ ids_from-put_ids ids input 7 [] k at7,
      e,
    )

-- The parameters that one byte can count the length of.
abbrev pub IsParam : ParamItem → Type 0
IsParam p = (p.id < 4294967296) × (length p.value < 256)

params_from-put_params :
    (ps : List ParamItem) (input : List ℕ) (pos : ℕ) (r : List ℕ)
    → All IsParam ps
    → drop pos input ≡ put_params ps ++ r
    → params_from (length ps) input pos ≡ ok ps
unfolding params_from
params_from-put_params [] input pos r h e = refl
params_from-put_params (p ∷ ps) input pos r h e =
    let e256 : length p.value % 256 ≡ length p.value = omega arith in
    let after = put_params ps ++ r in
    let n = length p.value in
    let e' : drop pos input ≡ put_uint32 p.id ++ ((n % 256) ∷ (p.value ++ after)) =
      e ∙ simp append_assoc in
    let at5 : drop (pos + 5) input ≡ p.value ++ after =
      advance_cursor input pos (pos + 5) (put_uint32 p.id ++ ((n % 256) ∷ [])) (p.value ++ after) e'
        refl in
    let at4 : drop (pos + 4) input ≡ (n % 256) ∷ (p.value ++ after) =
      advance_cursor input pos (pos + 4) (put_uint32 p.id) ((n % 256) ∷ (p.value ++ after)) e'
        refl in
    let next : drop (pos + 5 + n) input ≡ after =
      advance_cursor input (pos + 5) (pos + 5 + n) p.value after at5 refl in
    let long : pos + 5 + n ≤ length input =
      omega (arith, length-drop (pos + 4) input, ap length at4, length-append p.value after) in
    rw (
      le→ltb (length input) (pos + 5) (omega (arith, long)),
      uint32_at_cursor input pos _ _ _ _ ((n % 256) ∷ (p.value ++ after)) e',
      uint32_bytes p.id h.0.0,
      index_cursor input (pos + 4) (n % 256) (p.value ++ after) at4,
      e256,
      le→ltb (length input) (pos + 5 + n) long,
      slice_cursor input (pos + 5) (pos + 5 + n) p.value after at5 (omega (arith, long)) refl,
      params_from-put_params ps input (pos + 5 + n) r h.1 next,
    )

-- The body that `SendParamSetting` writes is decoded to the time and the parameters that it was
-- given, for at most 255 parameters with ids of 32 bits and values of at most 255 bytes.
pub decode_param_setting_data-body :
    (t : Time) (ps : List ParamItem)
    → IsSendable t
    → length ps < 256
    → All IsParam ps
    → decode_param_setting_data bcd (param_setting_body t ps)
      ≡ ok (record { setting_time = t; count = length ps; params = ps })
unfolding decode_param_setting_data param_setting_body
decode_param_setting_data-body t ps s h k =
    let e : length ps % 256 ≡ length ps = omega arith in
    let rest : List ℕ = (length ps % 256) ∷ put_params ps in
    let input = encode_bcd_time t ++ rest in
    let at6 : drop 6 input ≡ rest = after_time t s rest in
    let at7 : drop 7 input ≡ put_params ps ++ [] =
      advance_cursor input 6 7 ((length ps % 256) ∷ []) (put_params ps) at6 refl
      ∙ sym (append-nil (put_params ps)) in
    rw (
      le→ltb (length input) 7 (omega (arith, length-dated t s rest)),
      time_at_start-encoded t s rest,
      index_cursor input 6 (length ps % 256) (put_params ps) at6,
      ap (λ n. params_from n input 7) e ∙ params_from-put_params ps input 7 [] k at7,
      e,
    )

-- The body that `SendPlatLogout` writes is decoded to the time that it was given, with the
-- sequence number 0.
pub decode_plat_logout_response-body :
    (t : Time)
    → IsSendable t
    → decode_plat_logout_response bcd (plat_logout_body t)
      ≡ ok (record { logout_time = t; sequence = 0 })
unfolding decode_plat_logout_response plat_logout_body
decode_plat_logout_response-body t s =
    let rest : List ℕ = 0 ∷ 0 ∷ [] in
    let input = encode_bcd_time t ++ rest in
    rw (
      le→ltb (length input) 8 (omega (arith, length-dated t s rest)),
      time_at_start-encoded t s rest,
      uint16_at_cursor input 6 0 0 [] (after_time t s rest),
    )
