-- ===== src/Body/Safe.antt =====
-- The body decoders return on every input: no read leaves the bytes given.
use gb32960_go_sdk.Base.{
  ℕ, zero, suc, ◌+◌, ◌≤◌, ◌≡◌, List, ltb, not, inl, inr, length, Result, ◌>>=◌, Returns,
  >>=-Returns, Satisfies-Returns, checked, read_then, read16_then, read32_then, slice, slice_le,
  slice_ok, Satisfies, ◌-◌, ◌∷◌, [], slice-length, >>=-after, arith, Bool-cases,
}
use gb32960_go_sdk.GoTime.{Time, IsCalendar}
use gb32960_go_sdk.Decoder.{TimeCodec}
use gb32960_go_sdk.Time6.RoundTrip.{decode_time6-IsCalendar}
use gb32960_go_sdk.Body.{
  time_at_start, configs_from, read_configs, decode_login_data, decode_logout_data,
  decode_param_string, decode_plat_login_response, decode_plat_logout_response, ids_from,
  decode_param_query_data, params_from, decode_param_setting_data,
}

time_then {ℓ} :
    {B : Type ℓ} (tc : TimeCodec) (input : List ℕ) (f : Time → Result B)
    → 6 ≤ length input
    → ((t : Time) → Returns (f t))
    → Returns (time_at_start tc input >>= f)
unfolding time_at_start
time_then tc input f h k =
    >>=-Returns (time_at_start tc input) f
      (Satisfies-Returns IsCalendar _ (
        >>=-after (λ s. length s ≡ 6) IsCalendar (slice input 0 6) _
          (slice-length input 0 6 (omega arith) h)
          λ t6 e. decode_time6-IsCalendar tc t6 (omega arith)))
      (λ t _. k t)

slice_then {ℓ} :
    {B : Type ℓ} (input : List ℕ) (a b : ℕ) (f : List ℕ → Result B)
    → a ≤ b
    → b ≤ length input
    → ((s : List ℕ) → Returns (f s))
    → Returns (slice input a b >>= f)
slice_then input a b f h k r = >>=-Returns (slice input a b) f (slice_le input a b h k) (λ s _. r s)

configs_from-Returns : (n : ℕ) (input : List ℕ) (pos : ℕ) → Returns (configs_from n input pos)
unfolding configs_from
configs_from-Returns zero input pos = tt
configs_from-Returns (suc n) input pos = checked (length input) (pos + 2) _ _ tt λ h.
    read_then input pos _ (omega arith) λ _. read_then input (pos + 1) _ (omega arith) λ len.
      checked (length input) (pos + 2 + len) _ _ tt λ k.
        slice_then input (pos + 2) (pos + 2 + len) _ (omega arith) k λ _.
          >>=-Returns (configs_from n input (pos + 2 + len)) _
            (configs_from-Returns n input (pos + 2 + len)) λ _ _. tt

read_configs-Returns : (input : List ℕ) (pos : ℕ) → Returns (read_configs input pos)
unfolding read_configs
read_configs-Returns input pos = elim (Bool-cases (not (ltb pos (length input)))) [
  | inl done ↦ rw done tt
  | inr more ↦ rw more (
      read_then input pos _ (ground arith) λ count.
        >>=-Returns (configs_from count input (pos + 1)) _
          (configs_from-Returns count input (pos + 1)) λ _ _. tt)
]

decode_login_data-Returns : (tc : TimeCodec) (input : List ℕ) → Returns (decode_login_data tc input)
unfolding decode_login_data
decode_login_data-Returns tc input = checked (length input) 9 _ _ tt λ h.
    time_then tc input _ (omega arith) λ _. read16_then input 6 _ (omega arith) λ _.
      read_then input 8 _ (omega arith) λ len. checked (length input) (9 + len) _ _ tt λ k.
        slice_then input 9 (9 + len) _ (omega arith) k λ _.
          >>=-Returns (read_configs input (9 + len)) _ (read_configs-Returns input (9 + len))
            λ _ _. tt

decode_logout_data-Returns :
    (tc : TimeCodec) (input : List ℕ) → Returns (decode_logout_data tc input)
unfolding decode_logout_data
decode_logout_data-Returns tc input =
    checked (length input) 8 _ _ tt
      λ h. time_then tc input _ (omega arith) λ _. read16_then input 6 _ (omega arith) λ _. tt

-- A string takes no more bytes than there are.
decode_param_string-within : (s : List ℕ) → Satisfies (λ x. x.1 ≤ length s) (decode_param_string s)
unfolding decode_param_string
decode_param_string-within [] = omega arith
decode_param_string-within (n ∷ r) = elim (Bool-cases (ltb (length (n ∷ r)) (1 + n))) [
  | inl short ↦ rw short (omega arith)
  | inr long ↦ rw (long, slice_ok (n ∷ r) 1 (1 + n) (omega arith) (ground arith)) (ground arith)
]

-- The string behind `pos`.
string_then {ℓ} :
    {B : Type ℓ} (input : List ℕ) (pos : ℕ) (f : List ℕ × ℕ → Result B)
    → pos ≤ length input
    → ((x : List ℕ × ℕ) → pos + x.1 ≤ length input → Returns (f x))
    → Returns (slice input pos (length input) >>= λ s. decode_param_string s >>= f)
string_then input pos f h k =
    >>=-Returns (slice input pos (length input)) _
      (slice_le input pos (length input) h (omega arith))
      λ s e.
        let sized : length s ≡ length input - pos =
          rw e at (slice-length input pos (length input) h (omega arith)) in
        >>=-Returns (decode_param_string s) f
          (Satisfies-Returns (λ x. x.1 ≤ length s) _ (decode_param_string-within s))
          λ x ex.
            let within : x.1 ≤ length s = rw ex at (decode_param_string-within s) in
            k x (omega arith)

decode_plat_login_response-Returns :
    (tc : TimeCodec) (input : List ℕ) → Returns (decode_plat_login_response tc input)
unfolding decode_plat_login_response
decode_plat_login_response-Returns tc input = checked (length input) 8 _ _ tt λ h.
    time_then tc input _ (omega arith) λ _. read16_then input 6 _ (omega arith) λ _.
      string_then input 8 _ h
        λ user within. string_then input (8 + user.1) _ (omega arith) λ _ _. tt

decode_plat_logout_response-Returns :
    (tc : TimeCodec) (input : List ℕ) → Returns (decode_plat_logout_response tc input)
unfolding decode_plat_logout_response
decode_plat_logout_response-Returns tc input =
    checked (length input) 8 _ _ tt
      λ h. time_then tc input _ (omega arith) λ _. read16_then input 6 _ (omega arith) λ _. tt

ids_from-Returns : (n : ℕ) (input : List ℕ) (pos : ℕ) → Returns (ids_from n input pos)
unfolding ids_from
ids_from-Returns zero input pos = tt
ids_from-Returns (suc n) input pos = checked (length input) (pos + 4) _ _ tt λ h.
    read32_then input pos _ (omega arith)
      λ _. >>=-Returns (ids_from n input (pos + 4)) _ (ids_from-Returns n input (pos + 4)) λ _ _. tt

decode_param_query_data-Returns :
    (tc : TimeCodec) (input : List ℕ) → Returns (decode_param_query_data tc input)
unfolding decode_param_query_data
decode_param_query_data-Returns tc input = checked (length input) 7 _ _ tt λ h.
    time_then tc input _ (omega arith) λ _.
      read_then input 6 _ (omega arith)
        λ n. >>=-Returns (ids_from n input 7) _ (ids_from-Returns n input 7) λ _ _. tt

params_from-Returns : (n : ℕ) (input : List ℕ) (pos : ℕ) → Returns (params_from n input pos)
unfolding params_from
params_from-Returns zero input pos = tt
params_from-Returns (suc n) input pos = checked (length input) (pos + 5) _ _ tt λ h.
    read32_then input pos _ (omega arith) λ _. read_then input (pos + 4) _ (omega arith) λ len.
      checked (length input) (pos + 5 + len) _ _ tt λ k.
        slice_then input (pos + 5) (pos + 5 + len) _ (omega arith) k λ _.
          >>=-Returns (params_from n input (pos + 5 + len)) _
            (params_from-Returns n input (pos + 5 + len)) λ _ _. tt

decode_param_setting_data-Returns :
    (tc : TimeCodec) (input : List ℕ) → Returns (decode_param_setting_data tc input)
unfolding decode_param_setting_data
decode_param_setting_data-Returns tc input = checked (length input) 7 _ _ tt λ h.
    time_then tc input _ (omega arith) λ _.
      read_then input 6 _ (omega arith)
        λ n. >>=-Returns (params_from n input 7) _ (params_from-Returns n input 7) λ _ _. tt

-- For all bytes, in both time formats, each of the decoders of logins, logouts, platform logins
-- and logouts, parameter queries and parameter settings gives a value or an error: no one of them
-- reads or slices outside the bytes that it is given.
pub body_decoders-Returns :
    (tc : TimeCodec) (input : List ℕ)
    → Returns (decode_login_data tc input)
      × Returns (decode_logout_data tc input)
      × Returns (decode_plat_login_response tc input)
      × Returns (decode_plat_logout_response tc input)
      × Returns (decode_param_query_data tc input)
      × Returns (decode_param_setting_data tc input)
body_decoders-Returns tc input = (
  decode_login_data-Returns tc input,
  decode_logout_data-Returns tc input,
  decode_plat_login_response-Returns tc input,
  decode_plat_logout_response-Returns tc input,
  decode_param_query_data-Returns tc input,
  decode_param_setting_data-Returns tc input,
)
