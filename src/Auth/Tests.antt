-- ===== src/Auth/Tests.antt =====
-- A white list of two VINs.
use gb32960_go_sdk.Base.{ℕ, ◌≡◌, List, [], ◌∷◌, replicate}
use gb32960_go_sdk.Auth.{VinWhitelist, contains, new_vin_whitelist, authenticate}
use gb32960_go_sdk.Auth.Laws.{authenticate-new_vin_whitelist}

abbrev vin_a : List ℕ
vin_a = replicate 17 0x41

abbrev vin_b : List ℕ
vin_b = replicate 17 0x42

abbrev both : VinWhitelist
both = new_vin_whitelist (vin_a ∷ vin_b ∷ vin_a ∷ [])

authenticate-new_vin_whitelist_example :
    authenticate (new_vin_whitelist (vin_a ∷ vin_b ∷ vin_a ∷ [])) vin_b
    ≡ contains (vin_a ∷ vin_b ∷ vin_a ∷ []) vin_b
authenticate-new_vin_whitelist_example =
    authenticate-new_vin_whitelist (vin_a ∷ vin_b ∷ vin_a ∷ []) vin_b
