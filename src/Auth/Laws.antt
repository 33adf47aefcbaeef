-- ===== src/Auth/Laws.antt =====
-- Whom the white list lets in.
use gb32960_go_sdk.Base.{ℕ, ◌≡◌, ◌∙◌, ◌&&◌, ◌||◌, not, List, [], ◌∷◌, arith}
use gb32960_go_sdk.VinRegistry.Keys.{bytes_eq, bytes_eq_iff}
use gb32960_go_sdk.Auth.{
  VinWhitelist, contains, add, without, remove, add_all, new_vin_whitelist, authenticate,
}

authenticate-add :
    (w : VinWhitelist) (vin u : List ℕ)
    → authenticate (add w vin) u ≡ (bytes_eq vin u || authenticate w u)
unfolding authenticate add contains
authenticate-add w vin u = ground (arith, bytes_eq_iff vin u)

contains-without :
    (vin u : List ℕ) (vs : List (List ℕ))
    → contains (without vin vs) u ≡ (not (bytes_eq vin u) && contains vs u)
unfolding contains without
contains-without vin u [] = ground arith
contains-without vin u (v ∷ vs) =
    ground
      (arith, contains-without vin u vs, bytes_eq_iff v vin, bytes_eq_iff v u, bytes_eq_iff vin u)

-- Adding a VIN to a white list lets in that VIN and those let in before; removing one lets in those
-- let in before but for that VIN.
pub authenticate-add-remove :
    (w : VinWhitelist) (vin u : List ℕ)
    → (authenticate (add w vin) u ≡ (bytes_eq vin u || authenticate w u))
      × (authenticate (remove w vin) u ≡ (not (bytes_eq vin u) && authenticate w u))
unfolding authenticate remove
authenticate-add-remove w vin u = (authenticate-add w vin u, contains-without vin u w.set)

authenticate-add_all :
    (w : VinWhitelist) (vs : List (List ℕ)) (u : List ℕ)
    → authenticate (add_all w vs) u ≡ (authenticate w u || contains vs u)
unfolding add_all contains
authenticate-add_all w [] u = ground arith
authenticate-add_all w (v ∷ vs) u =
    ground (arith, authenticate-add_all (add w v) vs u, authenticate-add w v u)

-- A new white list lets in exactly the VINs that it is made with.
pub authenticate-new_vin_whitelist :
    (vins : List (List ℕ)) (u : List ℕ) → authenticate (new_vin_whitelist vins) u ≡ contains vins u
unfolding new_vin_whitelist authenticate contains
authenticate-new_vin_whitelist vins u =
    authenticate-add_all (record { set = [] }) vins u ∙ ground arith
