-- ===== src/Auth.antt =====
-- auth/auth.go: the white list of VINs, and the authenticator that allows all.
mod Tests
pub mod Laws
use gb32960_go_sdk.Base.{ℕ, Bool, true, false, ◌||◌, List, [], ◌∷◌, if◌then◌else◌}
use gb32960_go_sdk.VinRegistry.Keys.{bytes_eq}

-- The set of VINs as a list, with each VIN once.
pub record VinWhitelist : Type 0 where
  pub set : List (List ℕ)

pub contains : List (List ℕ) → List ℕ → Bool
contains [] vin = false
contains (v ∷ vs) vin = bytes_eq v vin || contains vs vin

-- `m[vin] = struct{}{}`
pub add : VinWhitelist → List ℕ → VinWhitelist
unfolding contains
add w vin = if contains w.set vin then w else record { set = vin ∷ w.set }

-- The keys without one of them, for `delete`.
pub without : List ℕ → List (List ℕ) → List (List ℕ)
without vin [] = []
without vin (v ∷ vs) = let rest = without vin vs in if bytes_eq v vin then rest else v ∷ rest

pub remove : VinWhitelist → List ℕ → VinWhitelist
unfolding without
remove w vin = record { set = without vin w.set }

-- The loop of the constructor over its VINs.
pub add_all : VinWhitelist → List (List ℕ) → VinWhitelist
unfolding add
add_all w [] = w
add_all w (v ∷ vs) = add_all (add w v) vs

pub new_vin_whitelist : List (List ℕ) → VinWhitelist
unfolding add_all
new_vin_whitelist vins = add_all (record { set = [] }) vins

pub authenticate : VinWhitelist → List ℕ → Bool
authenticate w vin = contains w.set vin
