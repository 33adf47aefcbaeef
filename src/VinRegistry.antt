-- ===== src/VinRegistry.antt =====
-- vin_registry.go: the connections that each VIN logged in from. A connection is the number of its
-- object, and each method holds the lock throughout, so that it is one step.
mod Tests
pub mod Keys
pub mod Laws
use gb32960_go_sdk.Base.{
  ℕ, zero, suc, ◌+◌, ◌≡◌, Bool, true, false, ◌&&◌, ◌||◌, List, [], ◌∷◌, ◌++◌, Option, none, some,
  length, ◌==◌, if◌then◌else◌,
}
use Keys.{bytes_eq}

-- The map from VINs to slices, as the list of its entries.
abbrev pub Vins : Type 0
Vins = List (List ℕ × List ℕ)

pub lookup : List ℕ → Vins → Option (List ℕ)
lookup v [] = none
lookup v ((k, cs) ∷ m) = if bytes_eq k v then some cs else lookup v m

-- `m[v] = cs`
pub insert : List ℕ → List ℕ → Vins → Vins
insert v cs [] = (v, cs) ∷ []
insert v cs ((k, ds) ∷ m) =
    let rest = insert v cs m in if bytes_eq k v then (k, cs) ∷ m else (k, ds) ∷ rest

-- `delete(m, v)`
pub delete : List ℕ → Vins → Vins
delete v [] = []
delete v ((k, ds) ∷ m) = let rest = delete v m in if bytes_eq k v then rest else (k, ds) ∷ rest

-- A missing key reads as the nil slice.
abbrev pub or_nil : Option (List ℕ) → List ℕ
or_nil none = []
or_nil (some cs) = cs

-- The slice without the first element that is `c`.
pub remove_first : ℕ → List ℕ → List ℕ
remove_first c [] = []
remove_first c (d ∷ cs) = let rest = remove_first c cs in if d == c then cs else d ∷ rest

pub has : ℕ → List ℕ → Bool
has c [] = false
has c (d ∷ cs) = d == c || has c cs

pub record VinRegistry : Type 0 where
  pub vins : Vins

pub new_vin_registry : VinRegistry
new_vin_registry = record { vins = [] }

pub add : VinRegistry → List ℕ → ℕ → VinRegistry
add r vin c = record { vins = insert vin (or_nil (lookup vin r.vins) ++ (c ∷ [])) r.vins }

-- The entry is dropped when its slice is empty.
abbrev prune : List ℕ → Vins → Vins
prune vin m = if length (or_nil (lookup vin m)) == 0 then delete vin m else m

pub remove : VinRegistry → List ℕ → ℕ → VinRegistry
remove r vin c = elim (lookup vin r.vins) [
  | none ↦ r
  | some conns ↦ record {
    vins = prune vin (if has c conns then insert vin (remove_first c conns) r.vins else r.vins);
  }
]

-- The first connection of a VIN, `none` for nil.
pub get : VinRegistry → List ℕ → Option ℕ
get r vin = elim (lookup vin r.vins) [ none ↦ none | some [] ↦ none | some (c ∷ cs) ↦ some c ]

pub get_all : VinRegistry → List ℕ → List ℕ
get_all r vin = or_nil (lookup vin r.vins)

pub count : VinRegistry → ℕ
count r = length r.vins
