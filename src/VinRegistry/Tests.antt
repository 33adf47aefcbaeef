-- ===== src/VinRegistry/Tests.antt =====
-- The registry with two VINs and two connections.
use gb32960_go_sdk.Base.{ℕ, ◌≡◌, refl, true, List, replicate}
use gb32960_go_sdk.VinRegistry.{
  VinRegistry, new_vin_registry, lookup, insert, delete, add, remove, remove_first, has, get_all,
  count,
}
use gb32960_go_sdk.VinRegistry.Keys.{bytes_eq}
use gb32960_go_sdk.VinRegistry.Laws.{
  IsValid, new_vin_registry-IsValid, add-IsValid, remove-add_twice,
}

abbrev vin_a : List ℕ
vin_a = replicate 17 0x41

abbrev vin_b : List ℕ
vin_b = replicate 17 0x42

abbrev two : VinRegistry
two = add (add new_vin_registry vin_a 1) vin_b 2

two-IsValid : IsValid two
two-IsValid =
    add-IsValid (add new_vin_registry vin_a 1) vin_b 2
      (add-IsValid new_vin_registry vin_a 1 new_vin_registry-IsValid)

count_two : count two ≡ 2
unfolding count add new_vin_registry lookup insert bytes_eq
count_two = refl

count_removed : count (remove two vin_a 1) ≡ 1
unfolding count add remove remove_first has new_vin_registry lookup insert delete bytes_eq
count_removed = refl

remove-add_twice_example :
    has 3 (get_all (remove (add (add two vin_a 3) vin_a 3) vin_a 3) vin_a) ≡ true
remove-add_twice_example = remove-add_twice two vin_a 3
