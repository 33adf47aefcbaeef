-- ===== src/VinRegistry/Keys.antt =====
-- Equality of strings, as lists of bytes.
use gb32960_go_sdk.Base.{ℕ, ◌≡◌, ◌↔◌, refl, Bool, true, false, ◌&&◌, List, [], ◌∷◌, ◌==◌, arith}

unfoldable pub bytes_eq : List ℕ → List ℕ → Bool
bytes_eq [] [] = true
bytes_eq [] (b ∷ bs) = false
bytes_eq (a ∷ as') [] = false
bytes_eq (a ∷ as') (b ∷ bs) = a == b && bytes_eq as' bs

pub bytes_eq_iff : (a b : List ℕ) → (bytes_eq a b ≡ true) ↔ (a ≡ b)
unfolding bytes_eq
bytes_eq_iff [] [] = ((λ _. refl), (λ _. refl))
bytes_eq_iff [] (b ∷ bs) = ((λ e. cc), (λ e. cc))
bytes_eq_iff (a ∷ as') [] = ((λ e. cc), (λ e. cc))
bytes_eq_iff (a ∷ as') (b ∷ bs) =
    ((λ e. ground (arith, bytes_eq_iff as' bs)), (λ e. ground (arith, bytes_eq_iff as' bs)))

pub bytes_eq_refl : (a : List ℕ) → bytes_eq a a ≡ true
bytes_eq_refl a = (bytes_eq_iff a a).1 refl
