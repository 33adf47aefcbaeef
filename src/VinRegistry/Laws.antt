-- ===== src/VinRegistry/Laws.antt =====
-- The registry as a map from VINs to sequences of connections.
use gb32960_go_sdk.Base.{
  ℕ, ◌≡◌, ◌≢◌, refl, true, false, ◌⊎◌, inl, inr, List, [], ◌∷◌, ◌++◌, none, some, length,
  if◌then◌else◌, arith, Option-cases,
}
use gb32960_go_sdk.VinRegistry.Keys.{bytes_eq, bytes_eq_iff, bytes_eq_refl}
use gb32960_go_sdk.VinRegistry.{
  Vins, lookup, insert, delete, or_nil, remove_first, has, VinRegistry, new_vin_registry, add,
  remove, get, get_all, prune,
}

lookup-insert :
    (v w cs : List ℕ) (m : Vins)
    → lookup w (insert v cs m) ≡ (if bytes_eq v w then some cs else lookup w m)
unfolding lookup insert
lookup-insert v w cs [] = refl
lookup-insert v w cs ((k, ds) ∷ m) =
    ground (arith, bytes_eq_iff k v, bytes_eq_iff k w, bytes_eq_iff v w, lookup-insert v w cs m)

lookup-delete :
    (v w : List ℕ) (m : Vins) → lookup w (delete v m) ≡ (if bytes_eq v w then none else lookup w m)
unfolding lookup delete
lookup-delete v w [] = ground arith
lookup-delete v w ((k, ds) ∷ m) =
    ground (arith, bytes_eq_iff k v, bytes_eq_iff k w, bytes_eq_iff v w, lookup-delete v w m)

-- `add` puts the connection at the end of its VIN's sequence, and leaves the other VINs alone.
pub get_all-add :
    (r : VinRegistry) (vin w : List ℕ) (c : ℕ)
    → get_all (add r vin c) w ≡ (if bytes_eq vin w then get_all r w ++ (c ∷ []) else get_all r w)
unfolding get_all add
get_all-add r vin w c =
    ground (
      arith,
      bytes_eq_iff vin w,
      lookup-insert vin w (or_nil (lookup vin r.vins) ++ (c ∷ [])) r.vins,
    )

length_zero : (cs : List ℕ) → length cs ≡ 0 → cs ≡ []
length_zero [] e = refl
length_zero (c ∷ cs) e = absurd (omega arith)

-- Dropping an empty slice does not show.
prune-lookup : (vin w : List ℕ) (m : Vins) → or_nil (lookup w (prune vin m)) ≡ or_nil (lookup w m)
prune-lookup vin w m =
    ground (arith, bytes_eq_iff vin w, lookup-delete vin w m, length_zero (or_nil (lookup vin m)))

remove_first_nil : (c : ℕ) → remove_first c [] ≡ []
unfolding remove_first
remove_first_nil c = refl

has-false : (c : ℕ) (cs : List ℕ) → has c cs ≡ false → remove_first c cs ≡ cs
unfolding has remove_first
has-false c [] e = refl
has-false c (d ∷ cs) e = ground (arith, has-false c cs)

-- `remove` takes the first occurrence of the connection out of its VIN's sequence, if there is
-- one, and leaves the rest of the sequence and the other VINs alone.
pub get_all-remove :
    (r : VinRegistry) (vin w : List ℕ) (c : ℕ)
    → get_all (remove r vin c) w
      ≡ (if bytes_eq vin w then remove_first c (get_all r w) else get_all r w)
unfolding get_all remove
get_all-remove r vin w c = elim (Option-cases (lookup vin r.vins)) [
  | inl e ↦ rw (e, remove) (ground (arith, e, bytes_eq_iff vin w, remove_first_nil c))
  | inr (conns, e) ↦
      rw (e, remove)
        (rw
          (prune-lookup vin w
            (if has c conns then insert vin (remove_first c conns) r.vins else r.vins))
          (ground (
            arith,
            e,
            bytes_eq_iff vin w,
            has-false c conns,
            lookup-insert vin w (remove_first c conns) r.vins,
          )))
]

-- `get` and `get_all` agree: either there is no connection in both, or `get` is the first one of
-- `get_all`.
pub get-get_all :
    (r : VinRegistry) (vin : List ℕ)
    → ((get r vin ≡ none) × (get_all r vin ≡ []))
      ⊎ ((c : ℕ) × (cs : List ℕ) × (get r vin ≡ some c) × (get_all r vin ≡ c ∷ cs))
unfolding get get_all
get-get_all r vin = elim (Option-cases (lookup vin r.vins)) [
  | inl e ↦ inl (rw (e, get), rw e)
  | inr ([], e) ↦ inl (rw (e, get), rw e)
  | inr (c ∷ cs, e) ↦ inr (c, cs, rw (e, get), rw e)
]

-- Each VIN has one entry.
abbrev Distinct : Vins → Type 0
Distinct [] = Unit {0}
Distinct ((k, cs) ∷ m) = (lookup k m ≡ none) × Distinct m

-- Each VIN has one entry, and no entry is empty: a VIN is a key exactly if it has a connection.
pub record IsValid (r : VinRegistry) : Type 0 where
  pub distinct : Distinct r.vins
  pub no_empty : (v : List ℕ) → lookup v r.vins ≢ some []

insert-Distinct : (v cs : List ℕ) (m : Vins) → Distinct m → Distinct (insert v cs m)
unfolding insert lookup
insert-Distinct v cs [] d = (refl, tt)
insert-Distinct v cs ((k, ds) ∷ m) d =
    ground (
      arith,
      insert-Distinct v cs m d.1,
      lookup-insert v k cs m,
      bytes_eq_iff k v,
      bytes_eq_iff v k,
    )

delete-Distinct : (v : List ℕ) (m : Vins) → Distinct m → Distinct (delete v m)
unfolding delete
delete-Distinct v [] d = tt
delete-Distinct v ((k, ds) ∷ m) d =
    ground (arith, delete-Distinct v m d.1, lookup-delete v k m, bytes_eq_iff k v, bytes_eq_iff v k)

pub new_vin_registry-IsValid : IsValid new_vin_registry
unfolding new_vin_registry lookup
new_vin_registry-IsValid = record { distinct = tt; no_empty = λ v e. cc }

append_one : (cs : List ℕ) (c : ℕ) → cs ++ (c ∷ []) ≢ []
append_one [] c e = cc
append_one (d ∷ cs) c e = cc

-- `add` keeps a registry valid: one entry to a VIN, and no entry empty.
pub add-IsValid : (r : VinRegistry) (vin : List ℕ) (c : ℕ) → IsValid r → IsValid (add r vin c)
unfolding add
add-IsValid r vin c v = record {
  distinct = insert-Distinct vin _ r.vins v.distinct;
  no_empty = λ w e. ground (
    arith,
    lookup-insert vin w (or_nil (lookup vin r.vins) ++ (c ∷ [])) r.vins,
    append_one (or_nil (lookup vin r.vins)) c,
    v.no_empty w,
  );
}

prune-IsValid :
    (vin : List ℕ) (m : Vins)
    → Distinct m
    → ((w : List ℕ) → bytes_eq vin w ≡ false → lookup w m ≢ some [])
    → IsValid (record { vins = prune vin m })
prune-IsValid vin m d h = record {
  distinct = ground (arith, d, delete-Distinct vin m d);
  no_empty = λ w e. ground (arith, lookup-delete vin w m, bytes_eq_iff vin w, h w, e);
}

-- `remove` keeps a registry valid: one entry to a VIN, and no entry empty.
pub remove-IsValid : (r : VinRegistry) (vin : List ℕ) (c : ℕ) → IsValid r → IsValid (remove r vin c)
unfolding remove
remove-IsValid r vin c v = elim (Option-cases (lookup vin r.vins)) [
  | inl e ↦ rw (e, remove) v
  | inr (conns, e) ↦
      rw (e, remove)
        (prune-IsValid vin _
          (ground (arith, insert-Distinct vin (remove_first c conns) r.vins v.distinct, v.distinct))
          (λ w ne.
            ground (arith, ne, lookup-insert vin w (remove_first c conns) r.vins, v.no_empty w)))
]

has-remove_first_two :
    (c : ℕ) (cs : List ℕ) → has c (remove_first c ((cs ++ (c ∷ [])) ++ (c ∷ []))) ≡ true
unfolding has remove_first
has-remove_first_two c [] = ground arith
has-remove_first_two c (d ∷ cs) = ground (arith, has-remove_first_two c cs, has_last c cs)
  where
    has_last : (c : ℕ) (cs : List ℕ) → has c ((cs ++ (c ∷ [])) ++ (c ∷ [])) ≡ true
    has_last c [] = ground arith
    has_last c (d ∷ cs) = ground (arith, has_last c cs)

-- A connection that was added twice under a VIN, as by a second login, is still registered after it
-- is removed once.
pub remove-add_twice :
    (r : VinRegistry) (vin : List ℕ) (c : ℕ)
    → has c (get_all (remove (add (add r vin c) vin c) vin c) vin) ≡ true
remove-add_twice r vin c =
    rw
      (
        get_all-remove (add (add r vin c) vin c) vin vin c,
        get_all-add (add r vin c) vin vin c,
        get_all-add r vin vin c,
        bytes_eq_refl vin,
      )
      (has-remove_first_two c (get_all r vin))
