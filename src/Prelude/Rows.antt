-- ===== src/Prelude/Rows.antt =====
-- Rows of a table as a list: selection, limits, order by a key, and membership by recursion.
use Prim.Native.Nat.{ℕ, zero, suc, ◌≤◌}
use mathlib.Core.Path.{◌≡◌, refl, ap, ◌∙◌}
use mathlib.Core.Logic.{◌⊎◌, inl, inr}
use mathlib.Core.Bool.{Bool, true, false, ◌||◌}
use mathlib.Core.List.{List, [], ◌∷◌, ◌++◌, map, append_assoc}
use native.Mathlib.Omega.{arith}
use ledger_engine.Prelude.Tests.{◌==◌, if◌then◌else◌}
use ledger_engine.Prelude.Lists.{length}

-- WHERE id = ANY(ids)
abbrev pub elem : ℕ → List ℕ → Bool
elem n [] = false
elem n (m ∷ ms) = n == m || elem n ms

module _ {A : Type 0} where
  -- WHERE p
  unfoldable pub select : (A → Bool) → List A → List A
  select p [] = []
  select p (x ∷ xs) = let rest = select p xs in if p x then x ∷ rest else rest

  -- LIMIT n
  unfoldable pub take : ℕ → List A → List A
  take n [] = []
  take zero (x ∷ xs) = []
  take (suc n) (x ∷ xs) = x ∷ take n xs

  -- OFFSET n
  unfoldable pub drop : ℕ → List A → List A
  drop n [] = []
  drop zero (x ∷ xs) = x ∷ xs
  drop (suc n) (x ∷ xs) = drop n xs

  -- ORDER BY, where `before x y` says that x may stand ahead of y; rows of one before stay in the order
  -- of the table
  unfoldable pub place : (A → A → Bool) → A → List A → List A
  place before x [] = x ∷ []
  place before x (y ∷ ys) =
      let later = place before x ys in if before x y then x ∷ y ∷ ys else y ∷ later

  unfoldable pub order_by : (A → A → Bool) → List A → List A
  order_by before [] = []
  order_by before (x ∷ xs) = place before x (order_by before xs)

  pub append_cons : (xs : List A) (y : A) (zs : List A) → (xs ++ y ∷ []) ++ zs ≡ xs ++ y ∷ zs
  append_cons xs y zs = simp append_assoc

  -- The row is one of the table.
  abbrev pub In : A → List A → Type 0
  In x [] = ⊥
  In x (y ∷ ys) = (x ≡ y) ⊎ In x ys

  pub In-append : (x : A) (xs ys : List A) → In x (xs ++ ys) → In x xs ⊎ In x ys
  In-append x [] ys h = inr h
  In-append x (y ∷ xs) ys (inl e) = inl (inl e)
  In-append x (y ∷ xs) ys (inr h) = elim (In-append x xs ys h) [
    | inl here ↦ inl (inr here)
    | inr there ↦ inr there
  ]

  pub In-append_left : (x : A) (xs ys : List A) → In x xs → In x (xs ++ ys)
  In-append_left x [] ys h = absurd h
  In-append_left x (y ∷ xs) ys (inl e) = inl e
  In-append_left x (y ∷ xs) ys (inr h) = inr (In-append_left x xs ys h)

  pub In-append_right : (x : A) (xs ys : List A) → In x ys → In x (xs ++ ys)
  In-append_right x [] ys h = h
  In-append_right x (y ∷ xs) ys h = inr (In-append_right x xs ys h)

  pub In-select : (p : A → Bool) (x : A) (xs : List A) → In x (select p xs) → In x xs × (p x ≡ true)
  unfolding select
  In-select p x [] h = absurd h
  In-select p x (y ∷ ys) h = ground (arith, In-select p x ys)

  pub In-take : (n : ℕ) (x : A) (xs : List A) → In x (take n xs) → In x xs
  unfolding take
  In-take n x [] h = h
  In-take zero x (y ∷ ys) h = absurd h
  In-take (suc n) x (y ∷ ys) (inl e) = inl e
  In-take (suc n) x (y ∷ ys) (inr h) = inr (In-take n x ys h)

  pub In-place :
      (before : A → A → Bool) (x y : A) (ys : List A) → In x (place before y ys) → (x ≡ y) ⊎ In x ys
  unfolding place
  In-place before x y [] (inl e) = inl e
  In-place before x y [] (inr h) = absurd h
  In-place before x y (z ∷ ys) h = ground (arith, In-place before x y ys)

  pub In-order_by :
      (before : A → A → Bool) (x : A) (xs : List A) → In x (order_by before xs) → In x xs
  unfolding order_by
  In-order_by before x [] h = h
  In-order_by before x (y ∷ ys) h = elim (In-place before x y (order_by before ys) h) [
    | inl e ↦ inl e
    | inr there ↦ inr (In-order_by before x ys there)
  ]

  pub select-append :
      (p : A → Bool) (xs ys : List A) → select p (xs ++ ys) ≡ select p xs ++ select p ys
  unfolding select
  select-append p [] ys = refl
  select-append p (x ∷ xs) ys = ground (arith, select-append p xs ys)

  pub select_none :
      (p : A → Bool) (xs : List A) → ((x : A) → In x xs → p x ≡ false) → select p xs ≡ []
  unfolding select
  select_none p [] h = refl
  select_none p (x ∷ xs) h = rw (h x (inl refl)) (select_none p xs (λ y there. h y (inr there)))

  pub select_all :
      (p : A → Bool) (xs : List A) → ((x : A) → In x xs → p x ≡ true) → select p xs ≡ xs
  unfolding select
  select_all p [] h = refl
  select_all p (x ∷ xs) h =
      rw (h x (inl refl)) (ap (λ l. x ∷ l) (select_all p xs (λ y there. h y (inr there))))

  -- Each row may stand ahead of the next.
  abbrev pub IsOrdered : (A → A → Bool) → List A → Type 0
  IsOrdered before [] = Unit
  IsOrdered before (x ∷ []) = Unit
  IsOrdered before (x ∷ y ∷ ys) = (before x y ≡ true) × IsOrdered before (y ∷ ys)

  pub order_by-IsOrdered :
      (before : A → A → Bool) (xs : List A) → IsOrdered before xs → order_by before xs ≡ xs
  unfolding order_by place
  order_by-IsOrdered before [] h = refl
  order_by-IsOrdered before (x ∷ []) h = refl
  order_by-IsOrdered before (x ∷ y ∷ ys) h =
      ap (place before x) (order_by-IsOrdered before (y ∷ ys) h.1) ∙ placed
    where
      placed : place before x (y ∷ ys) ≡ x ∷ y ∷ ys
      placed = rw h.0 refl

  -- How many rows a selection has does not depend on the order of the table.
  length-select-place :
      (before : A → A → Bool) (p : A → Bool) (x : A) (xs : List A)
      → length (select p (place before x xs)) ≡ length (select p (x ∷ xs))
  unfolding select place
  length-select-place before p x [] = refl
  length-select-place before p x (y ∷ ys) = ground (arith, length-select-place before p x ys)

  pub length-select-order_by :
      (before : A → A → Bool) (p : A → Bool) (xs : List A)
      → length (select p (order_by before xs)) ≡ length (select p xs)
  unfolding order_by select
  length-select-order_by before p [] = refl
  length-select-order_by before p (x ∷ xs) = ground (
    arith,
    length-select-place before p x (order_by before xs),
    length-select-order_by before p xs,
  )

  length-place :
      (before : A → A → Bool) (x : A) (xs : List A) → length (place before x xs) ≡ suc (length xs)
  unfolding place
  length-place before x [] = refl
  length-place before x (y ∷ ys) = ground (arith, length-place before x ys)

  pub length-order_by :
      (before : A → A → Bool) (xs : List A) → length (order_by before xs) ≡ length xs
  unfolding order_by
  length-order_by before [] = refl
  length-order_by before (x ∷ xs) =
      omega (arith, length-place before x (order_by before xs), length-order_by before xs)

  pub length-take : (n : ℕ) (xs : List A) → length (take n xs) ≤ n
  unfolding take
  length-take n [] = omega arith
  length-take zero (x ∷ xs) = omega arith
  length-take (suc n) (x ∷ xs) = omega (arith, length-take n xs)

module _ {A B : Type 0} where
  pub In-map : (f : A → B) (y : B) (xs : List A) → In y (map f xs) → (x : A) × In x xs × (y ≡ f x)
  In-map f y [] h = absurd h
  In-map f y (x ∷ xs) (inl e) = (x, inl refl, e)
  In-map f y (x ∷ xs) (inr h) = let (z, there, e) = In-map f y xs h in (z, inr there, e)

  pub map-In : (f : A → B) (x : A) (xs : List A) → In x xs → In (f x) (map f xs)
  map-In f x [] h = absurd h
  map-In f x (y ∷ xs) (inl e) = inl (ap f e)
  map-In f x (y ∷ xs) (inr h) = inr (map-In f x xs h)
