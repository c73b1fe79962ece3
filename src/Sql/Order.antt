-- ===== src/Sql/Order.antt =====
-- The `order by` and the `limit` of a SQL query.
use flick_drop.Base.{ℕ, zero, suc, Bool, List, [], ◌∷◌, if◌then◌else◌}

-- `order by`, by a test that one row comes no later than another.
abbrev pub insert_ordered {ℓ} : {A : Type ℓ} → (A → A → Bool) → A → List A → List A
insert_ordered le x [] = x ∷ []
insert_ordered le x (y ∷ ys) = if le x y then x ∷ y ∷ ys else y ∷ insert_ordered le x ys

unfoldable pub sort_rows {ℓ} : {A : Type ℓ} → (A → A → Bool) → List A → List A
sort_rows le [] = []
sort_rows le (x ∷ xs) = insert_ordered le x (sort_rows le xs)

-- `limit`
unfoldable pub take {ℓ} : {A : Type ℓ} → ℕ → List A → List A
take zero xs = []
take (suc n) [] = []
take (suc n) (x ∷ xs) = x ∷ take n xs
