-- ===== src/Pagination.antt =====
-- `order_by(column.desc()).limit(limit).offset(offset)`, which the listing routes share. The order
-- among rows of the same time is the order of the table.
pub mod Laws
use perzforge.Prelude.{ℕ, List, [], ◌∷◌, ltb, take, drop, if◌then◌else◌}

module _ {A : Type 0} where
  -- Insert before the first row that is older.
  unfoldable pub insert_desc : (A → ℕ) → A → List A → List A
  insert_desc time x [] = x ∷ []
  insert_desc time x (y ∷ ys) =
      let rest = insert_desc time x ys in if ltb (time x) (time y) then y ∷ rest else x ∷ y ∷ ys

  unfoldable pub order_desc : (A → ℕ) → List A → List A
  unfolding insert_desc
  order_desc time [] = []
  order_desc time (x ∷ xs) = insert_desc time x (order_desc time xs)

  unfoldable pub page : (A → ℕ) → ℕ → ℕ → List A → List A
  unfolding order_desc
  page time limit offset rows = take limit (drop offset (order_desc time rows))
