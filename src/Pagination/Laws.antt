-- ===== src/Pagination/Laws.antt =====
-- The rows of a page: api/routers/jobs.py and api/routers/models.py.
use perzforge.Prelude.{
  count, refl, ap, ◌∙◌, ◌+◌, if◌then◌else◌, ℕ, zero, suc, ◌≤◌, ◌≡◌, List, [], ◌∷◌, Bool, true, ltb,
  length, take, drop, All, filter, arith, Bool-cases, inl, inr,
}
use perzforge.Pagination.{insert_desc, order_desc, page}

module _ {A : Type 0} (time : A → ℕ) where
  -- Newest first.
  abbrev pub IsNewestFirst : List A → Type 0
  IsNewestFirst [] = Unit
  IsNewestFirst (x ∷ xs) = All (λ y. time y ≤ time x) xs × IsNewestFirst xs

  All-insert_desc :
      (P : A → Type 0) (x : A) (xs : List A) → P x → All P xs → All P (insert_desc time x xs)
  unfolding insert_desc
  All-insert_desc P x [] px h = (px, tt)
  All-insert_desc P x (y ∷ ys) px h = elim (Bool-cases (ltb (time x) (time y))) [
    | inl older ↦ rw older (h.0, All-insert_desc P x ys px h.1)
    | inr newer ↦ rw newer (px, h)
  ]

  pub All-order_desc : (P : A → Type 0) (xs : List A) → All P xs → All P (order_desc time xs)
  unfolding order_desc
  All-order_desc P [] h = tt
  All-order_desc P (x ∷ xs) h =
      All-insert_desc P x (order_desc time xs) h.0 (All-order_desc P xs h.1)

  All-le : (m n : ℕ) (xs : List A) → m ≤ n → All (λ y. time y ≤ m) xs → All (λ y. time y ≤ n) xs
  All-le m n [] h a = tt
  All-le m n (x ∷ xs) h a = (omega arith, All-le m n xs h a.1)

  insert_desc-IsNewestFirst :
      (x : A) (xs : List A) → IsNewestFirst xs → IsNewestFirst (insert_desc time x xs)
  unfolding insert_desc
  insert_desc-IsNewestFirst x [] h = (tt, tt)
  insert_desc-IsNewestFirst x (y ∷ ys) h = elim (Bool-cases (ltb (time x) (time y))) [
    | inl older ↦ rw older (
      All-insert_desc (λ z. time z ≤ time y) x ys (ground arith) h.0,
      insert_desc-IsNewestFirst x ys h.1,
    )
    | inr newer ↦
        rw newer
          (let le : time y ≤ time x = ground arith in ((le, All-le (time y) (time x) ys le h.0), h))
  ]

  pub order_desc-IsNewestFirst : (xs : List A) → IsNewestFirst (order_desc time xs)
  unfolding order_desc
  order_desc-IsNewestFirst [] = tt
  order_desc-IsNewestFirst (x ∷ xs) =
      insert_desc-IsNewestFirst x (order_desc time xs) (order_desc-IsNewestFirst xs)

count-insert_desc :
    {A : Type 0} (time : A → ℕ) (p : A → Bool) (x : A) (xs : List A)
    → count p (insert_desc time x xs) ≡ count p (x ∷ xs)
unfolding insert_desc
count-insert_desc time p x [] = refl
count-insert_desc time p x (y ∷ ys) = ground (arith, count-insert_desc time p x ys)

-- The order loses no row and adds none.
pub count-order_desc :
    {A : Type 0} (time : A → ℕ) (p : A → Bool) (xs : List A)
    → count p (order_desc time xs) ≡ count p xs
unfolding order_desc
count-order_desc time p [] = refl
count-order_desc time p (x ∷ xs) =
    count-insert_desc time p x (order_desc time xs)
    ∙ ap (λ n. (if p x then 1 else 0) + n) (count-order_desc time p xs)

All-take : {A : Type 0} (P : A → Type 0) (n : ℕ) (xs : List A) → All P xs → All P (take n xs)
All-take P zero xs h = tt
All-take P (suc n) [] h = tt
All-take P (suc n) (x ∷ xs) h = (h.0, All-take P n xs h.1)

All-drop : {A : Type 0} (P : A → Type 0) (n : ℕ) (xs : List A) → All P xs → All P (drop n xs)
All-drop P zero xs h = h
All-drop P (suc n) [] h = tt
All-drop P (suc n) (x ∷ xs) h = All-drop P n xs h.1

module _ {A : Type 0} (time : A → ℕ) where
  take-IsNewestFirst :
      (n : ℕ) (xs : List A) → IsNewestFirst time xs → IsNewestFirst time (take n xs)
  take-IsNewestFirst zero xs h = tt
  take-IsNewestFirst (suc n) [] h = tt
  take-IsNewestFirst (suc n) (x ∷ xs) h =
      (All-take (λ y. time y ≤ time x) n xs h.0, take-IsNewestFirst n xs h.1)

  drop-IsNewestFirst :
      (n : ℕ) (xs : List A) → IsNewestFirst time xs → IsNewestFirst time (drop n xs)
  drop-IsNewestFirst zero xs h = h
  drop-IsNewestFirst (suc n) [] h = tt
  drop-IsNewestFirst (suc n) (x ∷ xs) h = drop-IsNewestFirst n xs h.1

  pub page-IsNewestFirst :
      (limit offset : ℕ) (rows : List A) → IsNewestFirst time (page time limit offset rows)
  unfolding page
  page-IsNewestFirst limit offset rows =
      take-IsNewestFirst limit _ (drop-IsNewestFirst offset _ (order_desc-IsNewestFirst time rows))

  pub All-page :
      (P : A → Type 0) (limit offset : ℕ) (rows : List A)
      → All P rows
      → All P (page time limit offset rows)
  unfolding page
  All-page P limit offset rows h =
      All-take P limit _ (All-drop P offset _ (All-order_desc time P rows h))

length-take_le : {A : Type 0} (n : ℕ) (xs : List A) → length (take n xs) ≤ n
length-take_le zero xs = omega arith
length-take_le (suc n) [] = omega arith
length-take_le (suc n) (x ∷ xs) = omega (arith, length-take_le n xs)

pub length-page :
    {A : Type 0} (time : A → ℕ) (limit offset : ℕ) (rows : List A)
    → length (page time limit offset rows) ≤ limit
unfolding page
length-page time limit offset rows = length-take_le limit _

pub All-filter : {A : Type 0} (p : A → Bool) (xs : List A) → All (λ x. p x ≡ true) (filter p xs)
All-filter p [] = tt
All-filter p (x ∷ xs) = elim (Bool-cases (p x)) [
  | inl hit ↦ rw hit (hit, All-filter p xs)
  | inr miss ↦ rw miss (All-filter p xs)
]
