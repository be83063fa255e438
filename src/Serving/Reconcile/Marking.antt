-- ===== src/Serving/Reconcile/Marking.antt =====
-- Rows and directories that several rounds change, against one pass over them.
use perzforge.Prelude.{
  ℕ, ◌≡◌, refl, ap, ap₂, ◌∙◌, Bool, true, false, not, ◌&&◌, List, [], ◌∷◌, filter, any, count, map,
  update_where, All, arith, ◌==◌, ==_refl, Bool-cases, inl, inr, if◌then◌else◌,
}
use perzforge.Schema.{Endpoint}
use perzforge.Quota.{is_active_endpoint}
use perzforge.Serving.Docker.{ArtifactDir}
use perzforge.Serving.Reconcile.{to_vanished}
use perzforge.Serving.Reconcile.Rounds.{mark, sweep}

-- The keys of the rows are different.
abbrev pub HasUniqueIds : List Endpoint → Type 0
HasUniqueIds [] = Unit
HasUniqueIds (e ∷ es) = All (λ x. (e.id == x.id) ≡ false) es × HasUniqueIds es

-- Marking rows one after the other is marking each row once.
abbrev pub is_marked : (Endpoint → Bool) → List Endpoint → Endpoint → Bool
is_marked gone es x = any (λ e. gone e && e.id == x.id) es

map-update_where :
    (g : Endpoint → Endpoint) (k : ℕ) (rows : List Endpoint)
    → map g (update_where (λ x. x.id == k) to_vanished rows)
      ≡ map (λ x. if x.id == k then g (to_vanished x) else g x) rows
map-update_where g k [] = refl
map-update_where g k (x ∷ rows) = ground (arith, map-update_where g k rows)

pub map-agree :
    (f g : Endpoint → Endpoint) (rows : List Endpoint)
    → All (λ x. f x ≡ g x) rows
    → map f rows ≡ map g rows
map-agree f g [] h = refl
map-agree f g (x ∷ rows) h =
    ap₂ (λ (y : Endpoint) (ys : List Endpoint). y ∷ ys) h.0 (map-agree f g rows h.1)

All-every : {A : Type 0} (P : A → Type 0) (xs : List A) → ((x : A) → P x) → All P xs
All-every P [] h = tt
All-every P (x ∷ xs) h = (h x, All-every P xs h)

map-same : (rows : List Endpoint) → rows ≡ map (λ x. x) rows
map-same [] = refl
map-same (x ∷ rows) = ap (λ xs. x ∷ xs) (map-same rows)

pub mark_lem :
    (gone : Endpoint → Bool) (es rows : List Endpoint)
    → mark gone es rows ≡ map (λ x. if is_marked gone es x then to_vanished x else x) rows
mark_lem gone [] rows = map-same rows
mark_lem gone (e ∷ es) rows = elim (Bool-cases (gone e)) [
  | inr stays ↦ rw stays (mark_lem gone es rows)
  | inl goes ↦ rw goes (
      mark_lem gone es (update_where (λ x. x.id == e.id) to_vanished rows)
      ∙ map-update_where (λ x. if is_marked gone es x then to_vanished x else x) e.id rows
      ∙ map-agree _ _ rows (All-every _ rows (λ x. ground arith)))
]

module _ (gone : Endpoint → Bool) where
  abbrev pub active_rows : List Endpoint → List Endpoint
  active_rows rows = filter (λ e. is_active_endpoint e.status) rows

  unmarked :
      (x : Endpoint) (ys : List Endpoint)
      → All (λ y. (x.id == y.id) ≡ false) ys
      → is_marked gone (active_rows ys) x ≡ false
  unmarked x [] h = refl
  unmarked x (y ∷ ys) h = let ih = unmarked x ys h.1 in let e = h.0 in ground arith

  marked_later :
      (x : Endpoint) (xs ys : List Endpoint)
      → All (λ y. (x.id == y.id) ≡ false) ys
      → All (λ y. is_marked gone (active_rows xs) y ≡ (is_active_endpoint y.status && gone y)) ys
      → All
          (λ y. is_marked gone (active_rows (x ∷ xs)) y ≡ (is_active_endpoint y.status && gone y))
          ys
  marked_later x xs [] apart h = tt
  marked_later x xs (y ∷ ys) apart h =
      (let e = apart.0 in let m = h.0 in ground arith, marked_later x xs ys apart.1 h.1)

  -- Where keys are unique, the rows that are marked are the active ones without a container.
  pub marked_lem :
      (rows : List Endpoint)
      → HasUniqueIds rows
      → All
          (λ x. is_marked gone (active_rows rows) x ≡ (is_active_endpoint x.status && gone x))
          rows
  marked_lem [] h = tt
  marked_lem (x ∷ xs) h = (
    let alone = unmarked x xs h.0 in ground (arith, ==_refl x.id),
    marked_later x xs xs h.0 (marked_lem xs h.1),
  )

  pub count-active :
      (rows : List Endpoint)
      → count gone (active_rows rows) ≡ count (λ e. is_active_endpoint e.status && gone e) rows
  count-active [] = refl
  count-active (x ∷ rows) = ground (arith, count-active rows)

  pub any-active :
      (k : ℕ) (rows : List Endpoint)
      → any (λ e. gone e && e.id == k) (active_rows rows)
        ≡ any (λ e. (is_active_endpoint e.status && gone e) && e.id == k) rows
  any-active k [] = refl
  any-active k (x ∷ rows) = ground (arith, any-active k rows)

  filter-twice :
      (p q r : ArtifactDir → Bool) (dirs : List ArtifactDir)
      → ((d : ArtifactDir) → r d ≡ (p d && q d))
      → filter q (filter p dirs) ≡ filter r dirs
  filter-twice p q r [] h = refl
  filter-twice p q r (d ∷ dirs) h = let e = h d in ground (arith, filter-twice p q r dirs h)

  filter-true : (dirs : List ArtifactDir) → dirs ≡ filter (λ d. true) dirs
  filter-true [] = refl
  filter-true (d ∷ dirs) = ap (λ ds. d ∷ ds) (filter-true dirs)

  pub filter-agree :
      (p q : ArtifactDir → Bool) (dirs : List ArtifactDir)
      → ((d : ArtifactDir) → p d ≡ q d)
      → filter p dirs ≡ filter q dirs
  filter-agree p q [] h = refl
  filter-agree p q (d ∷ dirs) h = let e = h d in ground (arith, filter-agree p q dirs h)

  pub sweep_lem :
      (es : List Endpoint) (dirs : List ArtifactDir)
      → sweep gone es dirs ≡ filter (λ d. not (any (λ e. gone e && e.id == d.endpoint_id) es)) dirs
  sweep_lem [] dirs = filter-true dirs
  sweep_lem (e ∷ es) dirs = elim (Bool-cases (gone e)) [
    | inr stays ↦ rw stays (sweep_lem es dirs)
    | inl goes ↦ rw goes (
        sweep_lem es (filter (λ d. not (d.endpoint_id == e.id)) dirs)
        ∙ filter-twice (λ d. not (d.endpoint_id == e.id)) _ _ dirs (λ d. ground arith))
  ]
