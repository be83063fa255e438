-- ===== src/Storage/Deletion.antt =====
-- Deleting a prefix, in chunks of a thousand keys.
use native.Mathlib.Nat.{zero-add}
use perzforge.Prelude.{
  ℕ, zero, suc, ◌+◌, ◌≤◌, ◌<◌, ◌≡◌, refl, sym, ap, ap₂, ◌∙◌, Bool, true, not, ◌&&◌, ◌||◌, List, [],
  ◌∷◌, ◌++◌, Text, starts_with, text_beq, text_beq_refl, text_beq-eq, filter, any, take, drop,
  length, All, length-append, leb, arith, Bool-cases, inl, inr,
}
use perzforge.Storage.{Object, Objects, list_keys, delete_objects, delete_chunks, delete_prefix}

module _ {A : Type 0} where
  any-append : (p : A → Bool) (xs ys : List A) → any p (xs ++ ys) ≡ (any p xs || any p ys)
  any-append p [] ys = refl
  any-append p (x ∷ xs) ys = ground (arith, any-append p xs ys)

  filter-filter :
      (p q r : A → Bool) (xs : List A)
      → ((x : A) → r x ≡ (p x && q x))
      → filter p (filter q xs) ≡ filter r xs
  filter-filter p q r [] h = refl
  filter-filter p q r (x ∷ xs) h = let ih = filter-filter p q r xs h in let e = h x in ground arith

  filter-same : (p q : A → Bool) (xs : List A) → ((x : A) → p x ≡ q x) → filter p xs ≡ filter q xs
  filter-same p q [] h = refl
  filter-same p q (x ∷ xs) h = let ih = filter-same p q xs h in let e = h x in ground arith

  drop-nil : (n : ℕ) → drop {A = A} n [] ≡ []
  drop-nil zero = refl
  drop-nil (suc n) = refl

  drop-drop : (offset n : ℕ) (xs : List A) → drop (offset + n) xs ≡ drop n (drop offset xs)
  drop-drop zero n xs = rw zero-add
  drop-drop (suc offset) n [] = drop-nil (suc offset + n) ∙ sym (drop-nil n)
  drop-drop (suc offset) n (x ∷ xs) =
      let e : suc offset + n ≡ suc (offset + n) = omega arith in
      ap (λ (k : ℕ). drop k (x ∷ xs)) e ∙ drop-drop offset n xs

  take-append-drop : (n : ℕ) (xs : List A) → take n xs ++ drop n xs ≡ xs
  take-append-drop zero xs = refl
  take-append-drop (suc n) [] = refl
  take-append-drop (suc n) (x ∷ xs) = ap (λ l. x ∷ l) (take-append-drop n xs)

  -- A chunk and what follows it make up what is left.
  chunk-rest :
      (n offset : ℕ) (xs : List A)
      → take n (drop offset xs) ++ drop (offset + n) xs ≡ drop offset xs
  chunk-rest n offset xs =
      ap (λ l. take n (drop offset xs) ++ l) (drop-drop offset n xs)
      ∙ take-append-drop n (drop offset xs)

  drop-past : (offset : ℕ) (xs : List A) → length xs ≤ offset → drop offset xs ≡ []
  drop-past zero [] h = refl
  drop-past zero (x ∷ xs) h = absurd (omega arith)
  drop-past (suc offset) [] h = refl
  drop-past (suc offset) (x ∷ xs) h = drop-past offset xs (omega arith)

-- The keys of two calls may as well go in one.
delete-delete :
    (ks ls : List Text) (objects : Objects)
    → delete_objects ls (delete_objects ks objects) ≡ delete_objects (ks ++ ls) objects
unfolding delete_objects
delete-delete ks ls objects =
    filter-filter (λ o. not (any (text_beq o.key) ls)) (λ o. not (any (text_beq o.key) ks))
      (λ o. not (any (text_beq o.key) (ks ++ ls))) objects
      (λ o.
        rw (any-append (text_beq o.key) ks ls)
          (de_morgan (any (text_beq o.key) ks) (any (text_beq o.key) ls)))
  where
    de_morgan : (a b : Bool) → not (a || b) ≡ (not b && not a)
    de_morgan a b = ground arith

delete-nothing : (objects : Objects) → delete_objects [] objects ≡ objects
unfolding delete_objects
delete-nothing [] = refl
delete-nothing (o ∷ os) = ap (λ l. o ∷ l) (delete-nothing os)

-- The loop deletes the keys from the offset on, and counts them.
delete_chunks_lem :
    (fuel offset : ℕ) (keys : List Text) (objects : Objects) (deleted : ℕ)
    → length keys < offset + fuel
    → delete_chunks fuel offset keys objects deleted
      ≡ (delete_objects (drop offset keys) objects, deleted + length (drop offset keys))
unfolding delete_chunks
delete_chunks_lem zero offset keys objects deleted h =
    let e = drop-past offset keys (omega arith) in
    rw (e, delete-nothing objects) (ap (λ (n : ℕ). (objects, n)) (omega arith))
delete_chunks_lem (suc fuel) offset keys objects deleted h =
    elim (Bool-cases (leb (length keys) offset)) [
      | inl past ↦
          let e = drop-past offset keys (ground arith) in
          rw (past, e, delete-nothing objects) (ap (λ (n : ℕ). (objects, n)) (omega arith))
      | inr more ↦
          let chunk = take 1000 (drop offset keys) in
          let ih =
            delete_chunks_lem fuel (offset + 1000) keys (delete_objects chunk objects)
              (deleted + length chunk) (omega arith) in
          rw more (
            ih
            ∙ ap₂ (λ (os : Objects) (n : ℕ). (os, n))
                (delete-delete chunk (drop (offset + 1000) keys) objects
                  ∙ ap (λ ks. delete_objects ks objects) (chunk-rest 1000 offset keys))
                (sum chunk (drop (offset + 1000) keys) (drop offset keys)
                  (chunk-rest 1000 offset keys)))
    ]
  where
    sum : (a b c : List Text) → a ++ b ≡ c → deleted + length a + length b ≡ deleted + length c
    sum a b c e = omega (arith, length-append a b, ap length e)

or_right : (a : Bool) {b : Bool} → b ≡ true → (a || b) ≡ true
or_right a h = ground arith

and_true_right : (a : Bool) → (a && true) ≡ a
and_true_right a = ground arith

-- An object under the same key.
abbrev same_key : Text → Object → Bool
same_key key o = text_beq key o.key

-- The keys that were listed are those of the objects under the prefix.
any-list_keys :
    (prefix : Text) (objects : Objects) (key : Text)
    → any (text_beq key) (list_keys prefix objects)
      ≡ (starts_with prefix key && any (same_key key) objects)
unfolding list_keys
any-list_keys prefix [] key = ground arith
any-list_keys prefix (o ∷ os) key =
    let ih = any-list_keys prefix os key in
    elim (Bool-cases (text_beq key o.key)) [
      | inl same ↦ let e = ap (starts_with prefix) (text_beq-eq key o.key same) in ground arith
      | inr other ↦ ground arith
    ]

All-self : (os : Objects) → All (λ o. any (same_key o.key) os ≡ true) os
All-self [] = tt
All-self (o ∷ os) = (rw (text_beq_refl o.key), weaken os (All-self os))
  where
    weaken :
        (rest : Objects)
        → All (λ x. any (same_key x.key) os ≡ true) rest
        → All (λ x. any (same_key x.key) (o ∷ os) ≡ true) rest
    weaken [] h = tt
    weaken (x ∷ xs) h = (or_right (same_key x.key o) h.0, weaken xs h.1)

filter-agree :
    (p q : Object → Bool) (os : Objects) → All (λ o. p o ≡ q o) os → filter p os ≡ filter q os
filter-agree p q [] h = refl
filter-agree p q (o ∷ os) h = let ih = filter-agree p q os h.1 in let e = h.0 in ground arith

All-map : (P Q : Object → Type 0) (os : Objects) → ((o : Object) → P o → Q o) → All P os → All Q os
All-map P Q [] f h = tt
All-map P Q (o ∷ os) f h = (f o h.0, All-map P Q os f h.1)

delete-listed :
    (prefix : Text) (objects : Objects)
    → delete_objects (list_keys prefix objects) objects
      ≡ filter (λ o. not (starts_with prefix o.key)) objects
unfolding delete_objects
delete-listed prefix objects =
    filter-agree (λ o. not (any (text_beq o.key) (list_keys prefix objects)))
      (λ o. not (starts_with prefix o.key)) objects
      (All-map (λ o. any (same_key o.key) objects ≡ true)
        (λ o.
          not (any (text_beq o.key) (list_keys prefix objects)) ≡ not (starts_with prefix o.key))
        objects (λ o h. rw (any-list_keys prefix objects o.key, h) (ap not (and_true_right _)))
        (All-self objects))

-- Deleting a prefix leaves exactly the objects whose keys do not start with it, and counts those
-- that do, however many chunks it takes.
pub delete_prefix-exactly :
    (prefix : Text) (objects : Objects)
    → delete_prefix prefix objects
      ≡ (filter (λ o. not (starts_with prefix o.key)) objects, length (list_keys prefix objects))
unfolding delete_prefix
delete_prefix-exactly prefix objects =
    let keys = list_keys prefix objects in
    delete_chunks_lem (length keys + 1) 0 keys objects 0 (omega arith)
    ∙ ap₂ (λ (os : Objects) (n : ℕ). (os, n)) (delete-listed prefix objects) (omega arith)
