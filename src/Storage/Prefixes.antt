-- ===== src/Storage/Prefixes.antt =====
-- Whose objects lie under the prefix of a model.
use mathlib.Core.List.{append_assoc}
use perzforge.Prelude.{
  ℕ, ◌≡◌, refl, sym, ◌∙◌, Bool, true, false, ◌&&◌, [], ◌∷◌, ◌++◌, Text, codes, starts_with, All,
  arith, ◌==◌,
}
use perzforge.Storage.{Printing, model_prefix}

abbrev pub HasNoSlash : Text → Type 0
HasNoSlash name = All (λ c. (c == b'/') ≡ false) name

-- What the model relies on of `str`: different values print differently, and none with a slash.
pub record IsFaithful (str : Printing) : Type 0 where
  pub uuid_injective : (a b : ℕ) → str.uuid_text a ≡ str.uuid_text b → a ≡ b
  pub uuid_plain : (a : ℕ) → HasNoSlash (str.uuid_text a)
  pub decimal_injective : (a b : ℕ) → str.decimal a ≡ str.decimal b → a ≡ b
  pub decimal_plain : (a : ℕ) → HasNoSlash (str.decimal a)

starts_with-split : (p s : Text) → starts_with p s ≡ true → (rest : Text) × (s ≡ p ++ rest)
starts_with-split [] s h = (s, refl)
starts_with-split (c ∷ p) [] h = cc
starts_with-split (c ∷ p) (d ∷ s) h =
    let (same, tail) = both (c == d) (starts_with p s) h in
    let (rest, e) = starts_with-split p s tail in (rest, ground arith)
  where
    both : (a b : Bool) → (a && b) ≡ true → (a ≡ true) × (b ≡ true)
    both a b h = ground arith

pub starts_with-append : (p rest : Text) → starts_with p (p ++ rest) ≡ true
starts_with-append [] rest = refl
starts_with-append (c ∷ p) rest = ground (arith, starts_with-append p rest)

split_at_slash :
    (a b x y : Text)
    → HasNoSlash a
    → HasNoSlash b
    → a ++ b'/' ∷ x ≡ b ++ b'/' ∷ y
    → (a ≡ b) × (x ≡ y)
split_at_slash [] [] x y ha hb e = ground arith
split_at_slash [] (c ∷ b) x y ha hb e = ground arith
split_at_slash (c ∷ a) [] x y ha hb e = ground arith
split_at_slash (c ∷ a) (d ∷ b) x y ha hb e = ground (arith, split_at_slash a b x y ha.1 hb.1)

drop_prefix : (p a b : Text) → p ++ a ≡ p ++ b → a ≡ b
drop_prefix [] a b e = e
drop_prefix (c ∷ p) a b e = drop_prefix p a b (ground arith)

-- The prefix with what follows it, one part behind the other.
nested :
    (str : Printing) (user_id : ℕ) (name : Text) (version : ℕ) (rest : Text)
    → model_prefix str user_id name version ++ rest
      ≡ codes "models/"
        ++ (str.uuid_text user_id ++ b'/' ∷ (name ++ b'/' ∷ (str.decimal version ++ b'/' ∷ rest)))
unfolding model_prefix
nested str user_id name version rest = simp append_assoc

-- Under the prefix of a model lie only objects of that model, as long as the names of models have
-- no slash: a key of another model, of whatever user, does not start with it.
pub prefix_isolated :
    (str : Printing) (user_id other : ℕ) (name name' : Text) (version version' : ℕ)
    (relative : Text)
    → IsFaithful str
    → HasNoSlash name
    → HasNoSlash name'
    → starts_with
        (model_prefix str user_id name version)
        (model_prefix str other name' version' ++ relative)
      ≡ true
    → (user_id ≡ other) × (name ≡ name') × (version ≡ version')
prefix_isolated str user_id other name name' version version' relative str! plain plain' h =
    let (rest, e) =
      starts_with-split (model_prefix str user_id name version)
        (model_prefix str other name' version' ++ relative) h in
    let whole =
      sym (nested str other name' version' relative) ∙ e ∙ nested str user_id name version rest in
    let (users, e₁) =
      split_at_slash (str.uuid_text other) (str.uuid_text user_id) _ _ (str!.uuid_plain other)
        (str!.uuid_plain user_id) (drop_prefix (codes "models/") _ _ whole) in
    let (names, e₂) = split_at_slash name' name _ _ plain' plain e₁ in
    let (versions, e₃) =
      split_at_slash (str.decimal version') (str.decimal version) _ _ (str!.decimal_plain version')
        (str!.decimal_plain version) e₂ in
    (
      sym (str!.uuid_injective other user_id users),
      sym names,
      sym (str!.decimal_injective version' version versions),
    )

-- With a slash in a name it fails: every object of the model `name/version` of a user, in whatever
-- version of its own, lies under the prefix of the user's model `name` in that version.
pub prefix_collides :
    (str : Printing) (user_id : ℕ) (name : Text) (version version' : ℕ) (relative : Text)
    → starts_with
        (model_prefix str user_id name version)
        (model_prefix str user_id (name ++ b'/' ∷ str.decimal version) version' ++ relative)
      ≡ true
prefix_collides str user_id name version version' relative =
    let rest = str.decimal version' ++ b'/' ∷ relative in
    rw
      (nested str user_id (name ++ b'/' ∷ str.decimal version) version' relative
        ∙ shift
        ∙ sym (nested str user_id name version rest))
      (starts_with-append (model_prefix str user_id name version) rest)
  where
    shift :
        codes "models/"
          ++ (str.uuid_text user_id
              ++ b'/'
                ∷ ((name ++ b'/' ∷ str.decimal version)
                    ++ b'/' ∷ (str.decimal version' ++ b'/' ∷ relative)))
        ≡ codes "models/"
          ++ (str.uuid_text user_id
              ++ b'/'
                ∷ (name
                    ++ b'/'
                      ∷ (str.decimal version ++ b'/' ∷ (str.decimal version' ++ b'/' ∷ relative))))
    shift = simp append_assoc
