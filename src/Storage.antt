-- ===== src/Storage.antt =====
-- api/storage.py: the object store behind a bucket, as the list of its objects. `str` of a UUID and
-- of an integer are parameters.
pub mod Deletion
pub mod Prefixes
use perzforge.Prelude.{
  ℕ, zero, suc, ◌+◌, ◌-◌, ◌*◌, ◌/◌, ◌≡◌, Bool, true, false, not, ◌&&◌, ◌||◌, Option, none, some,
  List, [], ◌∷◌, ◌++◌, map, Text, String, codes, starts_with, text_beq, filter, any, take, drop,
  length, ltb, leb, ◌==◌, if◌then◌else◌, max,
}

pub record Object : Type 0 where
  pub key : Text
  pub size : ℕ

abbrev pub Objects : Type 0
Objects = List Object

-- How a UUID and an integer are printed; `number` is `decimal` as a native text.
pub record Printing : Type 0 where
  pub uuid_text : ℕ → Text
  pub decimal : ℕ → Text
  pub number : ℕ → String

unfoldable pub model_prefix : Printing → ℕ → Text → ℕ → Text
model_prefix str user_id name version =
    codes "models/"
    ++ (str.uuid_text user_id ++ (b'/' ∷ (name ++ (b'/' ∷ (str.decimal version ++ b'/' ∷ [])))))

-- Megabytes, rounded up.
unfoldable pub size_to_storage_mb : ℕ → ℕ
size_to_storage_mb size_bytes =
    if leb size_bytes 0 then 0 else max 1 ((size_bytes + (1024 * 1024 - 1)) / (1024 * 1024))

-- `put_bytes`: an object under the same key is replaced.
unfoldable pub put_bytes : Text → ℕ → Objects → Objects
put_bytes key size objects =
    record { key = key; size = size } ∷ filter (λ o. not (text_beq o.key key)) objects

unfoldable pub object_exists : Text → Objects → Bool
object_exists key objects = any (λ o. text_beq o.key key) objects

-- `list_keys`, all pages of it.
unfoldable pub list_keys : Text → Objects → List Text
list_keys prefix objects = map (λ o. o.key) (filter (λ o. starts_with prefix o.key) objects)

-- One call of `delete_objects`.
unfoldable pub delete_objects : List Text → Objects → Objects
delete_objects keys objects = filter (λ o. not (any (text_beq o.key) keys)) objects

-- The loop over `range(0, len(keys), 1000)`, on fuel.
unfoldable pub delete_chunks : ℕ → ℕ → List Text → Objects → ℕ → Objects × ℕ
unfolding delete_objects
delete_chunks zero offset keys objects deleted = (objects, deleted)
delete_chunks (suc fuel) offset keys objects deleted =
    let chunk = take 1000 (drop offset keys) in
    let rest =
      delete_chunks fuel (offset + 1000) keys (delete_objects chunk objects)
        (deleted + length chunk) in
    if leb (length keys) offset then (objects, deleted) else rest

-- `delete_prefix`: the objects left, and the number of keys deleted. A round needs a key, so one
-- more round than there are keys is enough.
unfoldable pub delete_prefix : Text → Objects → Objects × ℕ
delete_prefix prefix objects =
    let keys = list_keys prefix objects in delete_chunks (length keys + 1) 0 keys objects 0

abbrev pub ends_with_slash : Text → Bool
ends_with_slash [] = false
ends_with_slash (c ∷ []) = c == b'/'
ends_with_slash (c ∷ d ∷ s) = ends_with_slash (d ∷ s)

unfoldable pub prefix_has_file : Text → Text → Objects → Bool
unfolding object_exists
prefix_has_file prefix relative_name objects =
    object_exists
      (if ends_with_slash prefix then prefix ++ relative_name else prefix ++ b'/' ∷ relative_name)
      objects

-- A file of `list_files`.
pub record File : Type 0 where
  pub key : Text
  pub size : ℕ
  pub full_key : Text

abbrev pub is_file_name : Text → Bool
is_file_name [] = false
is_file_name (c ∷ s) = not (ends_with_slash (c ∷ s))

-- The listing gives only keys under the prefix, so `relative` is the rest behind it.
abbrev pub files_of : Text → Objects → List File
files_of prefix [] = []
files_of prefix (o ∷ os) =
    let relative = drop (length prefix) o.key in
    let rest = files_of prefix os in
    if is_file_name relative
    then record { key = relative; size = o.size; full_key = o.key } ∷ rest
    else rest

unfoldable pub list_files : Text → Objects → List File
list_files prefix objects = files_of prefix (filter (λ o. starts_with prefix o.key) objects)
