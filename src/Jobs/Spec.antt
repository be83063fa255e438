-- ===== src/Jobs/Spec.antt =====
-- api/schemas/job.py and `Settings.image_prefixes` of api/config.py: which job specifications are
-- valid.
use perzforge.Prelude.{
  Bool, true, false, not, ◌&&◌, List, [], ◌∷◌, Text, any, all, starts_with, filter, map, leb, ◌==◌,
  if◌then◌else◌,
}
use perzforge.Settings.{Settings}
use perzforge.Schema.{JobSpec}
use perzforge.RateLimit.Identity.{strip}

abbrev pub is_empty : Text → Bool
is_empty [] = true
is_empty (c ∷ s) = false

-- `s.split(",")`: the first part, and the others.
unfoldable pub split_comma : Text → Text × List Text
split_comma [] = ([], [])
split_comma (c ∷ s) =
    let (part, parts) = split_comma s in if c == b',' then ([], part ∷ parts) else (c ∷ part, parts)

unfoldable pub image_prefixes : Settings → List Text
unfolding split_comma strip
image_prefixes s =
    let (part, parts) = split_comma s.allowed_image_prefixes in
    filter (λ prefix. not (is_empty prefix)) (map strip (part ∷ parts))

-- `validate_command_is_argv`, and `min_length=1`.
unfoldable pub is_argv : List Text → Bool
is_argv [] = false
is_argv (part ∷ parts) = all (λ t. not (is_empty t)) (part ∷ parts)

-- `validate_allowed_image`
unfoldable pub is_allowed_image : Settings → Text → Bool
is_allowed_image s image = any (λ prefix. starts_with prefix image) (image_prefixes s)

-- `JobSpec.model_validate`
unfoldable pub is_valid_spec : Settings → JobSpec → Bool
is_valid_spec s spec =
    not (is_empty spec.image)
    && is_allowed_image s spec.image
    && is_argv spec.command
    && leb 1 spec.timeout_minutes
    && leb spec.timeout_minutes 720
