-- ===== src/RateLimit/Identity/Separation.antt =====
-- Which requests share a bucket.
use perzforge.Prelude.{◌≡◌, false, [], ◌∷◌, ◌++◌, Text, codes, All, arith, ◌==◌}
use perzforge.RateLimit.Identity.{bucket_key, by_ip}

-- A text without a colon.
abbrev pub HasNoColon : Text → Type 0
HasNoColon name = All (λ c. (c == b':') ≡ false) name

-- Up to the first colon two texts that agree have the same parts.
split_at_colon :
    (a b x y : Text)
    → HasNoColon a
    → HasNoColon b
    → a ++ b':' ∷ x ≡ b ++ b':' ∷ y
    → (a ≡ b) × (x ≡ y)
split_at_colon [] [] x y ha hb e = ground arith
split_at_colon [] (c ∷ b) x y ha hb e = ground arith
split_at_colon (c ∷ a) [] x y ha hb e = ground arith
split_at_colon (c ∷ a) (d ∷ b) x y ha hb e = ground (arith, split_at_colon a b x y ha.1 hb.1)

drop_prefix : (p a b : Text) → p ++ a ≡ p ++ b → a ≡ b
drop_prefix [] a b e = e
drop_prefix (c ∷ p) a b e = drop_prefix p a b (ground arith)

-- Two requests share a bucket only if both the names of their policies and their identities agree,
-- for policy names without a colon.
pub bucket_key-injective :
    (name name' identity identity' : Text)
    → HasNoColon name
    → HasNoColon name'
    → bucket_key name identity ≡ bucket_key name' identity'
    → (name ≡ name') × (identity ≡ identity')
unfolding bucket_key
bucket_key-injective name name' identity identity' h h' e =
    split_at_colon name name' identity identity' h h' (
      drop_prefix (codes "perzforge:ratelimit:") (name ++ b':' ∷ identity)
        (name' ++ b':' ∷ identity') e)

pub by_ip-injective : (ip ip' : Text) → by_ip ip ≡ by_ip ip' → ip ≡ ip'
unfolding by_ip
by_ip-injective ip ip' e = drop_prefix (codes "ip:") ip ip' e
