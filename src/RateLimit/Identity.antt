-- ===== src/RateLimit/Identity.antt =====
-- `client_ip`, `resolve_identity` and `bucket_key` of api/rate_limit.py. Header values are lists of
-- code points below 256, as the server decodes them. `jwt.decode` is a parameter: `none` is a
-- `PyJWTError`, and `some` holds the payload's `sub`, if it has one.
pub mod Separation
use perzforge.Prelude.{
  ℕ, ◌+◌, ◌≡◌, Bool, true, false, ◌&&◌, ◌||◌, Option, none, some, List, [], ◌∷◌, ◌++◌, map, reverse,
  Text, codes, starts_with, take, drop, leb, ◌==◌, if◌then◌else◌,
}

-- `str.isspace` below 256.
unfoldable pub is_space : ℕ → Bool
is_space c = (leb 9 c && leb c 13) || (leb 28 c && leb c 32) || (c == 133) || (c == 160)

unfoldable pub lstrip : Text → Text
unfolding is_space
lstrip [] = []
lstrip (c ∷ s) = if is_space c then lstrip s else c ∷ s

-- `str.strip()`
unfoldable pub strip : Text → Text
unfolding lstrip
strip s = reverse (lstrip (reverse (lstrip s)))

-- `str.lower` on ASCII.
unfoldable pub lower : Text → Text
lower s = map (λ c. if leb b'A' c && leb c b'Z' then c + 32 else c) s

-- `s.split(",")[0]`
unfoldable pub before_comma : Text → Text
before_comma [] = []
before_comma (c ∷ s) = let rest = before_comma s in if c == b',' then [] else c ∷ rest

-- `a or b` on texts that may be missing or empty.
unfoldable pub or_else : Option Text → Text → Text
or_else none t = t
or_else (some []) t = t
or_else (some (c ∷ s)) t = c ∷ s

-- `headers.get("x-forwarded-for") or headers.get("X-Forwarded-For")`
unfoldable pub forwarded_for : (Text → Option Text) → Text
unfolding or_else
forwarded_for headers =
    or_else (headers (codes "x-forwarded-for")) (or_else (headers (codes "X-Forwarded-For")) [])

ip_of : Text → Text → Text
unfolding or_else before_comma strip
ip_of [] host = host
ip_of (c ∷ s) host = or_else (some (strip (before_comma (c ∷ s)))) host

unfoldable pub client_ip : (Text → Option Text) → Option Text → Text
unfolding ip_of forwarded_for or_else
client_ip headers client_host =
    ip_of (forwarded_for headers) (or_else client_host (codes "unknown"))

-- API_KEY_PREFIX of api/security.py
unfoldable pub api_key_prefix : Text
api_key_prefix = codes "pzf_"

unfoldable pub is_api_key_token : Text → Bool
unfolding api_key_prefix
is_api_key_token token = starts_with api_key_prefix token

unfoldable pub by_ip : Text → Text
by_ip ip = codes "ip:" ++ ip

-- `sub` of a token that decodes.
unfoldable pub user_or_ip : Text → Option (Option Text) → Text
unfolding by_ip
user_or_ip ip none = by_ip ip
user_or_ip ip (some none) = by_ip ip
user_or_ip ip (some (some [])) = by_ip ip
user_or_ip ip (some (some (c ∷ sub))) = codes "user:" ++ c ∷ sub

module _ (decode : Text → Option (Option Text)) where
  unfoldable pub of_token : Text → Text → Text
  unfolding by_ip user_or_ip is_api_key_token
  of_token ip [] = by_ip ip
  of_token ip (c ∷ t) =
      if is_api_key_token (c ∷ t)
      then codes "key:" ++ take 8 (c ∷ t)
      else user_or_ip ip (decode (c ∷ t))

  of_header : Text → Option Text → Text
  unfolding of_token by_ip lower strip
  of_header ip none = by_ip ip
  of_header ip (some authorization) =
      if starts_with (codes "bearer ") (lower authorization)
      then of_token ip (strip (drop 7 authorization))
      else by_ip ip

  unfoldable pub resolve_identity : Option Text → Text → Bool → Text
  unfolding of_header by_ip
  resolve_identity authorization ip force_ip =
      if force_ip then by_ip ip else of_header ip authorization

unfoldable pub bucket_key : Text → Text → Text
bucket_key policy_name identity = codes "perzforge:ratelimit:" ++ (policy_name ++ b':' ∷ identity)
