-- ===== src/Serving/Route.antt =====
-- `make_route` of api/serving.py: the path under which an endpoint is called.
use perzforge.Prelude.{
  ℕ, Bool, true, false, ◌&&◌, ◌||◌, [], ◌∷◌, ◌++◌, Text, codes, reverse, take, leb, ◌==◌,
  if◌then◌else◌,
}
use perzforge.RateLimit.Identity.{lower}

-- `[a-z0-9]`
abbrev pub is_plain : ℕ → Bool
is_plain c = (leb b'a' c && leb c b'z') || (leb b'0' c && leb c b'9')

-- `re.sub(r"[^a-z0-9]+", "-", s)`; `inside` says that a dash stands for the run already.
unfoldable pub dashed : Bool → Text → Text
dashed inside [] = []
dashed true (c ∷ s) = if is_plain c then c ∷ dashed false s else dashed true s
dashed false (c ∷ s) = if is_plain c then c ∷ dashed false s else b'-' ∷ dashed true s

unfoldable pub lstrip_dash : Text → Text
lstrip_dash [] = []
lstrip_dash (c ∷ s) = if c == b'-' then lstrip_dash s else c ∷ s

-- `s.strip("-")`
unfoldable pub strip_dash : Text → Text
unfolding lstrip_dash
strip_dash s = reverse (lstrip_dash (reverse (lstrip_dash s)))

abbrev pub or_model : Text → Text
or_model [] = codes "model"
or_model (c ∷ s) = c ∷ s

unfoldable pub route_base : Text → Text
unfolding dashed strip_dash lower
route_base name = or_model (take 48 (strip_dash (dashed false (lower name))))

-- The first parameter is `endpoint_id.hex`.
unfoldable pub make_route : (ℕ → Text) → Text → ℕ → Text
unfolding route_base
make_route hex name endpoint_id = route_base name ++ b'-' ∷ take 8 (hex endpoint_id)
