-- ===== src/RateLimit/Policy/Routes.antt =====
-- Which policy a request gets.
use perzforge.Prelude.{
  ◌≡◌, refl, true, false, List, [], ◌∷◌, ◌++◌, Text, codes, text_beq, any, All, ◌==◌, Bool-cases,
  arith, ap, ◌∙◌, text_beq-eq, ◌↔◌, ◌⊎◌, inl, inr,
}
use perzforge.Settings.{Settings}
use perzforge.RateLimit.Policy.{
  RateLimitPolicy, RouteRule, exact, login_rule, refresh_rule, jobs_rule, llm_rule, default_policy,
  auth_policy, jobs_write_policy, llm_policy, rstrip_slash, normalized, upper, resolve_policy,
  or_root, first_match, is_exempt_path, route_rules, matches,
}

rstrip_slash-append : (path : Text) → rstrip_slash (path ++ b'/' ∷ []) ≡ rstrip_slash path
unfolding rstrip_slash
rstrip_slash-append [] = refl
rstrip_slash-append (c ∷ s) = rw (rstrip_slash-append s)

normalized-append : (path : Text) → normalized (path ++ b'/' ∷ []) ≡ normalized path
unfolding normalized
normalized-append path = ap or_root (rstrip_slash-append path)

-- A trailing slash changes neither the policy of a request nor its exemption.
pub resolve_policy-slash :
    (s : Settings) (method path : Text)
    → (resolve_policy s method (path ++ b'/' ∷ []) ≡ resolve_policy s method path)
      × (is_exempt_path (path ++ b'/' ∷ []) ≡ is_exempt_path path)
unfolding resolve_policy is_exempt_path
resolve_policy-slash s method path = (rw (normalized-append path), rw (normalized-append path))

-- The paths of the two credential endpoints.
abbrev pub IsCredentialPath : Text → Type 0
IsCredentialPath path =
    (normalized path ≡ codes "/api/v1/auth/login")
    ⊎ (normalized path ≡ codes "/api/v1/auth/refresh")

-- The first rule decides, or the rest does.
rule_or_rest :
    (s : Settings) (rule : RouteRule) (rules : List RouteRule) (method path : Text)
    → ((first_match s (rule ∷ rules) method path ≡ rule.policy_factory s)
        × (any (text_beq method) rule.methods ≡ true)
        × (matches rule path ≡ true))
      ⊎ (first_match s (rule ∷ rules) method path ≡ first_match s rules method path)
rule_or_rest s rule rules method path =
    unfold first_match in
    elim (Bool-cases (any (text_beq method) rule.methods)) [
      | inl named ↦ elim (Bool-cases (matches rule path)) [
        | inl hit ↦ inl (rw (named, hit), named, hit)
        | inr miss ↦ inr (rw (named, miss))
      ]
      | inr other ↦ inr (rw other)
    ]

-- A rule for POST to one exact path.
exact_hit :
    (rule : RouteRule) (method path : Text)
    → rule.methods ≡ codes "POST" ∷ []
    → rule.match ≡ exact
    → any (text_beq method) rule.methods ≡ true
    → matches rule path ≡ true
    → (method ≡ codes "POST") × (path ≡ normalized rule.path)
unfolding matches
exact_hit rule method path posts is_exact named hit =
    ground (arith, text_beq-eq method (codes "POST"), text_beq-eq path (normalized rule.path))

unforced : {p q : RateLimitPolicy} → p ≡ q → q.force_ip ≡ false → p.force_ip ≡ true → ⊥
unforced e f h = cc (ap (λ (p : RateLimitPolicy). p.force_ip) e)

-- Neither of the other rules, nor the default, limits by address.
forced :
    (s : Settings) (method path : Text)
    → (first_match s route_rules method path).force_ip ≡ true
    → (method ≡ codes "POST")
      × ((path ≡ codes "/api/v1/auth/login") ⊎ (path ≡ codes "/api/v1/auth/refresh"))
unfolding route_rules first_match
forced s method path h =
    elim (rule_or_rest s login_rule (refresh_rule ∷ jobs_rule ∷ llm_rule ∷ []) method path) [
      | inl (e, named, hit) ↦
          let x = exact_hit login_rule method path refl refl named hit in (x.0, inl x.1)
      | inr e₁ ↦ elim (rule_or_rest s refresh_rule (jobs_rule ∷ llm_rule ∷ []) method path) [
        | inl (e, named, hit) ↦
            let x = exact_hit refresh_rule method path refl refl named hit in (x.0, inr x.1)
        | inr e₂ ↦ elim (rule_or_rest s jobs_rule (llm_rule ∷ []) method path) [
          | inl (e, named, hit) ↦ absurd (unforced (e₁ ∙ e₂ ∙ e) refl h)
          | inr e₃ ↦ elim (rule_or_rest s llm_rule [] method path) [
            | inl (e, named, hit) ↦ absurd (unforced (e₁ ∙ e₂ ∙ e₃ ∙ e) refl h)
            | inr e₄ ↦ absurd (unforced (e₁ ∙ e₂ ∙ e₃ ∙ e₄) refl h)
          ]
        ]
      ]
    ]

login_forced :
    (s : Settings)
    → (first_match s route_rules (codes "POST") (codes "/api/v1/auth/login")).force_ip ≡ true
unfolding first_match route_rules
login_forced s = refl

refresh_forced :
    (s : Settings)
    → (first_match s route_rules (codes "POST") (codes "/api/v1/auth/refresh")).force_ip ≡ true
unfolding first_match route_rules
refresh_forced s = refl

-- A request is limited by its address alone exactly if it is a POST, in any case of letters, to one
-- of the two credential paths, with any trailing slashes.
pub force_ip_exactly :
    (s : Settings) (method path : Text)
    → ((resolve_policy s method path).force_ip ≡ true)
      ↔ ((upper method ≡ codes "POST") × IsCredentialPath path)
unfolding resolve_policy
force_ip_exactly s method path = (
  forced s (upper method) (normalized path),
  λ h. elim h.1 [
    | inl login ↦ rw (h.0, login) (login_forced s)
    | inr refresh ↦ rw (h.0, refresh) (refresh_forced s)
  ],
)

-- The four tiers are all that there is.
pub resolve_policy-cases :
    (s : Settings) (method path : Text)
    → (resolve_policy s method path ≡ auth_policy s)
      ⊎ ((resolve_policy s method path ≡ jobs_write_policy s)
          ⊎ ((resolve_policy s method path ≡ llm_policy s)
              ⊎ (resolve_policy s method path ≡ default_policy s)))
unfolding resolve_policy
resolve_policy-cases s method path =
    let m = upper method in
    let p = normalized path in
    elim (rule_or_rest s login_rule (refresh_rule ∷ jobs_rule ∷ llm_rule ∷ []) m p) [
      | inl hit ↦ inl hit.0
      | inr e₁ ↦ elim (rule_or_rest s refresh_rule (jobs_rule ∷ llm_rule ∷ []) m p) [
        | inl hit ↦ inl (e₁ ∙ hit.0)
        | inr e₂ ↦ elim (rule_or_rest s jobs_rule (llm_rule ∷ []) m p) [
          | inl hit ↦ inr (inl (e₁ ∙ e₂ ∙ hit.0))
          | inr e₃ ↦ elim (rule_or_rest s llm_rule [] m p) [
            | inl hit ↦ inr (inr (inl (e₁ ∙ e₂ ∙ e₃ ∙ hit.0)))
            | inr e₄ ↦ inr (inr (inr (e₁ ∙ e₂ ∙ e₃ ∙ e₄)))
          ]
        ]
      ]
    ]

-- A credential request is never exempt.
pub forced-not-exempt :
    (s : Settings) (method path : Text)
    → (resolve_policy s method path).force_ip ≡ true
    → is_exempt_path path ≡ false
unfolding is_exempt_path
forced-not-exempt s method path h = elim ((force_ip_exactly s method path).0 h).1 [
  | inl login ↦ rw login
  | inr refresh ↦ rw refresh
]

-- What holds of the four tiers holds of every request's policy.
policy_induction :
    (P : RateLimitPolicy → Type 0) (s : Settings) (method path : Text)
    → P (auth_policy s)
    → P (jobs_write_policy s)
    → P (llm_policy s)
    → P (default_policy s)
    → P (resolve_policy s method path)
policy_induction P s method path a j l d = elim (resolve_policy-cases s method path) [
  | inl e ↦ rw e a
  | inr (inl e) ↦ rw e j
  | inr (inr (inl e)) ↦ rw e l
  | inr (inr (inr e)) ↦ rw e d
]

-- Limiting by address, and the name of the tier, both single out the tier of the credentials.
pub forced-auth :
    (s : Settings) (method path : Text)
    → (resolve_policy s method path).force_ip ≡ true
    → resolve_policy s method path ≡ auth_policy s
unfolding auth_policy jobs_write_policy llm_policy default_policy
forced-auth s method path =
    policy_induction (λ p. p.force_ip ≡ true → p ≡ auth_policy s) s method path (λ h. refl)
      (λ h. cc) (λ h. cc) (λ h. cc)

pub named-auth :
    (s : Settings) (method path : Text)
    → (resolve_policy s method path).name ≡ codes "auth"
    → (resolve_policy s method path).force_ip ≡ true
unfolding auth_policy jobs_write_policy llm_policy default_policy
named-auth s method path =
    policy_induction (λ p. p.name ≡ codes "auth" → p.force_ip ≡ true) s method path (λ h. refl)
      (λ h. ground arith) (λ h. ground arith) (λ h. ground arith)

pub name-HasNoColon :
    (s : Settings) (method path : Text)
    → All (λ c. (c == b':') ≡ false) (resolve_policy s method path).name
unfolding auth_policy jobs_write_policy llm_policy default_policy
name-HasNoColon s method path =
    policy_induction (λ p. All (λ c. (c == b':') ≡ false) p.name) s method path (ground arith)
      (ground arith) (ground arith) (ground arith)
