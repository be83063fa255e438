-- ===== src/Tests/Keys.antt =====
-- The theorems on API keys, users and log streams at concrete inputs.
use perzforge.Prelude.{
  String, ◌≡◌, ◌≢◌, ◌++◌, refl, Bool, true, false, none, some, List, [], ◌∷◌, Text, codes, text_beq,
  text_beq-eq, eq_iff, Bool-cases, str_eq, eq_iff, inl, inr, drop, length, arith, if◌then◌else◌,
}
use perzforge.Settings.{default_settings}
use perzforge.Schema.{jobs_read}
use perzforge.Http.{ok}
use perzforge.RateLimit.Identity.{is_api_key_token, api_key_prefix}
use perzforge.Auth.{
  Crypto, authenticate_api_key, require_scopes, get_current_principal, get_current_user,
  get_current_admin, get_authenticated_user, resolve_principal_from_token, authenticate_jwt,
  role_scopes,
}
use perzforge.Keys.{CreateApiKeyRequest}
use perzforge.Admin.{disable_user}
use perzforge.Admin.Lockout.{serve_all-locks_out}
use perzforge.Keys.Lookup.{admitted_as, unexpired_grant, grant_in}
use perzforge.Keys.Grants.{Request, create, lock_out, present, locked_out, serve, serve_all, replay}
use perzforge.Keys.Grants.Refinement.{serve_all-refines}
use perzforge.Logs.{new_collector, last_of}
use perzforge.Logs.Chunks.{emit_all}
use perzforge.LogStream.{Json, Relay, new_relay, parse_stream_payload, relay_job}
use perzforge.LogStream.Delivery.{never, relay_job-delivers}
use perzforge.Tests.Data.{root, db}

abbrev key_text : Text
key_text = codes "pzf_secret"

-- The hash tells the one key from all other texts; a session token is the number of its user.
abbrev crypto : Crypto
crypto = record {
  hash_token = λ t. if text_beq t key_text then "k" else "other";
  verify_password = λ p h. true;
  hash_password = λ p. p;
  decode_access_token = λ now t. some (some t);
  parse_uuid = λ t. some (length t);
}

distinct : (b : Bool) → b ≡ false → (let t : String = if b then "k" else "other" in t ≡ "k") → ⊥
distinct true off e = cc
distinct false off e = let same : str_eq "other" "k" ≡ true = (eq_iff "other" "k").1 e in cc same

only_key : (text : Text) → crypto.hash_token text ≡ crypto.hash_token key_text → text ≡ key_text
only_key text e = elim (Bool-cases (text_beq text key_text)) [
  | inl same ↦ text_beq-eq text key_text same
  | inr other ↦ absurd (distinct (text_beq text key_text) other e)
]

abbrev a_request : CreateApiKeyRequest
a_request = record { name = codes "ci"; scopes = jobs_read ∷ []; expires_at = some 500 }

-- Alice creates the key and uses it; the administrator locks Alice out.
abbrev history : List Request
history =
    create 10 (some (codes "a")) 1 (codes "secret") a_request
    ∷ present 20 key_text
    ∷ lock_out 30 (some (codes "aaa")) 1
    ∷ []

serve_all-refines_example :
    let (events, db') = serve_all crypto history db in
    admitted_as (authenticate_api_key crypto 40 key_text db').0
    ≡ unexpired_grant 40 (replay key_text events (grant_in crypto key_text db))
serve_all-refines_example = serve_all-refines crypto key_text only_key history 40 db

admin_locks_alice : (serve crypto (lock_out 30 (some (codes "aaa")) 1) db).0 ≡ locked_out 1
unfolding serve get_current_admin get_current_user get_authenticated_user is_api_key_token
    api_key_prefix authenticate_jwt disable_user
admin_locks_alice = refl

-- Afterwards the administrator still gets in.
serve_all-locks_out_example : root.id ≢ 1
unfolding serve serve_all get_current_admin get_current_user get_authenticated_user is_api_key_token
    api_key_prefix authenticate_jwt disable_user require_scopes get_current_principal
    resolve_principal_from_token role_scopes
serve_all-locks_out_example =
    serve_all-locks_out crypto 30 40 1 (some (codes "aaa")) (some (codes "aaa")) [] (jobs_read ∷ [])
      db (record { user = root; api_key = none }) admin_locks_alice refl

abbrev end_of : Json
end_of text = if text_beq text (codes "{eof}") then some (codes "{eof}") else none

relay_job-delivers_example :
    let c = emit_all default_settings (codes "a" ∷ codes "{b}" ∷ []) new_collector in
    let messages =
      drop (length c.channel) (emit_all default_settings (codes "c" ∷ []) c).channel
      ++ codes "{eof}" ∷ codes "d" ∷ [] in
    (r : Relay) × (relay_job default_settings end_of never c.buffer messages new_relay
      ≡ ok (true, r))
    × (r.sent
        ≡ last_of default_settings.job_log_replay_max_lines (codes "a" ∷ codes "{b}" ∷ [])
          ++ (codes "c" ∷ [])
          ++ codes "{eof}" ∷ [])
unfolding parse_stream_payload
relay_job-delivers_example =
    relay_job-delivers default_settings end_of (codes "a" ∷ codes "{b}" ∷ []) (codes "c" ∷ [])
      (codes "{eof}") (codes "{eof}") (codes "d" ∷ []) (omega arith) (refl, (refl, tt)) (refl, tt)
      refl
