-- ===== src/Tests/Accounts.antt =====
-- The theorems on access, sessions and the jobs of users at concrete inputs.
use perzforge.Prelude.{
  take, drop, not, count, ◌+◌, ◌≤◌, ◌<◌, ◌≡◌, ◌↔◌, refl, true, false, none, some, List, [], ◌∷◌,
  ◌++◌, codes, length, map, arith, ◌==◌, ◌&&◌,
}
use perzforge.Settings.{default_settings}
use perzforge.Schema.{Job, RefreshToken, Db, jobs_read}
use perzforge.Http.{ok, err, Error}
use perzforge.Quota.{
  concurrent_jobs, count_concurrent_jobs, enforce, get_or_create_quota, default_quota, find_quota,
  limit_for, current_usage, read_redis_counter, quota_counter_key, day_key, consume,
  quota_limit_name,
}
use perzforge.Quota.Enforce.{limit_of}
use perzforge.Jobs.{
  Platform, SubmitJobRequest, find_job, get_owned_job, job_not_found, list_jobs, response_of,
  to_job_response, submit_job, insert_job, enqueue_job, new_job, job_not_found,
}
use perzforge.Jobs.Spec.{is_valid_spec, is_allowed_image, image_prefixes, split_comma, is_argv}
use perzforge.RateLimit.Identity.{strip, lstrip, is_space, is_api_key_token, api_key_prefix}
use perzforge.Jobs.Ownership.{MayReach, selected, IsOrderOf, get_owned_job-exactly, list_jobs-own}
use perzforge.Jobs.Submission.{submitted, queue_after, submit_job-accepted, submit_job-refused}
use perzforge.Pagination.{page}
use perzforge.Auth.{
  Crypto, require_scopes, get_current_principal, resolve_principal_from_token, authenticate_jwt,
  role_scopes,
}
use perzforge.Auth.Access.{IsAdmitted, require_scopes-admits}
use perzforge.Auth.Session.{change_password, Fresh, invalid_refresh, refresh_session}
use perzforge.Auth.Session.Rotation.{
  change_password-revokes, live_tokens, refresh_session-replayed, refresh_session-rotates,
}
use perzforge.Tests.Data.{alice, of_alice, spec, db, platform, ended_job, queued_job}

-- Every token is its own hash, "t"; every session token decodes to the subject "1" of user 1.
abbrev crypto : Crypto
crypto = record {
  hash_token = λ t. "t";
  verify_password = λ p h. true;
  hash_password = λ p. p;
  decode_access_token = λ now t. some (some (codes "1"));
  parse_uuid = λ t. some 1;
}

require_scopes-admits_example : IsAdmitted 5 db (jobs_read ∷ []) of_alice
unfolding require_scopes get_current_principal resolve_principal_from_token authenticate_jwt
    is_api_key_token api_key_prefix role_scopes
require_scopes-admits_example =
    require_scopes-admits crypto 5 (jobs_read ∷ []) (some (codes "eyJ")) db of_alice refl

abbrev fresh : Fresh
fresh = record { token = codes "new"; row_id = 2; family_id = 9 }

abbrev used_token : RefreshToken
used_token = record {
  id = 1;
  user_id = 1;
  token_hash = "t";
  family_id = 4;
  expires_at = 100;
  revoked = true;
}

abbrev good_token : RefreshToken
good_token = record used_token { revoked = false }

abbrev with_token : RefreshToken → Db
with_token t = record db { refresh_tokens = t ∷ [] }

refresh_session-replayed_example :
    ((refresh_session default_settings crypto 5 fresh
        (some (codes "old"))
        (with_token used_token)).0
      ≡ err invalid_refresh)
    × (live_tokens 4
          (refresh_session default_settings crypto 5 fresh
            (some (codes "old"))
            (with_token used_token)).1
        ≡ 0)
refresh_session-replayed_example =
    refresh_session-replayed default_settings crypto 5 fresh b'o' (codes "ld")
      (with_token used_token) used_token refl refl

refresh_session-rotates_example :
    ((refresh_session default_settings crypto 5 fresh
        (some (codes "old"))
        (with_token good_token)).0
      ≡ ok (codes "new", alice))
    × (live_tokens 4
          (refresh_session default_settings crypto 5 fresh
            (some (codes "old"))
            (with_token good_token)).1
        ≡ 1)
refresh_session-rotates_example =
    refresh_session-rotates default_settings crypto 5 fresh b'o' (codes "ld")
      (with_token good_token) good_token alice refl refl (omega arith) refl (omega arith)

get_owned_job-exactly_example :
    ((job : Job)
      → (get_owned_job db 8 of_alice ≡ ok job)
        ↔ ((find_job 8 db ≡ some job) × MayReach of_alice job))
    × ((e : Error) → get_owned_job db 8 of_alice ≡ err e → e ≡ job_not_found)
get_owned_job-exactly_example = get_owned_job-exactly db 8 of_alice

list_jobs-own_example :
    ((sorted : List Job) × IsOrderOf (selected of_alice none db) sorted
      × (response_of queued_job ∷ [] ≡ map response_of (take 1 (drop 0 sorted))))
    × (2 ≡ length (selected of_alice none db))
unfolding list_jobs to_job_response is_valid_spec is_allowed_image image_prefixes split_comma
    is_argv strip lstrip is_space page
list_jobs-own_example =
    list_jobs-own default_settings none 1 0 of_alice db (response_of queued_job ∷ []) 2 refl

abbrev body : SubmitJobRequest
body = record { name = codes "train"; spec = spec }

-- No job is active yet.
abbrev idle : Platform
idle = record platform {
  world = record platform.world { db = record db { jobs = ended_job ∷ [] } };
}

submit_job-accepted_example :
    let p' = (submit_job default_settings 90000 11 none body of_alice idle).1 in
    (p'.world.db.jobs ≡ idle.world.db.jobs ++ submitted 90000 11 none body of_alice ∷ [])
    × (p'.queue ≡ queue_after none 11 [])
    × (count_concurrent_jobs p'.world.db 1
        ≤ limit_of default_settings idle.world alice concurrent_jobs)
unfolding submit_job insert_job enqueue_job to_job_response is_valid_spec is_allowed_image
    image_prefixes split_comma is_argv strip lstrip is_space enforce get_or_create_quota
    default_quota find_quota limit_for current_usage read_redis_counter quota_counter_key day_key
    consume count_concurrent_jobs quota_limit_name
submit_job-accepted_example =
    submit_job-accepted default_settings 90000 11 none body of_alice idle
      (response_of (new_job 90000 11 body 1)) refl refl

-- User 1 has two active jobs, the limit.
submit_job-refused_example :
    let p' = (submit_job default_settings 90000 11 none body of_alice platform).1 in
    (p'.world.db.jobs ≡ db.jobs) × (p'.queue ≡ []) × (2 < 2 + 1)
unfolding submit_job enforce get_or_create_quota default_quota find_quota limit_for current_usage
    count_concurrent_jobs quota_limit_name
submit_job-refused_example =
    submit_job-refused default_settings 90000 11 none body of_alice platform "max_concurrent_jobs" 2
      2 refl

change_password-revokes_example :
    let out = change_password crypto "old" "new-password" alice (with_token good_token) in
    (out.0 ≡ ok tt)
    × (count (λ t. t.user_id == 1 && not t.revoked) out.1.refresh_tokens ≡ 0)
    × (count (λ u. u.id == 1 && u.must_change_password) out.1.users ≡ 0)
change_password-revokes_example =
    change_password-revokes crypto "old" "new-password" alice (with_token good_token) refl refl
