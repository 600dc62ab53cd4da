-- ===== src/Auth/TwoFactor.antt =====
-- Requests through `_require_api_key` and then a decorator: what lets them pass.
use fossilsafe_t.Prelude.{
  ℕ, String, ◌≡◌, refl, ap, true, false, Option, some, nat_eq, string_eq, text_truth, truth,
}
use fossilsafe_t.RateLimiter.{RateLimiter}
use fossilsafe_t.Auth.Database.{User, Session, AuthDb, get_user_by_id}
use fossilsafe_t.Auth.Sessions.{validate_session}
use fossilsafe_t.Auth.Requests.{
  Request, Response, Context, proceed, request_token, lacks_2fa, require_auth,
}
use fossilsafe_t.Auth.BeforeRequest.{
  Settings, Server, is_public, attach_session, require_api_key, serve, after_attach, run_guard,
}
use fossilsafe_t.Auth.Revocation.{validate_session-some, fresh, no_2fa, require_auth-valid}

abbrev pub server : AuthDb → Option RateLimiter → Server
server db limiter = record { manager = some db; limiter = limiter }

module _ (set : Settings) (now : ℕ) (token : String) (req : Request) (db : AuthDb)
    (limiter : Option RateLimiter) (private : is_public req.path ≡ false)
    (sent : request_token req ≡ some token) (nonempty : text_truth token ≡ true) where
  attach_session-valid :
      (s : Session)
      → (validate_session now token db).0 ≡ some s
      → attach_session now (request_token req) (some db) ≡ (some s, some db)
  unfolding attach_session
  attach_session-valid s valid =
      let same = ap (λ v. v.1) (validate_session-some now token s db valid) in
      rw (sent, attach_session, valid, same, nonempty) refl

  require_api_key-valid :
      (s : Session)
      → (validate_session now token db).0 ≡ some s
      → require_api_key set now req (server db limiter) ≡ (proceed, some s, server db limiter)
  unfolding require_api_key after_attach
  require_api_key-valid s valid =
      rw (require_api_key, private)
        (ap (after_attach set now req limiter) (attach_session-valid s valid))

  serve-valid :
      (guard : ℕ → Request → Context → Response × Context) (s : Session)
      → (validate_session now token db).0 ≡ some s
      → (serve guard set now req (server db limiter)).0
        ≡ (guard now req (record { manager = some db; session = some s })).0
  unfolding serve run_guard
  serve-valid guard s valid =
      ap (λ k. (run_guard guard now req k).0) (require_api_key-valid s valid)

  -- A user has a TOTP secret, and a request sends the token of a valid session that was made
  -- without 2FA. `require_auth` by itself refuses it. With the check that runs before each
  -- request, `require_auth` lets it pass, on every path that is not public.
  pub require_auth-skips_2fa :
      (s : Session) (u : User)
      → (validate_session now token db).0 ≡ some s
      → get_user_by_id s.user_id db ≡ some u
      → truth u.totp_secret ≡ true
      → s.has_2fa ≡ false
      → ((require_auth now req (fresh db)).0 ≡ no_2fa)
        × ((serve require_auth set now req (server db limiter)).0 ≡ proceed)
  unfolding lacks_2fa require_auth
  require_auth-skips_2fa s u valid user secret without =
      let lacks : lacks_2fa s db ≡ true = rw (lacks_2fa, user, secret, without) refl in
      (
        rw (require_auth-valid now token req s db sent nonempty valid, lacks) refl,
        serve-valid require_auth s valid,
      )
