-- ===== src/Sync/Engine/Retry.antt =====
-- How long an unavailable sync-token is not asked for again.
use caldav_assistant_skeleto.Sync.Rows.{IsoTexts}
use caldav_assistant_skeleto.Prelude.{
  if◌then◌else◌, inl, inr, Bool-cases, ◌≡◌, refl, ◌+◌, ℕ, String, Bool, true, false, not, ◌&&◌,
  Option, none, some, ltb,
}
use caldav_assistant_skeleto.Api.{ok, err, token_unavailable}
use caldav_assistant_skeleto.Effect.{◌>>=◌}
use caldav_assistant_skeleto.Sync.Transport.{Roles, role_urls, available, seed}
use caldav_assistant_skeleto.Sync.Engine.{
  Cache, TokenState, Remote, seed_token_state, seed_for, seeded_as, unsupported_token_state,
  token_retry_blocked, reason_of, text_or, retry_us,
}
use caldav_assistant_skeleto.Sync.Engine.Agrees.{same_roles_refl}

module _ {D : Type 0} (z : IsoTexts) (upper : String → String) where
  seed_for_refused :
      (remote : Remote D) (now : ℕ) (force : Bool) (configured : Option Roles) (roles : Roles)
      (old : Option TokenState) (text : String) (c : Cache)
      → configured ≡ some roles
      → available remote.routed ≡ true
      → seed remote.routed ≡ err (token_unavailable text)
      → (not force && token_retry_blocked now old roles) ≡ false
      → (seed_for z upper remote now force configured old c).1
        ≡ record c { tokens = some (unsupported_token_state now roles text) }
  unfolding ◌>>=◌
  seed_for_refused remote now force configured roles old text c r a s b = rw (r, a, b, s) refl

  -- the answer of a call that does not ask
  deferred :
      (remote : Remote D) (later : ℕ) (configured : Option Roles) (roles : Roles) (now : ℕ)
      (text : String) (c : Cache)
      → configured ≡ some roles
      → available remote.routed ≡ true
      → ltb later (now + retry_us) ≡ true
      → seed_for z upper remote later false configured
          (some (unsupported_token_state now roles text))
          c
        ≡ (ok (none, some (reason_of (some (unsupported_token_state now roles text)))), c)
  deferred remote later configured roles now text c r a h = rw (r, a, same_roles_refl roles, h) refl

  asks :
      (remote : Remote D) (later : ℕ) (configured : Option Roles) (roles : Roles) (now : ℕ)
      (text : String) (c : Cache)
      → configured ≡ some roles
      → available remote.routed ≡ true
      → ltb later (now + retry_us) ≡ false
      → seed_for z upper remote later false configured
          (some (unsupported_token_state now roles text))
          c
        ≡ seeded_as z upper remote later roles (seed remote.routed) c
  asks remote later configured roles now text c r a h = rw (r, a, same_roles_refl roles, h) refl

  -- When a server has refused a sync-token, at whatever time that was asked, a call of the engine
  -- without force asks none for the same collections during the next six hours: it gives no token,
  -- a reason, and leaves the cache, whatever the server would answer. From six hours on it asks.
  pub seed_token_state_refused :
      (remote : Remote D) (now : ℕ) (force : Bool) (roles : Roles) (text : String) (c : Cache)
      → role_urls remote.routed ≡ some roles
      → available remote.routed ≡ true
      → seed remote.routed ≡ err (token_unavailable text)
      → (not force && token_retry_blocked now c.tokens roles) ≡ false
      → (remote' : Remote D) (later : ℕ) → role_urls remote'.routed ≡ some roles
      → available remote'.routed ≡ true
      → seed_token_state z upper remote' later false (seed_token_state z upper remote now force c).1
        ≡ (if ltb later (now + 21600000000)
            then (
              ok (
                none,
                some (text_or "sync-token retry deferred" (text_or "sync-token unavailable" text)),
              ),
              (seed_token_state z upper remote now force c).1,
            )
            else seeded_as z upper remote' later roles
                (seed remote'.routed)
                (seed_token_state z upper remote now force c).1)
  unfolding seed_token_state ◌>>=◌
  seed_token_state_refused remote now force roles text c r a s b remote' later r' a' =
      let e = seed_for_refused remote now force _ roles c.tokens text c r a s b in
      rw e (elim (Bool-cases (ltb later (now + retry_us))) [
        | inl h ↦ rw h (deferred remote' later _ roles now text _ r' a' h)
        | inr h ↦ rw h (asks remote' later _ roles now text _ r' a' h)
      ])
