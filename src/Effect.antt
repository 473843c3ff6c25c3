-- ===== src/Effect.antt =====
-- Methods that change the state of the services and may raise. What was written before a raise
-- stays written, so the state comes back beside the error too.

pub mod Fixes
pub mod Runs
pub mod Succeeds
use caldav_assistant_skeleto.Prelude.{Bool, true, false}
use caldav_assistant_skeleto.Api.{Error, Reason, Result, ok, err, validation}

abbrev pub Exec : Type 0 → Type 0 → Type 0
Exec W A = W → Result A × W

module _ {W A : Type 0} where
  abbrev pub pure : A → Exec W A
  pure a w = (ok a, w)

  abbrev pub raise : Error → Exec W A
  raise e w = (err e, w)

  abbrev pub lift : Result A → Exec W A
  lift r w = (r, w)

  abbrev pub gets : (W → A) → Exec W A
  gets f w = (ok (f w), w)

module _ {W : Type 0} where
  abbrev pub modify : (W → W) → Exec W Unit
  modify f w = (ok tt, f w)

  -- `if not test: raise ValidationError(reason)`
  abbrev pub require : Bool → Reason → Exec W Unit
  require true reason w = (ok tt, w)
  require false reason w = (err (validation reason), w)

module _ {W A B : Type 0} where
  abbrev pub continue : Result A → (A → Exec W B) → Exec W B
  continue (ok a) f w = f a w
  continue (err e) f w = (err e, w)

  infixl 5 ◌>>=◌ ◌>>◌
  unfoldable pub ◌>>=◌ : Exec W A → (A → Exec W B) → Exec W B
  ◌>>=◌ m f w = let (r, w') = m w in continue r f w'

  abbrev pub ◌>>◌ : Exec W A → Exec W B → Exec W B
  m >> n = m >>= λ _. n

module _ {W A : Type 0} where
  abbrev pub recover : Result A → (Error → Exec W A) → Exec W A
  recover (ok a) h w = (ok a, w)
  recover (err e) h w = h e w

  -- `try: m` with `except Exception as e: h(e)`
  unfoldable pub catch : Exec W A → (Error → Exec W A) → Exec W A
  catch m h w = let (r, w') = m w in recover r h w'
