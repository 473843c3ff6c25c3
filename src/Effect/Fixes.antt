-- ===== src/Effect/Fixes.antt =====
-- A part of the state that a call leaves alone, whether it returns or raises; and a property of
-- the state that a call keeps.
use caldav_assistant_skeleto.Prelude.{◌≡◌, refl, ◌∙◌, Bool, true, false, if◌then◌else◌}
use caldav_assistant_skeleto.Api.{Reason, Result, ok, err}
use caldav_assistant_skeleto.Effect.{Exec, pure, lift, gets, require, continue, ◌>>=◌}

module _ {W X : Type 0} (part : W → X) where
  pub record Fixes {A : Type 0} (m : Exec W A) : Type 0 where
    pub at : (w : W) → part (m w).1 ≡ part w

module _ {W X A : Type 0} {part : W → X} where
  pub Fixes-pure : (a : A) → Fixes part (pure a)
  Fixes-pure a = record { at = λ w. refl }

  pub Fixes-lift : (r : Result A) → Fixes part (lift r)
  Fixes-lift r = record { at = λ w. refl }

  pub Fixes-gets : (f : W → A) → Fixes part (gets f)
  Fixes-gets f = record { at = λ w. refl }

  pub Fixes-if :
      (b : Bool) (m n : Exec W A) → Fixes part m → Fixes part n → Fixes part (if b then m else n)
  Fixes-if true m n p q = p
  Fixes-if false m n p q = q

module _ {W X : Type 0} {part : W → X} where
  pub Fixes-require : (b : Bool) (reason : Reason) → Fixes part (require b reason)
  Fixes-require true reason = record { at = λ w. refl }
  Fixes-require false reason = record { at = λ w. refl }

module _ {W X A B : Type 0} {part : W → X} where
  Fixes-continue :
      (r : Result A) (f : A → Exec W B) (w : W)
      → ((a : A) → Fixes part (f a))
      → part (continue r f w).1 ≡ part w
  Fixes-continue (ok a) f w k = (k a).at w
  Fixes-continue (err e) f w k = refl

  pub Fixes-bind :
      (m : Exec W A) (f : A → Exec W B)
      → Fixes part m
      → ((a : A) → Fixes part (f a))
      → Fixes part (m >>= f)
  unfolding ◌>>=◌
  Fixes-bind m f p k = record { at = λ w. let (r, w') = m w in Fixes-continue r f w' k ∙ p.at w }

pub ruleset fixes_rules = (Fixes-pure, Fixes-lift, Fixes-gets, Fixes-if, Fixes-require, Fixes-bind)
