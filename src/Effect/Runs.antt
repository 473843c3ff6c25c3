-- ===== src/Effect/Runs.antt =====
-- What is true when a call returns, step by step; and a property of the state that a call keeps.
use caldav_assistant_skeleto.Prelude.{
  ◌≡◌, refl, ◌∙◌, ap, sym, subst, subst₂, Bool, true, false, if◌then◌else◌,
}
use caldav_assistant_skeleto.Api.{Reason, Result, ok, err}
use caldav_assistant_skeleto.Effect.{Exec, pure, require, continue, ◌>>=◌, ◌>>◌}
use caldav_assistant_skeleto.Effect.Fixes.{Fixes}

-- If the call returns at `w`, its result and its final state satisfy `Q`.
pub record Returns {W A : Type 0} (m : Exec W A) (w : W) (Q : A → W → Type 0) : Type 0 where
  pub ends : (a : A) (w' : W) → m w ≡ (ok a, w') → Q a w'

module _ {W A : Type 0} where
  pub Returns-pure : (a : A) (w : W) (Q : A → W → Type 0) → Q a w → Returns (pure a) w Q
  Returns-pure a w Q h = record {
    ends =
        λ b w' e. let same_a : a ≡ b = cc in let same_w : w ≡ w' = cc in subst₂ Q same_a same_w h;
  }

module _ {W A B : Type 0} where
  ends-continue :
      (r : Result A) (f : A → Exec W B) (w : W) (Q : B → W → Type 0)
      → ((a : A) → r ≡ ok a → Returns (f a) w Q)
      → (b : B) (w' : W) → continue r f w ≡ (ok b, w')
      → Q b w'
  ends-continue (ok a) f w Q k = (k a refl).ends
  ends-continue (err e) f w Q k = λ b w' h. absurd (cc)

  pub Returns-bind :
      (m : Exec W A) (f : A → Exec W B) (w : W) (Q : B → W → Type 0)
      → ((a : A) (w' : W) → m w ≡ (ok a, w') → Returns (f a) w' Q)
      → Returns (m >>= f) w Q
  unfolding ◌>>=◌
  Returns-bind m f w Q k = record {
    ends = ends-continue (m w).0 f (m w).1 Q (λ a e. k a (m w).1 (λ i. (e i, (m w).1)));
  }

  -- The same, of a first call that changes nothing.
  pub Returns-fixed :
      (m : Exec W A) (f : A → Exec W B) (w : W) (Q : B → W → Type 0)
      → Fixes (λ v. v) m
      → ((a : A) → m w ≡ (ok a, w) → Returns (f a) w Q)
      → Returns (m >>= f) w Q
  Returns-fixed m f w Q p k = Returns-bind m f w Q step
    where
      step : (a : A) (w' : W) → m w ≡ (ok a, w') → Returns (f a) w' Q
      step a w' e =
          let same : w ≡ w' = sym (p.at w) ∙ ap (λ t. t.1) e in
          subst (λ v. Returns (f a) v Q) same (k a (rw (← same) at e))

module _ {W B : Type 0} where
  pub Returns-require :
      (b : Bool) (reason : Reason) (n : Exec W B) (w : W) (Q : B → W → Type 0)
      → (b ≡ true → Returns n w Q)
      → Returns (require b reason >> n) w Q
  unfolding ◌>>=◌
  Returns-require true reason n w Q k = record { ends = (k refl).ends }
  Returns-require false reason n w Q k = record { ends = λ b w' h. absurd (cc) }

-- A property of the state that a call keeps, whether it returns or raises.
pub record Keeps {W A : Type 0} (P : W → Type 0) (m : Exec W A) : Type 0 where
  pub at : (w : W) → P w → P (m w).1

module _ {W A B : Type 0} {P : W → Type 0} where
  continue-Keeps :
      (r : Result A) (f : A → Exec W B) (w : W)
      → P w
      → ((a : A) → Keeps P (f a))
      → P (continue r f w).1
  continue-Keeps (ok a) f w h k = (k a).at w h
  continue-Keeps (err e) f w h k = h

  pub Keeps-bind :
      (m : Exec W A) (f : A → Exec W B) → Keeps P m → ((a : A) → Keeps P (f a)) → Keeps P (m >>= f)
  unfolding ◌>>=◌
  Keeps-bind m f p k = record { at = λ w h. continue-Keeps (m w).0 f (m w).1 (p.at w h) k }

module _ {W A : Type 0} where
  -- A call that leaves alone the part that the property is about.
  pub Keeps-fixed :
      {X : Type 0} (part : W → X) (Q : X → Type 0) (m : Exec W A)
      → Fixes part m
      → Keeps (λ w. Q (part w)) m
  Keeps-fixed part Q m p = record { at = λ w h. subst Q (sym (p.at w)) h }

module _ {W A : Type 0} {P : W → Type 0} where
  pub Keeps-if : (b : Bool) (m n : Exec W A) → Keeps P m → Keeps P n → Keeps P (if b then m else n)
  Keeps-if true m n p q = p
  Keeps-if false m n p q = q
