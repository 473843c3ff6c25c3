-- ===== src/Effect/Succeeds.antt =====
-- A call that returns, and what is then true.
use caldav_assistant_skeleto.Prelude.{◌≡◌, ◌∙◌, Bool, true, false}
use caldav_assistant_skeleto.Api.{Reason, ok}
use caldav_assistant_skeleto.Effect.{Exec, require, continue, ◌>>=◌, ◌>>◌}

abbrev pub Succeeds : {W A : Type 0} → Exec W A → W → (A → W → Type 0) → Type 0
Succeeds {W = W} {A = A} m w Q = (a : A) × (w' : W) × (m w ≡ (ok a, w')) × Q a w'

module _ {W A B : Type 0} where
  pub Succeeds-bind :
      (m : Exec W A) (f : A → Exec W B) (w : W) (Q : A → W → Type 0) (R : B → W → Type 0)
      → Succeeds m w Q
      → ((a : A) (w' : W) → Q a w' → Succeeds (f a) w' R)
      → Succeeds (m >>= f) w R
  unfolding ◌>>=◌
  Succeeds-bind m f w Q R (a, w', e, q) k =
      let (b, w'', e', r) = k a w' q in (b, w'', (λ i. continue (e i).0 f (e i).1) ∙ e', r)

module _ {W B : Type 0} where
  pub Succeeds-require :
      (b : Bool) (reason : Reason) (n : Exec W B) (w : W) (R : B → W → Type 0)
      → b ≡ true
      → Succeeds n w R
      → Succeeds (require b reason >> n) w R
  unfolding ◌>>=◌
  Succeeds-require true reason n w R h s = s
  Succeeds-require false reason n w R h s = absurd (cc)
