-- ===== src/Sync/Equality.antt =====
-- Python's `==` on the values of the snapshot's dictionaries: a Boolean test with its meaning.
use caldav_assistant_skeleto.Prelude.{
  ◌≡◌, refl, sym, ◌∙◌, ap, ◌↔◌, ℕ, String, Bool, true, false, Option, none, some, List, [], ◌∷◌,
  ◌&&◌, eqb, ◌==◌, eq_iff, arith,
}

pub record Equality (A : Type 0) : Type 0 where
  pub test : A → A → Bool
  pub says : (x y : A) → (test x y ≡ true) ↔ (x ≡ y)

and_iff : (a b : Bool) → (a && b ≡ true) ↔ ((a ≡ true) × (b ≡ true))
and_iff true b = (λ h. (refl, h), λ h. h.1)
and_iff false b = (λ h. absurd (cc), λ h. absurd (cc))

abbrev pub text_equality : Equality String
text_equality = record { test = λ x y. x == y; says = eq_iff }

pub eqb_iff : (x y : ℕ) → (eqb x y ≡ true) ↔ (x ≡ y)
eqb_iff x y = (λ h. ground arith, λ h. ground arith)

abbrev pub number_equality : Equality ℕ
number_equality = record { test = eqb; says = eqb_iff }

abbrev pub same_flag : Bool → Bool → Bool
same_flag true y = y
same_flag false true = false
same_flag false false = true

pub same_flag_iff : (x y : Bool) → (same_flag x y ≡ true) ↔ (x ≡ y)
same_flag_iff true true = (λ h. refl, λ h. refl)
same_flag_iff true false = (λ h. absurd (cc), λ h. absurd (cc))
same_flag_iff false true = (λ h. absurd (cc), λ h. absurd (cc))
same_flag_iff false false = (λ h. refl, λ h. refl)

abbrev pub flag_equality : Equality Bool
flag_equality = record { test = same_flag; says = same_flag_iff }

module _ {A : Type 0} (eq : Equality A) where
  abbrev pub same_option : Option A → Option A → Bool
  same_option none none = true
  same_option none (some y) = false
  same_option (some x) none = false
  same_option (some x) (some y) = eq.test x y

  pub same_option_iff : (x y : Option A) → (same_option x y ≡ true) ↔ (x ≡ y)
  same_option_iff none none = (λ h. refl, λ h. refl)
  same_option_iff none (some y) = (λ h. absurd (cc), λ h. absurd (cc))
  same_option_iff (some x) none = (λ h. absurd (cc), λ h. absurd (cc))
  same_option_iff (some x) (some y) = (λ h. ap some ((eq.says x y).0 h), λ h. (eq.says x y).1 (cc))

  abbrev pub option_equality : Equality (Option A)
  option_equality = record { test = same_option; says = same_option_iff }

  abbrev pub same_list : List A → List A → Bool
  same_list [] [] = true
  same_list [] (y ∷ ys) = false
  same_list (x ∷ xs) [] = false
  same_list (x ∷ xs) (y ∷ ys) = eq.test x y && same_list xs ys

  pub same_list_iff : (x y : List A) → (same_list x y ≡ true) ↔ (x ≡ y)
  same_list_iff [] [] = (λ h. refl, λ h. refl)
  same_list_iff [] (y ∷ ys) = (λ h. absurd (cc), λ h. absurd (cc))
  same_list_iff (x ∷ xs) [] = (λ h. absurd (cc), λ h. absurd (cc))
  same_list_iff (x ∷ xs) (y ∷ ys) = (
    λ h.
        let both = (and_iff (eq.test x y) (same_list xs ys)).0 h in
        let e : x ≡ y = (eq.says x y).0 both.0 in
        let r : xs ≡ ys = (same_list_iff xs ys).0 both.1 in cc,
    λ h.
        (and_iff (eq.test x y) (same_list xs ys)).1
          ((eq.says x y).1 (cc), (same_list_iff xs ys).1 (cc)),
  )

  abbrev pub list_equality : Equality (List A)
  list_equality = record { test = same_list; says = same_list_iff }

module _ {A B : Type 0} (p : Equality A) (q : Equality B) where
  abbrev pub same_pair : A × B → A × B → Bool
  same_pair (a, b) (c, d) = p.test a c && q.test b d

  pub same_pair_iff : (x y : A × B) → (same_pair x y ≡ true) ↔ (x ≡ y)
  same_pair_iff (a, b) (c, d) = (
    λ h.
        let both = (and_iff (p.test a c) (q.test b d)).0 h in
        let e : a ≡ c = (p.says a c).0 both.0 in let r : b ≡ d = (q.says b d).0 both.1 in cc,
    λ h.
        (and_iff (p.test a c) (q.test b d)).1
          ((p.says a c).1 (ap (λ t. t.0) h), (q.says b d).1 (ap (λ t. t.1) h)),
  )

  abbrev pub pair_equality : Equality (A × B)
  pair_equality = record { test = same_pair; says = same_pair_iff }

module _ {R T : Type 0} (fields : R → T) (from : T → R) (back : (r : R) → from (fields r) ≡ r) where
  pub same_fields_iff :
      (eq : Equality T) (x y : R) → (eq.test (fields x) (fields y) ≡ true) ↔ (x ≡ y)
  same_fields_iff eq x y = (
    λ h. sym (back x) ∙ ap from ((eq.says (fields x) (fields y)).0 h) ∙ back y,
    λ h. (eq.says (fields x) (fields y)).1 (ap fields h),
  )

  -- Two dictionaries are equal when their values are, key by key.
  abbrev pub fields_equality : Equality T → Equality R
  fields_equality eq = record {
    test = λ x y. eq.test (fields x) (fields y);
    says = same_fields_iff eq;
  }
