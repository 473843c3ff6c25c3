-- ===== src/Prelude/Text.antt =====
-- Python's `str.strip` and truth of a text, over the code points.
use Prim.Native.Nat.{ℕ}
use Prim.Native.Char.{Char, code}
use Prim.Native.String.{String}
use mathlib.Core.Path.{◌≡◌, refl}
use mathlib.Core.Logic.{inl, inr}
use mathlib.Core.Bool.{Bool, true, false, ◌&&◌, ◌||◌}
use mathlib.Core.List.{List, [], ◌∷◌}
use text.Mathlib.Text.{◌==◌}
use caldav_assistant_skeleto.Prelude.Tests.{leb, eqb, if◌then◌else◌, Bool-cases}

-- The code points that `str.isspace` accepts.
pub is_space : ℕ → Bool
is_space c =
    (leb 9 c && leb c 13)
    || (leb 28 c && leb c 32)
    || eqb c 0x85
    || eqb c 0xa0
    || eqb c 0x1680
    || (leb 0x2000 c && leb c 0x200a)
    || eqb c 0x2028
    || eqb c 0x2029
    || eqb c 0x202f
    || eqb c 0x205f
    || eqb c 0x3000

abbrev pub codes : String → List ℕ
codes String.[] = []
codes (String.◌∷◌ c s) = code c ∷ codes s

-- `not s`
abbrev pub is_blank : String → Bool
is_blank String.[] = true
is_blank (String.◌∷◌ c s) = false

lstrip : String → String
lstrip String.[] = String.[]
lstrip (String.◌∷◌ c s) = if is_space (code c) then lstrip s else String.◌∷◌ c s

rstrip_cons : Char → String → String
rstrip_cons c String.[] = if is_space (code c) then String.[] else String.◌∷◌ c String.[]
rstrip_cons c (String.◌∷◌ d s) = String.◌∷◌ c (String.◌∷◌ d s)

rstrip : String → String
unfolding rstrip_cons
rstrip String.[] = String.[]
rstrip (String.◌∷◌ c s) = rstrip_cons c (rstrip s)

unfoldable pub strip : String → String
unfolding lstrip rstrip is_space
strip s = rstrip (lstrip s)

strip_inner : strip "  a b\n" ≡ "a b"
unfolding strip
strip_inner = refl

rstrip_cons_fixed :
    (c : Char) (s : String) → rstrip s ≡ s → rstrip (rstrip_cons c s) ≡ rstrip_cons c s
unfolding rstrip
rstrip_cons_fixed c String.[] h = elim (Bool-cases (is_space (code c))) [
  | inl e ↦ rw e
  | inr e ↦ rw e (rw (e, rstrip_cons))
]
rstrip_cons_fixed c (String.◌∷◌ d s) h = rw h

rstrip_fixed : (s : String) → rstrip (rstrip s) ≡ rstrip s
unfolding rstrip
rstrip_fixed String.[] = refl
rstrip_fixed (String.◌∷◌ c s) = rstrip_cons_fixed c (rstrip s) (rstrip_fixed s)

lstrip-rstrip_cons :
    (c : Char) (s : String) → is_space (code c) ≡ false → lstrip (rstrip_cons c s) ≡ rstrip_cons c s
unfolding lstrip rstrip_cons
lstrip-rstrip_cons c String.[] h = rw h (rw (h, lstrip))
lstrip-rstrip_cons c (String.◌∷◌ d s) h = rw h

lstrip-rstrip-lstrip : (s : String) → lstrip (rstrip (lstrip s)) ≡ rstrip (lstrip s)
unfolding lstrip rstrip
lstrip-rstrip-lstrip String.[] = refl
lstrip-rstrip-lstrip (String.◌∷◌ c s) = elim (Bool-cases (is_space (code c))) [
  | inl e ↦ rw e (lstrip-rstrip-lstrip s)
  | inr e ↦ rw e (lstrip-rstrip_cons c (rstrip s) e)
]

-- A stripped text is not changed by stripping it once more.
pub strip-strip : (s : String) → strip (strip s) ≡ strip s
unfolding strip
strip-strip s = rw (lstrip-rstrip-lstrip s) (rstrip_fixed (lstrip s))

-- The characters of a text, as texts: `list(s)`.
abbrev pub letters : String → List String
letters String.[] = []
letters (String.◌∷◌ c s) = String.◌∷◌ c String.[] ∷ letters s

-- `text.startswith(needle)`, on the code points.
abbrev pub starts_with : List ℕ → List ℕ → Bool
starts_with [] text = true
starts_with (n ∷ ns) [] = false
starts_with (n ∷ ns) (c ∷ cs) = eqb n c && starts_with ns cs

-- `needle in text`, on the code points.
unfoldable pub occurs_in : List ℕ → List ℕ → Bool
occurs_in needle [] = starts_with needle []
occurs_in needle (c ∷ cs) = starts_with needle (c ∷ cs) || occurs_in needle cs

-- `x in xs`, of texts
abbrev pub elem : String → List String → Bool
elem k [] = false
elem k (x ∷ xs) = (x == k) || elem k xs

-- `s + t`
abbrev pub append : String → String → String
append String.[] t = t
append (String.◌∷◌ c s) t = String.◌∷◌ c (append s t)

-- The characters that `str.splitlines` ends a line at.
unfoldable pub is_break : ℕ → Bool
is_break c =
    (leb 10 c && leb c 13) || (leb 28 c && leb c 30) || eqb c 0x85 || eqb c 0x2028 || eqb c 0x2029

abbrev pub first_line : Char → List String → List String
first_line c [] = (String.◌∷◌ c String.[]) ∷ []
first_line c (l ∷ ls) = (String.◌∷◌ c l) ∷ ls

abbrev pub starts_line : String → Bool
starts_line String.[] = false
starts_line (String.◌∷◌ c s) = eqb (code c) 10

-- `s.splitlines()`: a carriage return and a line feed are one break.
unfoldable pub splitlines : String → List String
unfolding is_break
splitlines String.[] = []
splitlines (String.◌∷◌ c s) =
    let rest = splitlines s in
    if is_break (code c)
    then (if eqb (code c) 13 && starts_line s then rest else "" ∷ rest)
    else first_line c rest
