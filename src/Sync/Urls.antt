-- ===== src/Sync/Urls.antt =====
-- internal/caldav/sync_token.py: `_url`, the form in which collections and resources are compared.
use Prim.Native.Char.{Char, code}
use caldav_assistant_skeleto.Prelude.{
  ◌≡◌, refl, String, Option, none, some, eqb, strip, if◌then◌else◌,
}

slash_cons : Char → String → String
slash_cons c String.[] = if eqb (code c) 47 then String.[] else String.◌∷◌ c String.[]
slash_cons c (String.◌∷◌ d s) = String.◌∷◌ c (String.◌∷◌ d s)

-- `s.rstrip("/")`
unfoldable pub rstrip_slash : String → String
unfolding slash_cons
rstrip_slash String.[] = String.[]
rstrip_slash (String.◌∷◌ c s) = slash_cons c (rstrip_slash s)

-- `_url`, of a text
unfoldable pub url_of : String → String
unfolding rstrip_slash strip
url_of s = rstrip_slash (strip s)

abbrev pub url_or_empty : Option String → String
url_or_empty none = ""
url_or_empty (some s) = url_of s

url_of_inner : url_of " https://a.example/tasks// " ≡ "https://a.example/tasks"
unfolding url_of
url_of_inner = refl
