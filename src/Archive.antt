-- ===== src/Archive.antt =====
-- src/link/utils/archive.py: the refusal of archive entries that would leave the destination. A
-- name is read as the list of its characters' codes.
pub mod Inside
use Prim.Native.Char.{code}
use locai_link.Base.{
  ℕ, String, Bool, true, false, not, ◌&&◌, ◌||◌, Option, none, some, List, [], ◌∷◌, eqb, leb,
  if◌then◌else◌,
}

unfoldable pub codes : String → List ℕ
codes String.[] = []
codes (String.◌∷◌ c s) = code c ∷ codes s

-- [/\\]
abbrev pub is_separator : ℕ → Bool
is_separator c = eqb c 47 || eqb c 92

-- [A-Za-z]
abbrev pub is_letter : ℕ → Bool
is_letter c = (leb 65 c && leb c 90) || (leb 97 c && leb c 122)

-- ([/\\]|$), where `$` is also found before a newline that ends the text
unfoldable pub at_end : List ℕ → Bool
at_end [] = true
at_end (c ∷ []) = is_separator c || eqb c 10
at_end (c ∷ d ∷ cs) = is_separator c

-- \.\.([/\\]|$)
unfoldable pub at_dots : List ℕ → Bool
at_dots (a ∷ b ∷ cs) = eqb a 46 && eqb b 46 && at_end cs
at_dots _ = false

-- [/\\]\.\.([/\\]|$), at any place
unfoldable pub finds_dots : List ℕ → Bool
finds_dots [] = false
finds_dots (c ∷ cs) = (is_separator c && at_dots cs) || finds_dots cs

-- (^[/\\])|(^[A-Za-z]:)
unfoldable pub is_rooted : List ℕ → Bool
is_rooted [] = false
is_rooted (c ∷ []) = is_separator c
is_rooted (c ∷ d ∷ cs) = is_separator c || (is_letter c && eqb d 58)

-- `_UNSAFE_PATH_RE.search(name)`
unfoldable pub is_unsafe : String → Bool
is_unsafe name = is_rooted (codes name) || at_dots (codes name) || finds_dots (codes name)

-- A member of a tar file; a link has the name that it leads to.
pub record Member : Type 0 where
  pub name : String
  pub linkname : Option String

refused_link : Option String → Bool
refused_link none = false
refused_link (some l) = is_unsafe l

unfoldable pub is_refused : Member → Bool
unfolding refused_link
is_refused m = is_unsafe m.name || refused_link m.linkname

any_refused : List Member → Bool
any_refused [] = false
any_refused (m ∷ ms) = is_refused m || any_refused ms

-- `_extract_tar`: the members that are handed to `extractall`, or `none` if one is refused.
unfoldable pub extract_tar : List Member → Option (List Member)
unfolding any_refused
extract_tar ms = if any_refused ms then none else some ms
