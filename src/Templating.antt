-- ===== src/Templating.antt =====
-- src/link/config/templating.py and loader.py: the placeholders in a configuration. The search for
-- the pattern `\$\{([^}]+)\}` is one pass over the text: what it has read of a placeholder is kept,
-- and is put back where no placeholder comes of it.
pub mod Placed
pub mod Shape
use Prim.Native.Char.{Char, code}
use Prim.Native.String.{◌++◌}
use locai_link.Base.{
  ℕ, String, Bool, true, false, Option, none, some, List, [], ◌∷◌, eqb, ◌==◌, if◌then◌else◌,
}
use locai_link.Json.{
  Json, Items, Fields, null, bool, number, decimal, text, arr, obj, nil, cons, end, field,
}
use locai_link.Config.{AgentConfig}

-- What stands before the place that is read: nothing of a placeholder, its `$`, or its `${` and the
-- beginning of its path.
pub data Read : Type 0 where
  plain dollar : Read
  opened : String → Read

abbrev pub one : Char → String
one c = String.◌∷◌ c ""

-- path.split("."), with the part that was read
unfoldable pub split_dots : String → String → List String
split_dots part String.[] = part ∷ []
split_dots part (String.◌∷◌ c s) =
    let next = split_dots "" s in
    let same = split_dots (part ++ one c) s in if eqb (code c) 46 then part ∷ next else same

unfoldable pub find_field : String → Fields → Option Json
find_field k end = none
find_field k (field j v fs) = let later = find_field k fs in if j == k then some v else later

-- The loop of `_lookup`.
unfoldable pub walk_path : List String → Json → Option Json
unfolding find_field
walk_path [] node = some node
walk_path (p ∷ ps) (obj fs) = elim (find_field p fs) [ none ↦ none | some v ↦ walk_path ps v ]
walk_path (p ∷ ps) _ = none

-- `str` is Python's `str` of a value that is no text.
module _ (str : Json → String) where
  unfoldable pub str_of : Json → String
  str_of (text s) = s
  str_of v = str v

  unfoldable pub shown : String → Option Json → String
  unfolding str_of
  shown path none = "${" ++ path ++ "}"
  shown path (some v) = str_of v

  -- `_lookup`
  unfoldable pub lookup_path : Json → String → String
  unfolding shown
  lookup_path context path = shown path (walk_path (split_dots "" path) context)

  module _ (context : Json) where
    -- The end of a placeholder; an empty path is none.
    unfoldable pub closed : String → String
    closed path = if path == "" then "${}" else lookup_path context path

    -- `_TEMPLATE_RE.sub`
    unfoldable pub substitute : Read → String → String
    unfolding closed
    substitute plain String.[] = ""
    substitute dollar String.[] = "$"
    substitute (opened path) String.[] = "${" ++ path
    substitute plain (String.◌∷◌ c s) =
        let next = substitute dollar s in
        let same = substitute plain s in if eqb (code c) 36 then next else String.◌∷◌ c same
    substitute dollar (String.◌∷◌ c s) =
        let brace = substitute (opened "") s in
        let again = substitute dollar s in
        let back = substitute plain s in
        if eqb (code c) 123
        then brace
        else if eqb (code c) 36
        then "$" ++ again
        else "$" ++ one c ++ back
    substitute (opened path) (String.◌∷◌ c s) =
        let after = substitute plain s in
        let longer = substitute (opened (path ++ one c)) s in
        if eqb (code c) 125 then closed path ++ after else longer

    unfoldable mutual
      unfolding substitute

      pub resolve_templates : Json → Json
      resolve_templates (text s) = text (substitute plain s)
      resolve_templates (obj fs) = obj (resolve_fields fs)
      resolve_templates (arr xs) = arr (resolve_items xs)
      resolve_templates null = null
      resolve_templates (bool b) = bool b
      resolve_templates (number n) = number n
      resolve_templates (decimal s) = decimal s

      pub resolve_items : Items → Items
      resolve_items nil = nil
      resolve_items (cons v vs) = cons (resolve_templates v) (resolve_items vs)

      pub resolve_fields : Fields → Fields
      resolve_fields end = end
      resolve_fields (field k v fs) = field k (resolve_templates v) (resolve_fields fs)

  -- The content of a file: `none` where the file is missing, is not read or holds no JSON;
  -- `validate` is the construction of an `AgentConfig`; the result is `none` where the code
  -- raises.
  unfoldable pub load_config : (Json → Option AgentConfig) → Option Json → Option AgentConfig
  load_config validate none = none
  load_config validate (some raw) = validate (resolve_templates raw raw)
