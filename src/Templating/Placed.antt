-- ===== src/Templating/Placed.antt =====
-- What becomes of a placeholder: src/link/config/templating.py.
use Prim.Native.Char.{Char, code}
use Prim.Native.String.{◌++◌}
use text.Mathlib.TextLemmas.{cons-append, append-nil, append_assoc, nil-append}
use locai_link.Base.{ℕ, String, Bool, true, false, not, ◌&&◌, ◌≡◌, refl, eqb, ◌==◌, arith}
use locai_link.Json.{Json}
use locai_link.Templating.{plain, opened, one, lookup_path, closed, substitute}

-- A text without the character of this code.
abbrev pub lacks : ℕ → String → Bool
lacks n String.[] = true
lacks n (String.◌∷◌ c s) = not (eqb (code c) n) && lacks n s

one_append : (c : Char) (s : String) → one c ++ s ≡ String.◌∷◌ c s
one_append c s = simp (cons-append, nil-append)

-- The two characters before a path.
open_append : (s : String) → "${" ++ s ≡ String.◌∷◌ "$" (String.◌∷◌ "{" s)
open_append s = rw (cons-append, cons-append, nil-append) refl

append_one : (path key : String) (c : Char) → (path ++ one c) ++ key ≡ path ++ String.◌∷◌ c key
append_one path key c = simp (append_assoc, cons-append, nil-append)

module _ (str : Json → String) (context : Json) where
  plain_prefix :
      (a rest : String)
      → lacks 36 a ≡ true
      → substitute str context plain (a ++ rest) ≡ a ++ substitute str context plain rest
  unfolding substitute
  plain_prefix String.[] rest h = simp (nil-append)
  plain_prefix (String.◌∷◌ c a) rest h =
      rw (cons-append, cons-append) (ground (arith, h, plain_prefix a rest))

  opened_path :
      (path key rest : String)
      → lacks 125 key ≡ true
      → substitute str context (opened path) (key ++ "}" ++ rest)
        ≡ closed str context (path ++ key) ++ substitute str context plain rest
  unfolding substitute
  opened_path path String.[] rest h = rw (nil-append, append-nil, one_append "}" rest) refl
  opened_path path (String.◌∷◌ c key) rest h =
      rw (cons-append)
        (rw (← append_one path key c) (ground (arith, h, opened_path (path ++ one c) key rest)))

  -- A placeholder in any text is replaced by what `_lookup` gives for its path, if the path is
  -- not empty; what stands before it has no `$`, and the rest of the text is resolved in the same
  -- way. A text without a `$` does not change.
  pub substitute-placeholder :
      (before path rest : String)
      → lacks 36 before ≡ true
      → lacks 125 path ≡ true
      → (path == "") ≡ false
      → (substitute str context plain (before ++ "${" ++ path ++ "}" ++ rest)
          ≡ before ++ lookup_path str context path ++ substitute str context plain rest)
        × (substitute str context plain before ≡ before)
  unfolding substitute closed
  substitute-placeholder before path rest h k e = (
    rw
        (
          plain_prefix before ("${" ++ path ++ "}" ++ rest) h,
          open_append (path ++ "}" ++ rest),
          opened_path "" path rest k,
          nil-append path,
          e,
        )
        refl,
    rw (← append-nil before) (rw (plain_prefix before "" h) refl),
  )
