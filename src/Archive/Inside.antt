-- ===== src/Archive/Inside.antt =====
-- What the check of archive entries is for: a path that passes it stays in the destination.
use locai_link.Base.{
  ℕ, zero, suc, String, Bool, true, false, ◌&&◌, ◌||◌, Option, none, some, List, [], ◌∷◌, ◌≡◌, refl,
  arith, eqb, if◌then◌else◌, All, Bool-cases, inl, inr,
}
use locai_link.Archive.{
  codes, is_separator, at_end, at_dots, finds_dots, is_rooted, is_unsafe, Member, is_refused,
  refused_link, any_refused, extract_tar,
}

-- The first segment of a path and the others.
unfoldable pub segments : List ℕ → List ℕ × List (List ℕ)
segments [] = ([], [])
segments (c ∷ cs) = let (h, t) = segments cs in if is_separator c then ([], h ∷ t) else (c ∷ h, t)

-- ".."
abbrev pub is_parent : List ℕ → Bool
is_parent (a ∷ b ∷ []) = eqb a 46 && eqb b 46
is_parent _ = false

-- "" or "."
abbrev pub is_here : List ℕ → Bool
is_here [] = true
is_here (a ∷ []) = eqb a 46
is_here _ = false

-- Walking the segments from a folder at this depth never goes above depth 0.
unfoldable pub stays : ℕ → List (List ℕ) → Bool
stays d [] = true
stays d (s ∷ ss) =
    if is_parent s
    then elim d [ zero ↦ false | suc e ↦ stays e ss ]
    else if is_here s
    then stays d ss
    else stays (suc d) ss

-- A relative path whose walk stays in the folder where it starts.
abbrev pub IsInside : String → Type 0
IsInside name =
    (is_rooted (codes name) ≡ false)
    × (stays 0 ((segments (codes name)).0 ∷ (segments (codes name)).1) ≡ true)

any_parent : List (List ℕ) → Bool
any_parent [] = false
any_parent (s ∷ ss) = is_parent s || any_parent ss

is_nil : List ℕ → Bool
is_nil [] = true
is_nil (c ∷ cs) = false

stays_without_parents : (d : ℕ) (ss : List (List ℕ)) → any_parent ss ≡ false → stays d ss ≡ true
unfolding stays any_parent
stays_without_parents d [] h = refl
stays_without_parents d (s ∷ ss) h =
    ground (arith, h, stays_without_parents d ss, stays_without_parents (suc d) ss)

nil_segment : (cs : List ℕ) → is_nil (segments cs).0 ≡ true → at_end cs ≡ true
unfolding segments is_nil at_end
nil_segment [] h = refl
nil_segment (c ∷ []) h = ground (arith, h)
nil_segment (c ∷ d ∷ cs) h = ground (arith, h)

is_dot : List ℕ → Bool
is_dot (a ∷ []) = eqb a 46
is_dot _ = false

starts_dot : List ℕ → Bool
starts_dot [] = false
starts_dot (b ∷ cs) = eqb b 46 && at_end cs

dot_segment : (cs : List ℕ) → is_dot (segments cs).0 ≡ true → starts_dot cs ≡ true
unfolding segments is_dot starts_dot is_nil
dot_segment [] h = h
dot_segment (c ∷ cs) h = ground (arith, h, nil_segment cs)

parent_segment : (cs : List ℕ) → is_parent (segments cs).0 ≡ true → at_dots cs ≡ true
unfolding segments at_dots starts_dot is_dot is_nil
parent_segment [] h = h
parent_segment (c ∷ []) h = ground (arith, h)
parent_segment (c ∷ d ∷ cs) h = ground (arith, h, dot_segment (d ∷ cs), nil_segment cs)

later_parent : (cs : List ℕ) → any_parent (segments cs).1 ≡ true → finds_dots cs ≡ true
unfolding segments finds_dots any_parent
later_parent [] h = h
later_parent (c ∷ cs) h = ground (arith, h, later_parent cs, parent_segment cs)

-- A name that the pattern does not find unsafe is a relative path that stays where it starts.
safe-IsInside : (name : String) → is_unsafe name ≡ false → IsInside name
unfolding is_unsafe any_parent
safe-IsInside name h =
    let cs = codes name in
    (
      ground (arith, h),
      stays_without_parents 0 ((segments cs).0 ∷ (segments cs).1)
          (ground (arith, h, parent_segment cs, later_parent cs)),
    )

-- A link leads nowhere else either.
abbrev pub LeadsInside : Option String → Type 0
LeadsInside none = Unit
LeadsInside (some l) = IsInside l

link_inside : (link : Option String) → refused_link link ≡ false → LeadsInside link
unfolding refused_link
link_inside none h = tt
link_inside (some l) h = safe-IsInside l h

abbrev pub AllInside : List Member → Type 0
AllInside ms = All (λ m. IsInside m.name × LeadsInside m.linkname) ms

all_inside : (ms : List Member) → any_refused ms ≡ false → AllInside ms
unfolding any_refused is_refused
all_inside [] h = tt
all_inside (m ∷ ms) h = (
  (safe-IsInside m.name (ground (arith, h)), link_inside m.linkname (ground (arith, h))),
  all_inside ms (ground (arith, h)),
)

-- Of an archive that is extracted, every member, and every name that a link member leads to, is a
-- relative path, without a drive letter, whose walk along its segments never goes above the
-- folder where it starts; and all members are extracted.
pub extract_tar_inside : (ms ns : List Member) → extract_tar ms ≡ some ns → (ns ≡ ms) × AllInside ms
unfolding extract_tar
extract_tar_inside ms ns h = elim (Bool-cases (any_refused ms)) [
  | inl bad ↦ ground (arith, bad, h)
  | inr good ↦ (ground (arith, good, h), all_inside ms good)
]
