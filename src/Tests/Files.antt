-- ===== src/Tests/Files.antt =====
-- The theorems on archives and downloads, at concrete data.
use locai_link.Base.{ℕ, arith, true, false, none, some, List, [], ◌∷◌, ◌≡◌, refl}
use locai_link.Archive.{
  Member, codes, at_dots, at_end, finds_dots, is_rooted, is_unsafe, is_refused, extract_tar,
}
use locai_link.Archive.Inside.{AllInside, extract_tar_inside}
use locai_link.Updater.Download.{
  Reply, no_answer, answer, Begins, AllSend, Holds, attempt_download, appends, download,
  download-Holds,
}

abbrev members : List Member
members =
    record { name = "app/bin"; linkname = none }
    ∷ record { name = "app/cur"; linkname = some "bin" }
    ∷ []

accepted : extract_tar members ≡ some members
unfolding extract_tar is_refused is_unsafe codes at_dots at_end finds_dots is_rooted
accepted = refl

-- One slash too many, or a parent folder anywhere, is refused.
refused_names :
    (is_unsafe "/etc/passwd" ≡ true)
    × (is_unsafe "app/../../x" ≡ true)
    × (is_unsafe "C:/x" ≡ true)
    × (is_unsafe "app/..x/y" ≡ false)
unfolding is_unsafe codes at_dots at_end finds_dots is_rooted
refused_names = (refl, refl, refl, refl)

extract_tar_inside_example : (members ≡ members) × AllInside members
extract_tar_inside_example = extract_tar_inside members members accepted

abbrev resource : List ℕ
resource = 10 ∷ 20 ∷ 30 ∷ 40 ∷ []

-- The connection breaks after two bytes, then fails, then the rest comes.
abbrev replies : List Reply
replies =
    answer 200 ((10 ∷ []) ∷ (20 ∷ []) ∷ []) false
    ∷ no_answer
    ∷ answer 206 ((30 ∷ 40 ∷ []) ∷ []) true
    ∷ []

nothing_yet : Begins [] resource
nothing_yet = (resource, refl)

sent : AllSend resource replies []
unfolding attempt_download appends
sent = (
  (λ e. absurd (omega (arith, e)), λ e. (30 ∷ 40 ∷ [], refl)),
  (tt, ((λ e. ([], refl), λ e. absurd (omega (arith, e))), tt)),
)

whole_file : (download replies []).dest ≡ some resource
unfolding download attempt_download appends
whole_file = refl

download-Holds_example : Holds resource (download replies [])
download-Holds_example = download-Holds resource replies [] nothing_yet sent
