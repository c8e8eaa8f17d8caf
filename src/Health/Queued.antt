-- ===== src/Health/Queued.antt =====
-- How long a deployment is queued: src/link/infra/health_server.py, `set_deployment_progress` and
-- `snapshot`.
use locai_link.Base.{
  ℕ, ◌+◌, String, false, Option, none, some, [], ◌∷◌, ◌≡◌, refl, ap, ◌∙◌, arith, ltb, if◌then◌else◌,
  Bool-cases, inl, inr, ◌==◌,
}
use locai_link.Json.{Json}
use locai_link.Dict.{Dict, lookup}
use locai_link.Dict.Laws.{lookup-insert_self}
use locai_link.Health.{
  HealthState, Row, aged, sweep, take_snapshot, new_row, set_deployment_progress,
}

abbrev aged_row : ℕ → Option Row → Option Row
aged_row now none = none
aged_row now (some d) = some (aged now d)

lookup-sweep :
    (now : ℕ) (pid : String) (ds : Dict Row)
    → lookup pid (sweep now ds) ≡ aged_row now (lookup pid ds)
unfolding sweep lookup
lookup-sweep now pid [] = refl
lookup-sweep now pid ((j, d) ∷ ds) = elim (Bool-cases (j == pid)) [
  | inl same ↦ rw (same) refl
  | inr other ↦ rw (other) (lookup-sweep now pid ds)
]

-- The row that a program registers ahead of the command from Control, where there was none.
abbrev pub registered : ℕ → String → Json → Option String → HealthState → HealthState
registered t pid pct name s = set_deployment_progress t pid "queued" pct name s

-- A registration of a pipeline without a row is told, by the snapshot that comes next, as queued
-- up to 300 seconds after it and as failed later; a row of another stage than queued is not
-- changed by a registration.
pub registered-stage :
    (t now : ℕ) (pid : String) (pct : Json) (name : Option String) (s : HealthState) (d : Row)
    → (lookup pid s.deployments ≡ none
        → (d' : Row) × (lookup pid (take_snapshot now (registered t pid pct name s)).0.deployments
            ≡ some d')
          × (d'.stage ≡ (if ltb (300 + t) now then "failed" else "queued")))
      × (lookup pid s.deployments ≡ some d
          → (d.stage == "queued") ≡ false
          → registered t pid pct name s ≡ s)
unfolding set_deployment_progress take_snapshot new_row
registered-stage t now pid pct name s d = (
  λ missing.
      let row = new_row t "queued" pct name none in
      let at : lookup pid (registered t pid pct name s).deployments ≡ some row =
        rw (missing) (lookup-insert_self pid row s.deployments) in
      (
        aged now row,
        lookup-sweep now pid (registered t pid pct name s).deployments ∙ ap (aged_row now) at,
        ground arith,
      ),
  λ there ahead. rw (there, ahead) refl,
)
