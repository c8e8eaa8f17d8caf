-- ===== src/State/Pipelines.antt =====
-- What the loops of the session file do to the pipeline that an id names.
use locai_link.Base.{
  String, Bool, false, Option, none, some, List, [], ◌∷◌, ◌≡◌, refl, ◌==◌, if◌then◌else◌, arith,
  eq_iff,
}
use locai_link.Config.{PipelineConfig}
use locai_link.State.{find, find_last, set_active, replace_or_append, drop_id, keep_active}

-- The flag that a new version of a pipeline takes over.
abbrev pub flag : Option PipelineConfig → Bool
flag none = false
flag (some p) = p.active

abbrev pub activate : Bool → PipelineConfig → PipelineConfig
activate a p = record p { active = a }

abbrev pub map_found :
    (PipelineConfig → PipelineConfig) → Option PipelineConfig → Option PipelineConfig
map_found f none = none
map_found f (some p) = some (f p)

pub find-set_active :
    (pid j : String) (a : Bool) (ps : List PipelineConfig)
    → find j (set_active pid a ps)
      ≡ (if pid == j then map_found (activate a) (find j ps) else find j ps)
unfolding find set_active
find-set_active pid j a [] = ground arith
find-set_active pid j a (p ∷ ps) =
    ground (arith, find-set_active pid j a ps, eq_iff pid j, eq_iff p.id pid, eq_iff p.id j)

pub find-replace_or_append :
    (j : String) (new : PipelineConfig) (ps : List PipelineConfig)
    → find j (replace_or_append new ps)
      ≡ (if new.id == j then some (activate (flag (find j ps)) new) else find j ps)
unfolding find replace_or_append
find-replace_or_append j new [] = ground arith
find-replace_or_append j new (p ∷ ps) =
    ground
      (arith, find-replace_or_append j new ps, eq_iff new.id j, eq_iff p.id new.id, eq_iff p.id j)

pub find-drop_id :
    (pid j : String) (ps : List PipelineConfig)
    → find j (drop_id pid ps) ≡ (if pid == j then none else find j ps)
unfolding find drop_id
find-drop_id pid j [] = ground arith
find-drop_id pid j (p ∷ ps) =
    ground (arith, find-drop_id pid j ps, eq_iff pid j, eq_iff p.id pid, eq_iff p.id j)

abbrev pub take_flag : Option PipelineConfig → PipelineConfig → PipelineConfig
take_flag none p = p
take_flag (some old) p = record p { active = old.active }

pub find-keep_active :
    (j : String) (old new : List PipelineConfig)
    → find j (keep_active old new) ≡ map_found (take_flag (find_last j old)) (find j new)
unfolding find keep_active
find-keep_active j old [] = refl
find-keep_active j old (p ∷ ps) = ground (arith, find-keep_active j old ps, eq_iff p.id j)
