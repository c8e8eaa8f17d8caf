-- ===== src/PipelineThread/Delivery.antt =====
-- What a pipeline delivers, how it waits and how it ends: src/link/components/pipeline.py.
use locai_link.Base.{
  ℕ, suc, ◌≤◌, Bool, true, false, List, [], ◌∷◌, ◌≡◌, refl, ap, arith, if◌then◌else◌, All,
}
use locai_link.PipelineThread.{
  Turn, stopped, woken, gives, gives_none, source_ends, source_fails, returned, exhausted, raised,
  Effect, deliver, sleep, release_source, release_sink, idle_sleep_min, back_off, Ends, teardown,
  after_sink, run, cut_short, sink_after, Release, release,
}

back_off-small : (n : ℕ) → back_off n ≤ 200
unfolding back_off
back_off-small n = ground arith

module _ {ℓ} {D : Type ℓ} where
  -- What was handed to the sink.
  abbrev pub delivered : List (Effect D) → List D
  delivered [] = []
  delivered (deliver d ∷ es) = d ∷ delivered es
  delivered (sleep n ∷ es) = delivered es
  delivered (release_source r ∷ es) = delivered es
  delivered (release_sink r ∷ es) = delivered es

  -- What the source gave, until the loop ends.
  abbrev pub given : List (Turn D) → List D
  given [] = []
  given (stopped ∷ ts) = []
  given (woken ∷ ts) = given ts
  given (gives d exhausted ∷ ts) = d ∷ []
  given (gives d e ∷ ts) = d ∷ given ts
  given (gives_none ∷ ts) = given ts
  given (source_ends ∷ ts) = []
  given (source_fails ∷ ts) = given ts

  -- Does a turn end the loop?
  abbrev pub ends : List (Turn D) → Bool
  ends [] = false
  ends (stopped ∷ ts) = true
  ends (woken ∷ ts) = ends ts
  ends (gives d exhausted ∷ ts) = true
  ends (gives d e ∷ ts) = ends ts
  ends (gives_none ∷ ts) = ends ts
  ends (source_ends ∷ ts) = true
  ends (source_fails ∷ ts) = ends ts

  -- How often the source, and the sink, were released.
  abbrev pub releases : List (Effect D) → ℕ × ℕ
  releases [] = (0, 0)
  releases (deliver d ∷ es) = releases es
  releases (sleep n ∷ es) = releases es
  releases (release_source r ∷ es) = (suc (releases es).0, (releases es).1)
  releases (release_sink r ∷ es) = ((releases es).0, suc (releases es).1)

  abbrev pub IsBounded : Effect D → Type 0
  IsBounded (sleep n) = n ≤ 1000
  IsBounded (deliver d) = Unit
  IsBounded (release_source r) = Unit
  IsBounded (release_sink r) = Unit

  -- What is claimed of the effects of a run over these turns.
  abbrev pub Delivers : Ends → List (Turn D) → List (Effect D) → Type ℓ
  Delivers w ts es =
      (delivered es ≡ given ts)
      × (releases es ≡ (if ends ts then (1, if cut_short w then 0 else 1) else (0, 0)))
      × All IsBounded es

  -- The release of the sink delivers nothing, waits for nothing and is made at most once.
  abbrev OnlyReleases : Bool → List (Effect D) → Type ℓ
  OnlyReleases cut es =
      (delivered es ≡ []) × (releases es ≡ (0, if cut then 0 else 1)) × All IsBounded es

  sink_after_lem : (cut : Bool) (r : Release) → OnlyReleases cut (sink_after cut r)
  unfolding sink_after
  sink_after_lem true r = (refl, refl, tt)
  sink_after_lem false r = (refl, refl, (tt, tt))

  module _ (w : Ends) where
    -- What is claimed of the release of both.
    abbrev Released : List (Effect D) → Type ℓ
    Released es =
        (delivered es ≡ []) × (releases es ≡ (1, if cut_short w then 0 else 1)) × All IsBounded es

    teardown-Released : Released (teardown w)
    unfolding teardown
    teardown-Released =
        let (same, once, bounded) =
          sink_after_lem (cut_short w) (release w.sink_stop w.sink_close) in
        (same, ap (λ n. (suc n.0, n.1)) once, (tt, bounded))

    -- From an idle wait of at most 200 ms: all data that the source gives until the loop ends is
    -- handed to the sink, once and in order, also where the sink fails or the source does in
    -- between; when the loop ends and not before, the source is released once and the sink too,
    -- unless the release of the source raises; and no wait is longer than a second.
    pub run-Delivers :
        (ts : List (Turn D)) (idle_sleep : ℕ)
        → idle_sleep ≤ 200
        → Delivers w ts (run w idle_sleep ts)
    unfolding run after_sink
    run-Delivers [] n h = (refl, refl, tt)
    run-Delivers (stopped ∷ ts) n h = teardown-Released
    run-Delivers (woken ∷ ts) n h = run-Delivers ts n h
    run-Delivers (gives d returned ∷ ts) n h =
        let (same, once, bounded) = run-Delivers ts idle_sleep_min (omega arith) in
        (ap (◌∷◌ d) same, once, (tt, bounded))
    run-Delivers (gives d exhausted ∷ ts) n h =
        let (same, once, bounded) = teardown-Released in (ap (◌∷◌ d) same, once, (tt, bounded))
    run-Delivers (gives d raised ∷ ts) n h =
        let (same, once, bounded) = run-Delivers ts idle_sleep_min (omega arith) in
        (ap (◌∷◌ d) same, once, (tt, (omega arith, bounded)))
    run-Delivers (gives_none ∷ ts) n h =
        let (same, once, bounded) = run-Delivers ts (back_off n) (back_off-small n) in
        (same, once, (omega (arith, h), bounded))
    run-Delivers (source_ends ∷ ts) n h = teardown-Released
    run-Delivers (source_fails ∷ ts) n h =
        let (same, once, bounded) = run-Delivers ts n h in (same, once, (omega arith, bounded))
