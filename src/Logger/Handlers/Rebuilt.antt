-- ===== src/Logger/Handlers/Rebuilt.antt =====
-- What the loggers have after their handlers were rebuilt: src/link/utils/logger.py,
-- `rebuild_handlers`.
use locai_link.Base.{
  ℕ, String, Bool, true, false, ◌&&◌, Option, List, [], ◌∷◌, ◌++◌, map, ◌≡◌, refl, sym, ap, ◌∙◌,
  inl, inr, ◌⊎◌, arith, ◌==◌, is_some, if-cases, length, All,
}
use locai_link.Dict.{Dict, lookup}
use locai_link.Json.{Json}
use locai_link.Config.{GenericConfig}
use locai_link.Health.Requests.{after_prefix}
use locai_link.Logger.{start, close}
use locai_link.Logger.Handlers.{
  Handler, console, remote, Attribute, level, constant, Setup, Section, LoggerState, Loggers, Built,
  raises, skipped, added, attribute, with_level, templates_of, takes_timeout, handler_level,
  build_as, build_handler, add_built, build_all, or_console, section_handlers, section_level,
  configure_at, configure_logger, set_up_both, setup_logging, close_handler, without_handlers,
  RebuildResult, rebuild_handlers,
}

-- An asynchronous handler is as it was made: it is open, with an empty queue and nothing dropped.
abbrev pub IsNew : Handler → Type 0
IsNew (console n) = Unit
IsNew (remote t n h) = (templates : Dict String) × (h ≡ start templates)

abbrev pub IsClosed : Handler → Type 0
IsClosed (console n) = Unit
IsClosed (remote t n h) = h.is_stopped ≡ true

-- The loggers' handlers.
abbrev pub all_handlers : Loggers → List Handler
all_handlers s = s.root.handlers ++ s.reporter.handlers

abbrev MakesNew : Built → Type 0
MakesNew raises = Unit
MakesNew skipped = Unit
MakesNew (added h) = IsNew h

close-All :
    (hs : List Handler)
    → All IsClosed (map close_handler hs) × (length (map close_handler hs) ≡ length hs)
unfolding close_handler close
close-All [] = (tt, refl)
close-All (console n ∷ hs) = ((tt, (close-All hs).0), omega (arith, (close-All hs).1))
close-All (remote t n h ∷ hs) = ((refl, (close-All hs).0), omega (arith, (close-All hs).1))

All-append : (xs ys : List Handler) → All IsNew xs → All IsNew ys → All IsNew (xs ++ ys)
All-append [] ys a b = b
All-append (x ∷ xs) ys a b = (a.0, All-append xs ys a.1 b)

with_level-MakesNew :
    (make : ℕ → Handler) (a : Attribute) → ((n : ℕ) → IsNew (make n)) → MakesNew (with_level make a)
unfolding with_level
with_level-MakesNew make (level n) h = h n
with_level-MakesNew make constant h = tt

module _ (w : Setup) where
  build_as-MakesNew :
      (t : String) (args : Dict Json) (a : Attribute) → MakesNew (build_as w t args a)
  unfolding build_as
  build_as-MakesNew t args a =
      if-cases MakesNew (t == "console") (λ _. with_level-MakesNew console a (λ n. tt))
        (λ _.
          if-cases MakesNew (is_some (after_prefix "zenoh" t) && w.has_zenoh)
            (λ _. with_level-MakesNew _ a (λ n. (templates_of w args, refl)))
            (λ _.
              if-cases MakesNew (t == "http")
                (λ _.
                  if-cases MakesNew (takes_timeout w (lookup "timeout" args))
                    (λ _. with_level-MakesNew _ a (λ n. (templates_of w args, refl))) (λ _. tt))
                (λ _. tt)))

  add_built-IsNew :
      (b : Built) (rest : List Handler × Bool)
      → MakesNew b
      → All IsNew rest.0
      → All IsNew (add_built b rest).0
  unfolding add_built
  add_built-IsNew raises rest m a = tt
  add_built-IsNew skipped rest m a = a
  add_built-IsNew (added h) rest m a = (m, a)

  build_all-IsNew : (target : ℕ) (cs : List GenericConfig) → All IsNew (build_all w target cs).0
  unfolding build_all build_handler
  build_all-IsNew target [] = tt
  build_all-IsNew target (c ∷ cs) =
      add_built-IsNew (build_handler w target c) (build_all w target cs)
        (build_as-MakesNew (w.lower c.type) c.args (handler_level w target (lookup "level" c.args)))
        (build_all-IsNew target cs)

  configure_at-IsNew :
      (b : Bool) (cs : List GenericConfig) (a : Attribute) (s : LoggerState)
      → All IsNew (configure_at w b cs a s).0.handlers
  unfolding configure_at
  configure_at-IsNew b cs constant s = tt
  configure_at-IsNew b cs (level n) s = build_all-IsNew n (or_console b cs)

  -- What was there before makes no difference, unless there is an exception.
  configure_at-same :
      (b : Bool) (cs : List GenericConfig) (a : Attribute) (s s' : LoggerState)
      → ((configure_at w b cs a s).1 ≡ true) ⊎ (configure_at w b cs a s ≡ configure_at w b cs a s')
  unfolding configure_at
  configure_at-same b cs constant s s' = inl refl
  configure_at-same b cs (level n) s s' = inr refl

set_up_both-same :
    (p p' q q' : LoggerState × Bool) (s s' : Loggers)
    → (p.1 ≡ true) ⊎ (p ≡ p')
    → (q.1 ≡ true) ⊎ (q ≡ q')
    → ((set_up_both p q s).1 ≡ true) ⊎ (set_up_both p' q' s' ≡ ((set_up_both p q s).0, false))
unfolding set_up_both
set_up_both-same (root, true) p' q q' s s' e e' = inl refl
set_up_both-same (root, false) p' q q' s s' (inl e) e' = absurd cc
set_up_both-same (root, false) p' (reporter, true) q' s s' (inr e) e' = inl refl
set_up_both-same (root, false) p' (reporter, false) q' s s' (inr e) (inl e') = absurd cc
set_up_both-same (root, false) p' (reporter, false) q' s s' (inr e) (inr e') =
    inr (ap (λ p. set_up_both p q' s') (sym e) ∙ ap (λ q. set_up_both (root, false) q s') (sym e'))

set_up_both-IsNew :
    (p q : LoggerState × Bool) (s : Loggers)
    → All IsNew p.0.handlers
    → All IsNew q.0.handlers
    → All IsNew s.reporter.handlers
    → All IsNew (all_handlers (set_up_both p q s).0)
unfolding set_up_both
set_up_both-IsNew (root, true) q s a b c = All-append root.handlers s.reporter.handlers a c
set_up_both-IsNew (root, false) (reporter, failed) s a b c =
    All-append root.handlers reporter.handlers a b

-- What is claimed of a rebuild, where `first` is what a set-up of other loggers gives.
abbrev pub Rebuilds : Loggers → Loggers × Bool → RebuildResult → Type 0
Rebuilds s first r =
    All IsNew (all_handlers r.loggers)
    × All IsClosed r.closed_handlers
    × (length r.closed_handlers ≡ length (all_handlers s))
    × ((r.failed ≡ true) ⊎ (first ≡ (r.loggers, false)))

-- A rebuild closes each handler that the loggers have, and leaves them only with handlers that are
-- new: open, with an empty queue. If it does not raise, then the loggers are as after a set-up of
-- any loggers with the same configurations, whatever handlers and levels were there before.
pub rebuild_handlers-Rebuilds :
    (w : Setup) (logging reporting : Option Section) (s other : Loggers)
    → Rebuilds s (setup_logging w logging reporting other) (rebuild_handlers w logging reporting s)
unfolding rebuild_handlers setup_logging configure_logger without_handlers
rebuild_handlers-Rebuilds w logging reporting s other =
    let a = attribute (w.upper (section_level logging)) 20 in
    let b = attribute (w.upper (section_level reporting)) 20 in
    let cs = section_handlers logging in
    let ds = section_handlers reporting in
    (
      set_up_both-IsNew _ _ _ (configure_at-IsNew w true cs a (without_handlers s.root))
          (configure_at-IsNew w false ds b (without_handlers s.reporter)) tt,
      (close-All (all_handlers s)).0,
      (close-All (all_handlers s)).1,
      set_up_both-same _ _ _ _ _ other
          (configure_at-same w true cs a (without_handlers s.root) other.root)
          (configure_at-same w false ds b (without_handlers s.reporter) other.reporter),
    )
