-- ===== src/Logger/Events.antt =====
-- What the events of src/link/utils/logger.py's `AsyncHandler` come to.
use locai_link.Base.{ℕ, suc, ◌+◌, List, [], ◌∷◌, ◌++◌, ◌≡◌, refl, ap, arith}
use locai_link.Logger.{
  Outgoing, LogEvent, queued, refused, unrouted, config_error, handled_error, sent,
}

-- The entries that joined the queue, and those that were handed to the transport.
abbrev pub joined : List LogEvent → List Outgoing
joined [] = []
joined (queued x ∷ es) = x ∷ joined es
joined (refused n ∷ es) = joined es
joined (unrouted ∷ es) = joined es
joined (config_error ∷ es) = joined es
joined (handled_error ∷ es) = joined es
joined (sent x ∷ es) = joined es

abbrev pub delivered : List LogEvent → List Outgoing
delivered [] = []
delivered (queued x ∷ es) = delivered es
delivered (refused n ∷ es) = delivered es
delivered (unrouted ∷ es) = delivered es
delivered (config_error ∷ es) = delivered es
delivered (handled_error ∷ es) = delivered es
delivered (sent x ∷ es) = x ∷ delivered es

-- How many were dropped.
abbrev pub refusals : List LogEvent → ℕ
refusals [] = 0
refusals (queued x ∷ es) = refusals es
refusals (refused n ∷ es) = suc (refusals es)
refusals (unrouted ∷ es) = refusals es
refusals (config_error ∷ es) = refusals es
refusals (handled_error ∷ es) = refusals es
refusals (sent x ∷ es) = refusals es

pub joined-append : (es fs : List LogEvent) → joined (es ++ fs) ≡ joined es ++ joined fs
joined-append [] fs = refl
joined-append (queued x ∷ es) fs = ap (◌∷◌ x) (joined-append es fs)
joined-append (refused n ∷ es) fs = joined-append es fs
joined-append (unrouted ∷ es) fs = joined-append es fs
joined-append (config_error ∷ es) fs = joined-append es fs
joined-append (handled_error ∷ es) fs = joined-append es fs
joined-append (sent x ∷ es) fs = joined-append es fs

pub delivered-append : (es fs : List LogEvent) → delivered (es ++ fs) ≡ delivered es ++ delivered fs
delivered-append [] fs = refl
delivered-append (queued x ∷ es) fs = delivered-append es fs
delivered-append (refused n ∷ es) fs = delivered-append es fs
delivered-append (unrouted ∷ es) fs = delivered-append es fs
delivered-append (config_error ∷ es) fs = delivered-append es fs
delivered-append (handled_error ∷ es) fs = delivered-append es fs
delivered-append (sent x ∷ es) fs = ap (◌∷◌ x) (delivered-append es fs)

pub refusals-append : (es fs : List LogEvent) → refusals (es ++ fs) ≡ refusals es + refusals fs
refusals-append [] fs = omega arith
refusals-append (queued x ∷ es) fs = refusals-append es fs
refusals-append (refused n ∷ es) fs = omega (arith, refusals-append es fs)
refusals-append (unrouted ∷ es) fs = refusals-append es fs
refusals-append (config_error ∷ es) fs = refusals-append es fs
refusals-append (handled_error ∷ es) fs = refusals-append es fs
refusals-append (sent x ∷ es) fs = refusals-append es fs
