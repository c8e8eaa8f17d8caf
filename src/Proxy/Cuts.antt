-- ===== src/Proxy/Cuts.antt =====
-- Where an event ends does not depend on what follows: src/link/infra/serving_proxy.py,
-- `_ChatTelemetry.ingest_chunk`.
use locai_link.Base.{
  ℕ, zero, suc, ◌≤◌, ◌<◌, true, false, Option, none, some, [], ◌∷◌, ◌++◌, ◌≡◌, refl, ap, sym, ◌∙◌,
  arith, inl, inr, length, if◌then◌else◌, Bool-cases,
}
use locai_link.Proxy.{Bytes, starts, find_bytes, shifted, cut_at, drop, lf, crlf, earliest, cut}

abbrev consed : ℕ → Option (Bytes × Bytes) → Option (Bytes × Bytes)
consed x none = none
consed x (some (event, rest)) = some (x ∷ event, rest)

-- The same cut, found in one walk.
next : Bytes → Option (Bytes × Bytes)
next [] = none
next (x ∷ xs) =
    let later = consed x (next xs) in
    if starts lf (x ∷ xs)
    then some ([], drop 2 (x ∷ xs))
    else if starts crlf (x ∷ xs)
    then some ([], drop 4 (x ∷ xs))
    else later

one_start : (ys : Bytes) → starts lf ys ≡ true → starts crlf ys ≡ false
unfolding starts
one_start [] h = refl
one_start (y ∷ ys) h = ground (arith, h)

cut_at-later :
    (x : ℕ) (xs : Bytes) (l c : Option ℕ)
    → cut_at (x ∷ xs) (earliest (shifted l) (shifted c)) ≡ consed x (cut_at xs (earliest l c))
unfolding earliest
cut_at-later x xs none none = refl
cut_at-later x xs (some l) none = refl
cut_at-later x xs none (some c) = refl
cut_at-later x xs (some l) (some c) = ground arith

cut_at-lf :
    (x : ℕ) (xs : Bytes) (c : Option ℕ)
    → cut_at (x ∷ xs) (earliest (some 0) (shifted c)) ≡ some ([], drop 2 (x ∷ xs))
unfolding earliest
cut_at-lf x xs none = refl
cut_at-lf x xs (some c) = ground arith

cut_at-crlf :
    (x : ℕ) (xs : Bytes) (l : Option ℕ)
    → cut_at (x ∷ xs) (earliest (shifted l) (some 0)) ≡ some ([], drop 4 (x ∷ xs))
unfolding earliest
cut_at-crlf x xs none = refl
cut_at-crlf x xs (some l) = ground arith

cut-next : (buf : Bytes) → cut buf ≡ next buf
unfolding cut next find_bytes earliest
cut-next [] = refl
cut-next (x ∷ xs) = elim (Bool-cases (starts lf (x ∷ xs))) [
  | inl first ↦ rw (first, one_start (x ∷ xs) first) (cut_at-lf x xs (find_bytes crlf xs))
  | inr not_lf ↦ elim (Bool-cases (starts crlf (x ∷ xs))) [
    | inl first ↦ rw (not_lf, first) (cut_at-crlf x xs (find_bytes lf xs))
    | inr not_crlf ↦
        rw (not_lf, not_crlf)
          (cut_at-later x xs (find_bytes lf xs) (find_bytes crlf xs) ∙ ap (consed x) (cut-next xs))
  ]
]

consed-some :
    (x : ℕ) (o : Option (Bytes × Bytes)) (event rest : Bytes)
    → consed x o ≡ some (event, rest)
    → (e : Bytes) × (event ≡ x ∷ e) × (o ≡ some (e, rest))
consed-some x none event rest h = absurd cc
consed-some x (some (e, r)) event rest h =
    let (same_event, same_rest) : (x ∷ e ≡ event) × (r ≡ rest) = (cc, cc) in
    (e, sym same_event, ap (λ t. some (e, t)) same_rest)

not_empty : (event rest : Bytes) → next [] ≡ some (event, rest) → ⊥
unfolding next
not_empty event rest h = absurd cc

abbrev extended : Bytes → Option (Bytes × Bytes) → Option (Bytes × Bytes)
extended ys none = none
extended ys (some (event, rest)) = some (event, rest ++ ys)

shortened :
    (ys left left' event rest : Bytes)
    → ◌≡◌ {A = Option (Bytes × Bytes)} (some ([], left)) (some (event, rest))
    → left' ≡ left ++ ys
    → ◌≡◌ {A = Option (Bytes × Bytes)} (some ([], left')) (some (event, rest ++ ys))
shortened ys left left' event rest e d = ap (λ v. some ([], v)) d ∙ ap (extended ys) e

-- Bytes that hold a whole event decide alone whether a delimiter begins just before them.
starts-append :
    (x : ℕ) (xs ys event rest : Bytes)
    → next xs ≡ some (event, rest)
    → (starts lf (x ∷ xs ++ ys) ≡ starts lf (x ∷ xs))
      × (starts crlf (x ∷ xs ++ ys) ≡ starts crlf (x ∷ xs))
unfolding next starts
starts-append x [] ys event rest h = absurd cc
starts-append x (y ∷ []) ys event rest h = absurd (ground (arith, h))
starts-append x (y ∷ z ∷ []) ys event rest h = (refl, ground (arith, h))
starts-append x (y ∷ z ∷ w ∷ ws) ys event rest h = (refl, refl)

drop-lf_append :
    (xs ys : Bytes)
    → starts lf xs ≡ true
    → (starts lf (xs ++ ys) ≡ true) × (drop 2 (xs ++ ys) ≡ drop 2 xs ++ ys)
unfolding starts
drop-lf_append [] ys h = absurd cc
drop-lf_append (x ∷ []) ys h = absurd (ground (arith, h))
drop-lf_append (x ∷ y ∷ xs) ys h = (h, refl)

drop-crlf_append :
    (xs ys : Bytes)
    → starts crlf xs ≡ true
    → (starts crlf (xs ++ ys) ≡ true)
      × (starts lf (xs ++ ys) ≡ false)
      × (drop 4 (xs ++ ys) ≡ drop 4 xs ++ ys)
unfolding starts
drop-crlf_append [] ys h = absurd cc
drop-crlf_append (x ∷ []) ys h = absurd (ground (arith, h))
drop-crlf_append (x ∷ y ∷ []) ys h = absurd (ground (arith, h))
drop-crlf_append (x ∷ y ∷ z ∷ []) ys h = absurd (ground (arith, h))
drop-crlf_append (x ∷ y ∷ z ∷ w ∷ ws) ys h = (h, ground (arith, h), refl)

next-lf :
    (x : ℕ) (xs : Bytes) → starts lf (x ∷ xs) ≡ true → next (x ∷ xs) ≡ some ([], drop 2 (x ∷ xs))
unfolding next
next-lf x xs h = rw (h) refl

next-crlf :
    (x : ℕ) (xs : Bytes)
    → starts lf (x ∷ xs) ≡ false
    → starts crlf (x ∷ xs) ≡ true
    → next (x ∷ xs) ≡ some ([], drop 4 (x ∷ xs))
unfolding next
next-crlf x xs h k = rw (h, k) refl

next-later :
    (x : ℕ) (xs : Bytes)
    → starts lf (x ∷ xs) ≡ false
    → starts crlf (x ∷ xs) ≡ false
    → next (x ∷ xs) ≡ consed x (next xs)
unfolding next
next-later x xs h k = rw (h, k) refl

-- What is cut off a buffer is cut off it in front of any other bytes too.
next-append :
    (xs ys event rest : Bytes)
    → next xs ≡ some (event, rest)
    → next (xs ++ ys) ≡ some (event, rest ++ ys)
next-append [] ys event rest h = absurd (not_empty event rest h)
next-append (x ∷ xs) ys event rest h = elim (Bool-cases (starts lf (x ∷ xs))) [
  | inl first ↦
      let (starts', dropped) = drop-lf_append (x ∷ xs) ys first in
      next-lf x (xs ++ ys) starts'
      ∙ shortened ys (drop 2 (x ∷ xs)) _ event rest (sym (next-lf x xs first) ∙ h) dropped
  | inr not_lf ↦ elim (Bool-cases (starts crlf (x ∷ xs))) [
    | inl first ↦
        let (starts', other, dropped) = drop-crlf_append (x ∷ xs) ys first in
        next-crlf x (xs ++ ys) other starts'
        ∙ shortened ys (drop 4 (x ∷ xs)) _ event rest (sym (next-crlf x xs not_lf first) ∙ h)
            dropped
    | inr not_crlf ↦
        let (e, whole, later) =
          consed-some x (next xs) event rest (sym (next-later x xs not_lf not_crlf) ∙ h) in
        let (same_lf, same_crlf) = starts-append x xs ys e rest later in
        next-later x (xs ++ ys) (same_lf ∙ not_lf) (same_crlf ∙ not_crlf)
        ∙ ap (consed x) (next-append xs ys e rest later)
        ∙ ap (λ v. some (v, rest ++ ys)) (sym whole)
  ]
]

abbrev remainder : Option (Bytes × Bytes) → Bytes
remainder none = []
remainder (some (event, rest)) = rest

length-drop_le : (n : ℕ) (xs : Bytes) → length (drop n xs) ≤ length xs
length-drop_le zero xs = omega arith
length-drop_le (suc n) [] = omega arith
length-drop_le (suc n) (x ∷ xs) = omega (arith, length-drop_le n xs)

-- An event that is cut off takes a byte at least with it.
next-shorter : (xs event rest : Bytes) → next xs ≡ some (event, rest) → length rest < length xs
next-shorter [] event rest h = absurd (not_empty event rest h)
next-shorter (x ∷ xs) event rest h = elim (Bool-cases (starts lf (x ∷ xs))) [
  | inl first ↦
      let e = ap (λ o. length (remainder o)) (sym (next-lf x xs first) ∙ h) in
      omega (arith, e, length-drop_le 1 xs)
  | inr not_lf ↦ elim (Bool-cases (starts crlf (x ∷ xs))) [
    | inl first ↦
        let e = ap (λ o. length (remainder o)) (sym (next-crlf x xs not_lf first) ∙ h) in
        omega (arith, e, length-drop_le 3 xs)
    | inr not_crlf ↦
        let (e, whole, later) =
          consed-some x (next xs) event rest (sym (next-later x xs not_lf not_crlf) ∙ h) in
        omega (arith, next-shorter xs e rest later)
  ]
]

pub cut-append :
    (xs ys event rest : Bytes)
    → cut xs ≡ some (event, rest)
    → cut (xs ++ ys) ≡ some (event, rest ++ ys)
cut-append xs ys event rest h =
    cut-next (xs ++ ys) ∙ next-append xs ys event rest (sym (cut-next xs) ∙ h)

pub cut-shorter : (xs event rest : Bytes) → cut xs ≡ some (event, rest) → length rest < length xs
cut-shorter xs event rest h = next-shorter xs event rest (sym (cut-next xs) ∙ h)
