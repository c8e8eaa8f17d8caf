-- ===== src/Templating/Shape.antt =====
-- What the resolution of placeholders keeps: src/link/config/templating.py, `resolve_templates`.
use locai_link.Base.{String, ◌≡◌, refl}
use locai_link.Json.{
  Json, Items, Fields, null, bool, number, decimal, text, arr, obj, nil, cons, end, field,
}
use locai_link.Templating.{resolve_templates, resolve_items, resolve_fields}

-- The same value but for its texts, those that are keys left aside.
unfoldable mutual
  pub SameShape : Json → Json → Type 0
  SameShape (text s) (text t) = Unit
  SameShape null null = Unit
  SameShape (bool b) (bool c) = b ≡ c
  SameShape (number n) (number m) = n ≡ m
  SameShape (decimal s) (decimal t) = s ≡ t
  SameShape (arr xs) (arr ys) = SameItems xs ys
  SameShape (obj fs) (obj gs) = SameFields fs gs
  SameShape _ _ = ⊥

  pub SameItems : Items → Items → Type 0
  SameItems nil nil = Unit
  SameItems (cons v vs) (cons w ws) = SameShape v w × SameItems vs ws
  SameItems _ _ = ⊥

  pub SameFields : Fields → Fields → Type 0
  SameFields end end = Unit
  SameFields (field j v fs) (field k w gs) = (j ≡ k) × SameShape v w × SameFields fs gs
  SameFields _ _ = ⊥

module _ (str : Json → String) (context : Json) where
  mutual
    unfolding resolve_templates SameShape

    shape : (v : Json) → SameShape v (resolve_templates str context v)
    shape (text s) = tt
    shape (obj fs) = shape_fields fs
    shape (arr xs) = shape_items xs
    shape null = tt
    shape (bool b) = refl
    shape (number n) = refl
    shape (decimal s) = refl

    shape_items : (xs : Items) → SameItems xs (resolve_items str context xs)
    shape_items nil = tt
    shape_items (cons v vs) = (shape v, shape_items vs)

    shape_fields : (fs : Fields) → SameFields fs (resolve_fields str context fs)
    shape_fields end = tt
    shape_fields (field k v fs) = (refl, shape v, shape_fields fs)

  -- The resolution of placeholders keeps the shape of a value: lists keep their length, objects
  -- their keys and the order of these, and only texts that are no keys change.
  pub resolve_templates-SameShape : (v : Json) → SameShape v (resolve_templates str context v)
  resolve_templates-SameShape v = shape v
