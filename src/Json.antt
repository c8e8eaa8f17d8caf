-- ===== src/Json.antt =====
-- The JSON values that configurations and commands are made of. A number that is no natural
-- number keeps its text, since the program only passes it on.
use native.Mathlib.Decide.{ℕ_discrete}
use locai_link.Base.{ℕ, String, Bool, arith, ◌==◌, eq_iff, Bool-cases, inl, inr}

mutual
  pub data Json : Type 0 where
    null : Json
    bool : Bool → Json
    number : ℕ → Json
    decimal : String → Json
    text : String → Json
    arr : Items → Json
    obj : Fields → Json

  pub data Items : Type 0 where
    nil : Items
    cons : Json → Items → Items

  pub data Fields : Type 0 where
    end : Fields
    field : String → Json → Fields → Fields

pub String-discrete : Discrete String
String-discrete s t = elim (Bool-cases (s == t)) [
  | inl e ↦ yes ((eq_iff s t).0 e)
  | inr e ↦ no (λ p. ground (arith, eq_iff s t, e, p))
]

pub Json-discrete : Discrete Json
Json-discrete = hlevel (String-discrete, ℕ_discrete)
