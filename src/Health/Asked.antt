-- ===== src/Health/Asked.antt =====
-- What the address and the path of a request say: src/link/infra/health_server.py.
use Prim.Native.Char.{Char, code}
use Prim.Native.String.{◌++◌}
use mathlib.Core.Path.{subst}
use text.Mathlib.TextEquality.{Char-path}
use text.Mathlib.TextLemmas.{cons-append, nil-append}
use locai_link.Base.{
  String, Bool, true, false, Option, none, some, ◌≡◌, ◌⊎◌, refl, sym, ap, ◌∙◌, inl, inr, arith, eqb,
  ◌==◌, eq_iff, elem, Bool-cases, Option-cases, if-some, if-not_some, if◌then◌else◌,
}
use locai_link.Runtime.Handle.{ModelEntry}
use locai_link.Health.Requests.{
  LocalRequest, LoopbackCommand, LocalAgent, check_loopback, before_colon, or_empty, loopback_hosts,
  after_prefix, at_slash, actions, split_action, split_rest, model_action, command_of,
}

abbrev pub IsLoopback : String → Type 0
IsLoopback name = (name ≡ "127.0.0.1") ⊎ (name ≡ "localhost")

-- The host is a loopback name, alone or before a port.
abbrev pub HostIsLocal : String → Type 0
HostIsLocal host =
    (name : String) × IsLoopback name
    × ((host ≡ name) ⊎ ((rest : String) × (host ≡ name ++ (":" ++ rest))))

abbrev pub OriginIsLocal : LocalAgent → Option String → Type 0
OriginIsLocal w none = Unit
OriginIsLocal w (some o) = IsLoopback (w.lower (or_empty (w.origin_host o)))

abbrev pub IsLocal : LocalAgent → LocalRequest → Type 0
IsLocal w q = HostIsLocal (w.lower (or_empty q.host)) × OriginIsLocal w q.origin

abbrev pub on_model : String → String → String
on_model pid action = "/models/" ++ (pid ++ ("/" ++ action))

-- The path asks for the command.
abbrev pub Asks : String → LoopbackCommand → Type 0
Asks path LoopbackCommand.update_agent = path ≡ "/update"
Asks path (LoopbackCommand.cancel_deploy pid) = path ≡ on_model pid "cancel-deploy"
Asks path (LoopbackCommand.start_serving pid port host alias) = path ≡ on_model pid "serve"
Asks path (LoopbackCommand.stop_serving pid) = path ≡ on_model pid "stop-serving"
Asks path (LoopbackCommand.uninstall_model pid force) =
    (path ≡ on_model pid "uninstall") × (force ≡ true)

same_char : (c d : Char) → eqb (code c) (code d) ≡ true → c ≡ d
same_char c d h = Char-path c d (ground (arith, h))

before_colon-append :
    (s : String) → (s ≡ before_colon s) ⊎ ((rest : String) × (s ≡ before_colon s ++ (":" ++ rest)))
unfolding before_colon
before_colon-append String.[] = inl refl
before_colon-append (String.◌∷◌ c s) = elim (Bool-cases (eqb (code c) 58)) [
  | inl e ↦ inr (
    s,
    rw (e, nil-append, cons-append, nil-append) (ap (λ d. String.◌∷◌ d s) (same_char c ":" e)),
  )
  | inr e ↦ rw (e) (elim (before_colon-append s) [
    | inl same ↦ inl (ap (String.◌∷◌ c) same)
    | inr (rest, same) ↦ inr (rest, rw (cons-append) (ap (String.◌∷◌ c) same))
  ])
]

elem-IsLoopback : (n : String) → elem n loopback_hosts ≡ true → IsLoopback n
elem-IsLoopback n h = elim (Bool-cases ("127.0.0.1" == n)) [
  | inl e ↦ inl (sym ((eq_iff "127.0.0.1" n).0 e))
  | inr e ↦ inr (sym ((eq_iff "localhost" n).0 (ground (arith, h, e))))
]

pub check_loopback-IsLocal :
    (w : LocalAgent) (q : LocalRequest) → check_loopback w q ≡ true → IsLocal w q
unfolding check_loopback
check_loopback-IsLocal w q h =
    let host = w.lower (or_empty q.host) in
    let named : elem (before_colon host) loopback_hosts ≡ true = ground (arith, h) in
    (
      (before_colon host, elem-IsLoopback (before_colon host) named, before_colon-append host),
      elim (Option-cases q.origin) [
        | inl e ↦ rw (e) tt
        | inr (o, e) ↦ rw (e) (elem-IsLoopback _ (ground (arith, rw (e) at h)))
      ],
    )

after_prefix-append : (p s r : String) → after_prefix p s ≡ some r → s ≡ p ++ r
unfolding after_prefix
after_prefix-append String.[] s r h = rw (nil-append) (if-some true h).1
after_prefix-append (String.◌∷◌ c p) String.[] r h = absurd cc
after_prefix-append (String.◌∷◌ c p) (String.◌∷◌ d s) r h =
    elim (Bool-cases (eqb (code c) (code d))) [
      | inl e ↦ rw (cons-append) (
          ap (λ x. String.◌∷◌ x s) (sym (same_char c d e))
          ∙ ap (String.◌∷◌ c) (after_prefix-append p s r (rw (e) at h)))
      | inr e ↦ let bad : none ≡ some r = rw (e) at h in absurd cc
    ]

at_slash-append : (s a b : String) → at_slash s ≡ some (a, b) → s ≡ a ++ ("/" ++ b)
unfolding at_slash
at_slash-append String.[] a b h = absurd cc
at_slash-append (String.◌∷◌ c s) a b h = elim (Bool-cases (eqb (code c) 47)) [
  | inl e ↦
      let p : (String.[], s) ≡ (a, b) = (if-some true (rw (e) at h)).1 in
      let here : String.◌∷◌ c s ≡ "" ++ ("/" ++ s) =
        rw (nil-append, cons-append, nil-append) (ap (λ d. String.◌∷◌ d s) (same_char c "/" e)) in
      here ∙ ap (λ (x : String × String). x.0 ++ ("/" ++ x.1)) p
  | inr e ↦ elim (Option-cases (at_slash s)) [
    | inl k ↦ let bad : none ≡ some (a, b) = rw (e, k) at h in absurd cc
    | inr ((a', b'), k) ↦
        let p : (String.◌∷◌ c a', b') ≡ (a, b) = (if-some true (rw (e, k) at h)).1 in
        let here : String.◌∷◌ c s ≡ String.◌∷◌ c a' ++ ("/" ++ b') =
          rw (cons-append) (ap (String.◌∷◌ c) (at_slash-append s a' b' k)) in
        here ∙ ap (λ (x : String × String). x.0 ++ ("/" ++ x.1)) p
  ]
]

split_action-some :
    (o : Option (String × String)) (pid action : String)
    → split_action o ≡ some (pid, action)
    → (o ≡ some (pid, action)) × (elem action actions ≡ true)
unfolding split_action
split_action-some none pid action h = absurd cc
split_action-some (some (p, a)) pid action h =
    let (full, k) = if-not_some (p == "") h in
    let (known, same) = if-some (elem a actions) k in
    (ap some same, subst (λ (x : String × String). elem x.1 actions ≡ true) same known)

split_rest-some :
    (o : Option String) (pid action : String)
    → split_rest o ≡ some (pid, action)
    → (s : String) × (o ≡ some s) × (at_slash s ≡ some (pid, action)) × (elem action actions ≡ true)
unfolding split_rest
split_rest-some none pid action h = absurd cc
split_rest-some (some s) pid action h =
    let (split, known) = split_action-some (at_slash s) pid action h in (s, refl, split, known)

-- A path of a model's action.
pub model_action-path :
    (path pid action : String)
    → model_action path ≡ some (pid, action)
    → (path ≡ on_model pid action) × (elem action actions ≡ true)
unfolding model_action
model_action-path path pid action h =
    let (s, e, split, known) = split_rest-some (after_prefix "/models/" path) pid action h in
    (
      after_prefix-append "/models/" path s e
          ∙ ap (λ t. "/models/" ++ t) (at_slash-append s pid action split),
      known,
    )

eq_swap : (a b : String) → (a == b) ≡ false → (b == a) ≡ false
eq_swap a b h = elim (Bool-cases (b == a)) [
  | inl e ↦
      let same : (a == b) ≡ true = (eq_iff a b).1 (sym ((eq_iff b a).0 e)) in
      absurd (ground (arith, h, same))
  | inr e ↦ e
]

-- The last action, where it is none of the others.
elem-uninstall :
    (action : String)
    → elem action actions ≡ true
    → (action == "cancel-deploy") ≡ false
    → (action == "serve") ≡ false
    → (action == "stop-serving") ≡ false
    → action ≡ "uninstall"
elem-uninstall action k h i j =
    let last : ("uninstall" == action) ≡ true = ground (
      arith,
      k,
      eq_swap action "cancel-deploy" h,
      eq_swap action "serve" i,
      eq_swap action "stop-serving" j,
    ) in
    sym ((eq_iff "uninstall" action).0 last)

-- Which branch a result comes from.
chosen :
    (b : Bool) {x c : LoopbackCommand} {o : Option LoopbackCommand}
    → (if b then some x else o) ≡ some c
    → ((b ≡ true) × (x ≡ c)) ⊎ ((b ≡ false) × (o ≡ some c))
chosen true h = inl (refl, cc)
chosen false h = inr (refl, h)

module _ (path pid action : String) (e : path ≡ on_model pid action) where
  asked : (name : String) → (action == name) ≡ true → path ≡ on_model pid name
  asked name h = e ∙ ap (on_model pid) ((eq_iff action name).0 h)

  pub command_of-Asks :
      (w : LocalAgent) (m : Option ModelEntry) (c : LoopbackCommand)
      → elem action actions ≡ true
      → command_of w pid action m ≡ some c
      → Asks path c
  unfolding command_of
  command_of-Asks w none c k h =
      let (i, same) = if-some (action == "cancel-deploy") h in
      subst (Asks path) same (asked "cancel-deploy" i)
  command_of-Asks w (some m) c k h = elim (chosen (action == "cancel-deploy") h) [
    | inl (i, same) ↦ subst (Asks path) same (asked "cancel-deploy" i)
    | inr (i, h1) ↦ elim (chosen (action == "serve") h1) [
      | inl (j, same) ↦ subst (Asks path) same (asked "serve" j)
      | inr (j, h2) ↦ elim (chosen (action == "stop-serving") h2) [
        | inl (l, same) ↦ subst (Asks path) same (asked "stop-serving" l)
        | inr (l, h3) ↦
            let same : LoopbackCommand.uninstall_model pid true ≡ c = cc in
            let last = elem-uninstall action k i j l in
            subst (Asks path) same (e ∙ ap (on_model pid) last, refl)
      ]
    ]
  ]
