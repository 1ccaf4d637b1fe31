-- ===== src/Feed/Registry.antt =====
-- attribution/attribution.go, attribution/pipeline.go: the registries of plugins, and the choice
-- of plugins by name.
use cloudip.Base.{
  ◌≡◌, refl, sym, inl, inr, Text, codes, text_eq, ◌==◌, List, [], ◌∷◌, ◌++◌, map, Option, none,
  some, if◌then◌else◌, arith, Bool-cases, ==-sound, Option-cases, text_lt,
}
use cloudip.Base.Outcome.{Outcome, ok, err, Outcome-cases, ok-inj}
use cloudip.Base.Dict.{Dict, get, put, get-put}
use cloudip.Feed.{Plugin}

-- `registry`, `reputationRegistry`, `asnRegistry`
abbrev pub Registry : Type 0
Registry = Dict Plugin

-- `Register`, `RegisterReputation`, `RegisterASN`
unfoldable pub register : Plugin → Registry → Registry
register p reg = put p.name p reg

-- `Plugins`, `ReputationPlugins`, `ASNPlugins`: a copy.
unfoldable pub plugins_of : Registry → Registry
plugins_of [] = []
plugins_of ((k, v) ∷ reg) = (k, v) ∷ plugins_of reg

-- `Lookup`
unfoldable pub lookup : Text → Registry → Option Plugin
lookup name reg = get name reg

-- `sort.Slice` by name.
unfoldable pub insert_plugin : Plugin → List Plugin → List Plugin
insert_plugin p [] = p ∷ []
insert_plugin p (q ∷ ps) = if text_lt q.name p.name then q ∷ insert_plugin p ps else p ∷ q ∷ ps

unfoldable pub sorted_plugins : Registry → List Plugin
sorted_plugins [] = []
sorted_plugins ((k, p) ∷ reg) = insert_plugin p (sorted_plugins reg)

unfoldable pub select_named : Registry → List Text → Outcome (List Plugin)
select_named reg [] = ok []
select_named reg (n ∷ names) = elim (get n reg) [
  | none ↦ err (codes "unknown provider plugin " ++ n)
  | some p ↦ elim (select_named reg names) [ err e ↦ err e | ok ps ↦ ok (p ∷ ps) ]
]

unfoldable pub select_from : Registry → List Text → Outcome (List Plugin)
select_from reg [] = ok (sorted_plugins reg)
select_from reg (n ∷ names) = select_named reg (n ∷ names)

-- Every plugin is registered under its own name.
unfoldable pub IsNamed : Registry → Type 0
IsNamed reg = (n : Text) (p : Plugin) → get n reg ≡ some p → p.name ≡ n

abbrev pub names_of : List Plugin → List Text
names_of ps = map (λ p. Plugin.name p) ps

register-IsNamed : (p : Plugin) (reg : Registry) → IsNamed reg → IsNamed (register p reg)
unfolding IsNamed register
register-IsNamed p reg named n q h = elim (Bool-cases (n == p.name)) [
  | inl e ↦ ground (arith, get-put n p.name p reg, ==-sound n p.name e)
  | inr e ↦ named n q (ground (arith, get-put n p.name p reg))
]

select_named_lem :
    (reg : Registry) (names : List Text) (ps : List Plugin)
    → IsNamed reg
    → select_named reg names ≡ ok ps
    → names_of ps ≡ names
unfolding select_named IsNamed
select_named_lem reg [] ps named h = rw (sym (ok-inj h)) refl
select_named_lem reg (n ∷ names) ps named h = elim (Option-cases (get n reg)) [
  | inl e0 ↦ absurd (let h' = rw (e0, select_named) at h in cc)
  | inr (p, e1) ↦ elim (Outcome-cases (select_named reg names)) [
    | inr (e, e2) ↦ absurd (let h' = rw (e1, e2, select_named) at h in cc)
    | inl (qs, e2) ↦
        let h' = rw (e1, e2, select_named) at h in
        let rest = select_named_lem reg names qs named e2 in
        let own = named n p e1 in let whole : p ∷ qs ≡ ps = ok-inj h' in rw (sym whole) (cc)
  ]
]

-- From a registry that keeps each plugin under its own name, a choice by names that succeeds gives
-- the plugins of those names, in the order asked for.
pub select_from_names :
    (reg : Registry) (n : Text) (names : List Text) (ps : List Plugin)
    → IsNamed reg
    → select_from reg (n ∷ names) ≡ ok ps
    → names_of ps ≡ n ∷ names
unfolding select_from
select_from_names reg n names ps named h = select_named_lem reg (n ∷ names) ps named h
