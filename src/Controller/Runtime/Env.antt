-- ===== src/Controller/Runtime/Env.antt =====
-- The environment of a runtime's container: the controller's variables, then the spec's.
use flow_pipe.Prelude.{
  ◌≡◌, refl, Bool, false, ◌||◌, Option, none, some, List, [], ◌∷◌, ◌++◌, map, arith, if◌then◌else◌,
}
use flow_pipe.Text.{Text, text_eq, text_eq_iff}
use flow_pipe.Text.Order.{sort, insert_sorted}
use flow_pipe.Dict.{Dict, lookup}
use flow_pipe.Controller.Kube.{EnvVar}
use flow_pipe.Controller.Runtime.Template.{
  base_env, has_name, extra_vars, runtime_env, value_or_empty,
}

-- The value that Kubernetes gives a variable: its last entry's.
unfoldable pub env_value : Text → List EnvVar → Option Text
env_value k [] = none
env_value k (e ∷ env) = elim (env_value k env) [
  | some v ↦ some v
  | none ↦ if text_eq e.name k then some e.value else none
]

unfoldable listed : Text → List Text → Bool
listed k [] = false
listed k (j ∷ names) = text_eq j k || listed k names

env_value-append :
    (k : Text) (a b : List EnvVar)
    → env_value k (a ++ b) ≡ elim (env_value k b) [ some v ↦ some v | none ↦ env_value k a ]
unfolding env_value
env_value-append k [] b = ground arith
env_value-append k (e ∷ a) b = ground (arith, env_value-append k a b)

env_value-absent : (k : Text) (a : List EnvVar) → has_name k a ≡ false → env_value k a ≡ none
unfolding env_value has_name
env_value-absent k [] h = refl
env_value-absent k (e ∷ a) h = ground (arith, env_value-absent k a)

env_value-extra_vars :
    (k : Text) (base : List EnvVar) (extra : Dict) (keys : List Text)
    → env_value k (extra_vars base extra keys) ≡ (
        if has_name k base
        then none
        else if listed k keys
        then some (value_or_empty (lookup k extra))
        else none)
unfolding env_value extra_vars listed
env_value-extra_vars k base extra [] = ground arith
env_value-extra_vars k base extra (j ∷ keys) =
    ground (arith, env_value-extra_vars k base extra keys, text_eq_iff j k)

listed-insert_sorted :
    (k s : Text) (names : List Text)
    → listed k (insert_sorted s names) ≡ (text_eq s k || listed k names)
unfolding listed insert_sorted
listed-insert_sorted k s [] = refl
listed-insert_sorted k s (t ∷ ts) = ground (arith, listed-insert_sorted k s ts)

listed-sort : (k : Text) (names : List Text) → listed k (sort names) ≡ listed k names
unfolding listed sort
listed-sort k [] = refl
listed-sort k (s ∷ ss) = ground (arith, listed-insert_sorted k s (sort ss), listed-sort k ss)

if-listed-lookup :
    (k : Text) (extra : Dict)
    → (if listed k (map (λ (e : Text × Text). e.0) extra)
        then some (value_or_empty (lookup k extra))
        else none)
      ≡ lookup k extra
unfolding listed lookup
if-listed-lookup k [] = refl
if-listed-lookup k ((j, v) ∷ extra) = ground (arith, if-listed-lookup k extra)

-- In the environment of a runtime each variable that the controller sets has the controller's value,
-- whatever the spec says, and every other variable has the value that the spec gives it, and is there
-- only if the spec has it.
pub runtime_env_value :
    (enabled : Bool) (endpoint : Text) (extra : Dict) (k : Text)
    → env_value k (runtime_env enabled endpoint extra) ≡ (
        if has_name k (base_env enabled endpoint)
        then env_value k (base_env enabled endpoint)
        else lookup k extra)
unfolding runtime_env
runtime_env_value enabled endpoint extra k =
    let base = base_env enabled endpoint in
    let names = map (λ (e : Text × Text). e.0) extra in
    ground (
      arith,
      env_value-append k base (extra_vars base extra (sort names)),
      env_value-absent k base,
      env_value-extra_vars k base extra (sort names),
      listed-sort k names,
      if-listed-lookup k extra,
    )
