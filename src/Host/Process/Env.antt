-- ===== src/Host/Process/Env.antt =====
-- crates/agentmesh-host/src/process.rs: the environment of the plugin, and the check of its path.
use agentmesh_private.Common.{
  Text, Bool, true, false, ◌||◌, Option, none, some, List, [], ◌∷◌, ◌++◌, any, any-append, str_eq,
  str_eq→eq, ◌≡◌, refl, sym, ap, ◌∙◌, subst, inl, inr, Bool-cases, if◌then◌else◌,
}
use agentmesh_private.Common.Map.{Map, get, get-insert}
use agentmesh_private.Common.Results.{Result, ok, err}
use agentmesh_private.Host.Process.{
  System, Command, set_var, restore, baseline, build_plugin_command,
}

abbrev or_else : Option Text → Option Text → Option Text
or_else none other = other
or_else (some v) other = some v

set_var-get :
    (system : System) (key k : Text) (env : Map Text)
    → get (set_var key (system.var key) env) k
      ≡ (if str_eq key k then or_else (system.var k) (get env k) else get env k)
set_var-get system key k env = by_var (system.var key) refl
  where
    by_var :
        (v : Option Text)
        → system.var key ≡ v
        → get (set_var key v env) k
          ≡ (if str_eq key k then or_else (system.var k) (get env k) else get env k)
    by_var v found = elim (Bool-cases (str_eq key k)) [
      | inl same ↦
          let found' : system.var k ≡ v =
            subst (λ j. system.var j ≡ v) (str_eq→eq key k same) found in
          rw (same, found') (inserted v same)
      | inr other ↦ rw (other) (kept v other)
    ]
      where
        inserted :
            (v : Option Text)
            → str_eq key k ≡ true
            → get (set_var key v env) k ≡ or_else v (get env k)
        inserted none same = refl
        inserted (some w) same = get-insert key k w env ∙ rw (same) refl

        kept : (v : Option Text) → str_eq key k ≡ false → get (set_var key v env) k ≡ get env k
        kept none other = refl
        kept (some w) other = get-insert key k w env ∙ rw (other) refl

or_else-twice : (a b : Option Text) → or_else a (or_else a b) ≡ or_else a b
or_else-twice none b = refl
or_else-twice (some v) b = refl

once :
    (b : Bool) (v w : Option Text)
    → (if b then or_else v (or_else v w) else or_else v w) ≡ or_else v w
once true v w = or_else-twice v w
once false v w = refl

restore-get :
    (system : System) (keys : List Text) (env : Map Text) (k : Text)
    → get (restore system keys env) k
      ≡ (if any (λ j. str_eq j k) keys then or_else (system.var k) (get env k) else get env k)
unfolding restore
restore-get system [] env k = refl
restore-get system (key ∷ keys) env k =
    restore-get system keys (set_var key (system.var key) env) k
    ∙ elim (Bool-cases (str_eq key k)) [
      | inl same ↦
          rw (set_var-get system key k env, same)
            (once (any (λ j. str_eq j k) keys) (system.var k) (get env k))
      | inr other ↦ rw (set_var-get system key k env, other) refl
    ]

either :
    (a b : Bool) (v : Option Text)
    → (if a
        then or_else v (if b then or_else v none else none)
        else (if b then or_else v none else none))
      ≡ (if a || b then v else none)
either true true none = refl
either true true (some w) = refl
either true false none = refl
either true false (some w) = refl
either false true none = refl
either false true (some w) = refl
either false false v = refl

-- The plugin sees a variable exactly if it is one of the baseline or in the allowlist, with the value
-- that the host has; it sees no other variable.
pub build_plugin_command-env :
    (system : System) (plugin : Text) (keys : List Text) (command : Command) (k : Text)
    → build_plugin_command system plugin keys ≡ ok command
    → get command.env k ≡ (if any (λ j. str_eq j k) (keys ++ baseline) then system.var k else none)
unfolding build_plugin_command get
build_plugin_command-env system plugin keys command k built =
    ap env_of (sym built)
    ∙ restore-get system keys (restore system baseline []) k
    ∙ rw (restore-get system baseline [] k, any-append (λ j. str_eq j k) keys baseline)
        (either (any (λ j. str_eq j k) keys) (any (λ j. str_eq j k) baseline) (system.var k))
  where
    env_of : Result Text Command → Option Text
    env_of (ok c) = get c.env k
    env_of (err e) = none
