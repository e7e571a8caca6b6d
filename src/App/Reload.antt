-- ===== src/App/Reload.antt =====
-- internal/app/app.go: how a new configuration reaches the policy engine: from the watcher of the file,
-- from the endpoint that reads the file again, and from the endpoint that is given one.
pub mod Valid
use mrmi_gateway.Prelude.{
  ℤ, String, Bool, ◌≡◌, refl, Option, Option-cases, none, some, inl, inr, List, [], ◌∷◌,
}
use mrmi_gateway.Config.{Config}
use mrmi_gateway.Config.Validate.{ConfigError, validate}
use mrmi_gateway.Config.Toml.Apply.{Source, LoadError, invalid, load}
use mrmi_gateway.Policy.{Engine, reload}
use mrmi_gateway.Hotreload.{Watcher, poll}

-- The engine, the policy version that was loaded last, and the watcher.
pub record State : Type 0 where
  pub engine : Engine
  pub last_version : String
  pub watcher : Watcher

module _ (decimal : ℤ → String) where
  -- The callback of the watcher. The warning for an unchanged version is only logged.
  unfoldable pub on_change : Config → State → State
  on_change cfg s =
      let (err, engine) = reload cfg s.engine in
      elim err [
        | some _ ↦ s
        | none ↦ record s { engine = engine; last_version = cfg.node.policy_version }
      ]

  unfoldable pub changed : Option Config → State → State
  unfolding on_change
  changed none s = s
  changed (some cfg) s = on_change cfg s

  -- A tick of the watcher.
  unfoldable pub tick : Option ℤ → Source → State → State
  unfolding changed
  tick stat source s =
      let (found, w) = poll decimal stat source s.watcher in
      changed found (record s { watcher = w })

  reload_given : Option LoadError × Option Config → State → Option LoadError × State
  reload_given (some e, _) s = (some e, s)
  reload_given (none, none) s = (none, s)
  reload_given (none, some cfg) s =
      let (err, engine) = reload cfg s.engine in
      (elim err [ none ↦ none | some e ↦ some (invalid e) ], record s { engine = engine })

  -- onReload
  unfoldable pub on_reload : Source → State → Option LoadError × State
  unfolding reload_given
  on_reload source s = reload_given (load decimal source) s

  -- onConfigSave
  unfoldable pub on_config_save : Config → State → Option ConfigError × State
  on_config_save cfg s = elim (validate cfg) [
    | some e ↦ (some e, s)
    | none ↦ let (err, engine) = reload cfg s.engine in (err, record s { engine = engine })
  ]

  -- What changes the engine.
  pub data Event : Type 0 where
    polled : Option ℤ → Source → Event
    asked : Source → Event
    saved : Config → Event

  abbrev pub step : Event → State → State
  step (polled stat source) s = tick stat source s
  step (asked source) s = (on_reload source s).1
  step (saved cfg) s = (on_config_save cfg s).1

  abbrev pub steps : List Event → State → State
  steps [] s = s
  steps (e ∷ es) s = steps es (step e s)
