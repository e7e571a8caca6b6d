-- ===== src/App/Reload/Valid.antt =====
-- internal/app/app.go: which configurations the policy engine can have.
use mrmi_gateway.Prelude.{ℤ, String, ◌≡◌, Option, Option-cases, none, some, inl, inr, List, [], ◌∷◌}
use mrmi_gateway.Config.{Config}
use mrmi_gateway.Config.Validate.{validate}
use mrmi_gateway.Config.Toml.Apply.{LoadError, load}
use mrmi_gateway.Policy.{Engine, reload}
use mrmi_gateway.Hotreload.{poll}
use mrmi_gateway.App.Reload.{
  State, on_change, changed, tick, reload_given, on_reload, on_config_save, Event, polled, asked,
  saved, step, steps,
}

abbrev pub HasValid : State → Type 0
HasValid s = validate s.engine.cfg ≡ none

reload-valid :
    (cfg : Config) (e : Engine) → validate e.cfg ≡ none → validate (reload cfg e).1.cfg ≡ none
unfolding reload
reload-valid cfg e h = elim (Option-cases (validate cfg)) [
  | inl fine ↦ rw (fine, reload) fine
  | inr (err, broken) ↦ rw (broken, reload) h
]

module _ (decimal : ℤ → String) where
  on_change-valid : (cfg : Config) (s : State) → HasValid s → HasValid (on_change decimal cfg s)
  unfolding on_change
  on_change-valid cfg s h = elim (Option-cases (reload cfg s.engine).0) [
    | inl fine ↦ rw (fine, on_change) (reload-valid cfg s.engine h)
    | inr (err, broken) ↦ rw (broken, on_change) h
  ]

  changed-valid :
      (found : Option Config) (s : State) → HasValid s → HasValid (changed decimal found s)
  unfolding changed
  changed-valid none s h = h
  changed-valid (some cfg) s h = on_change-valid cfg s h

  reload_given-valid :
      (r : Option LoadError × Option Config) (s : State)
      → HasValid s
      → HasValid (reload_given decimal r s).1
  unfolding reload_given
  reload_given-valid (some e, found) s h = h
  reload_given-valid (none, none) s h = h
  reload_given-valid (none, some cfg) s h = reload-valid cfg s.engine h

  save-valid : (cfg : Config) (s : State) → HasValid s → HasValid (on_config_save decimal cfg s).1
  unfolding on_config_save
  save-valid cfg s h = elim (Option-cases (validate cfg)) [
    | inr (err, broken) ↦ rw (broken, on_config_save) h
    | inl fine ↦ rw (fine, on_config_save) (reload-valid cfg s.engine h)
  ]

  step-valid : (e : Event decimal) (s : State) → HasValid s → HasValid (step decimal e s)
  unfolding tick on_reload
  step-valid (polled stat source) s h =
      changed-valid (poll decimal stat source s.watcher).0
        (record s { watcher = (poll decimal stat source s.watcher).1 }) h
  step-valid (asked source) s h = reload_given-valid (load decimal source) s h
  step-valid (saved cfg) s h = save-valid cfg s h

  -- Whatever the watcher finds in the file, and whatever the endpoints are given, in any order: the
  -- configuration of the policy engine passes `Validate`, if it did at the start.
  pub steps-HasValid :
      (es : List (Event decimal)) (s : State) → HasValid s → HasValid (steps decimal es s)
  steps-HasValid [] s h = h
  steps-HasValid (e ∷ es) s h = steps-HasValid es (step decimal e s) (step-valid e s h)
