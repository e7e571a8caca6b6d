-- ===== src/Hotreload.antt =====
-- internal/hotreload/watcher.go: a poll of the configuration file. `stat` is the file's modification
-- time, none for an error; `source` is what config.Load would find in the file.
use mrmi_gateway.Prelude.{ℤ, String, Option, none, some, if◌then◌else◌}
use mrmi_gateway.Prelude.Int.{eqb_ℤ}
use mrmi_gateway.Config.{Config}
use mrmi_gateway.Config.Toml.Apply.{Source, load}

-- The modification time that was seen last, none for the zero time.
pub record Watcher : Type 0 where
  pub last_mod : Option ℤ

abbrev pub new : Watcher
new = record { last_mod = none }

module _ (decimal : ℤ → String) where
  unfoldable pub since : ℤ → Option ℤ → Source → Option Config
  since modified none source = none
  since modified (some last) source = if eqb_ℤ modified last then none else (load decimal source).1

  -- A tick of `Watch`: the configuration that `onChange` is called with, if it is called.
  unfoldable pub poll : Option ℤ → Source → Watcher → Option Config × Watcher
  unfolding since
  poll none source w = (none, w)
  poll (some modified) source w =
      (since modified w.last_mod source, record { last_mod = some modified })
