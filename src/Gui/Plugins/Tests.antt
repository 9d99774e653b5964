-- ===== src/Gui/Plugins/Tests.antt =====
-- Runs of LoadPlugins.
use ps2esdl.Prelude.{ℕ, zero, suc, ◌≡◌, refl, subst, arith, Option, none, some, List, [], ◌∷◌, ◌++◌}
use ps2esdl.Gui.Plugins.{
  DeviceDriver, Plugins, is_plugin, same_bytes, read_into, word_of, n_modules, read_data,
  load_plugins, sample_plugin_header,
}
use ps2esdl.Gui.Plugins.Rounds.{IsPlugin, AreOrdered, Counts, load_plugins_hangs, load_plugins_end}

abbrev zeros : ℕ → List ℕ
zeros zero = []
zeros (suc n) = 0 ∷ zeros n

-- A plugin without modules
abbrev empty_plugin : List ℕ
empty_plugin = sample_plugin_header ++ zeros 48

empty_plugin-IsPlugin : IsPlugin empty_plugin 0
unfolding is_plugin same_bytes read_into n_modules word_of read_data
empty_plugin-IsPlugin = (refl, λ data_bytes. refl)

abbrev no_name : DeviceDriver
no_name = record {
  dev_name = [];
  dev_disp_name = [];
  driver_type = 0;
  udnl_module = record { size = 0; module_bytes = [] };
  modules = [];
}

abbrev fresh : ℕ → List ℕ
fresh i = zeros 4

abbrev second_only : ℕ → Option (List ℕ)
second_only (suc zero) = some empty_plugin
second_only _ = none

abbrev first_only : ℕ → Option (List ℕ)
first_only zero = some empty_plugin
first_only (suc i) = none

first_only-AreOrdered : AreOrdered first_only
first_only-AreOrdered zero file data_bytes h e is =
    let same : n_modules data_bytes file ≡ 0 =
      subst (λ f. n_modules data_bytes f ≡ 0) (cc e) (empty_plugin-IsPlugin.1 data_bytes) in
    (omega arith, omega arith)
first_only-AreOrdered (suc i) file data_bytes h e is = absurd (cc e)

load_plugins_hangs_example : load_plugins fresh second_only 100 (zeros 48) no_name ≡ none
load_plugins_hangs_example =
    load_plugins_hangs fresh second_only empty_plugin (zeros 48) no_name refl refl
      empty_plugin-IsPlugin 100

load_plugins_end_example :
    (st : Plugins) × (load_plugins fresh first_only 3 (zeros 48) no_name ≡ some st) × Counts 3 st
load_plugins_end_example =
    load_plugins_end fresh first_only (zeros 48) no_name first_only-AreOrdered
