-- ===== src/Gui/Plugins/Rounds.antt =====
-- plugin.c: the passes of LoadPlugins, whose number the plugins' own loops change.
use ps2esdl.Prelude.{
  ℕ, zero, suc, ◌+◌, ◌<◌, ◌≤◌, ◌≡◌, ◌∙◌, refl, ap, arith, true, Option, none, some, List, [], ◌∷◌,
  ltb, ltb→lt, min, drop, Bool-cases, dec_lt, length, length-append, add32, inl, inr,
}
use ps2esdl.Gui.Plugins.{
  DeviceDriver, Plugins, max_devices, is_plugin, n_modules, read_data, driver_of, load_plugin,
  visit_plugin, plugin_loop, load_plugins,
}

-- The file is a plugin with `n` modules, whatever PluginData held before.
abbrev pub IsPlugin : List ℕ → ℕ → Type 0
IsPlugin file n = (is_plugin file ≡ true) × ((data_bytes : List ℕ) → n_modules data_bytes file ≡ n)

below_three : (i : ℕ) → i < 3 → ltb i 3 ≡ true
below_three i h = ground arith

module _ (fresh : ℕ → List ℕ) (files : ℕ → Option (List ℕ)) where
  visit_plugin-IsPlugin :
      (i n : ℕ) (file : List ℕ) (st : Plugins)
      → files i ≡ some file
      → IsPlugin file n
      → visit_plugin fresh i st (files i) ≡ (n, load_plugin fresh st file)
  unfolding visit_plugin
  visit_plugin-IsPlugin i n file st e (h, number) =
      ap (visit_plugin fresh i st) e ∙ rw (h, number st.data_bytes) refl

  visit_plugin-none :
      (i : ℕ) (st : Plugins) → files i ≡ none → visit_plugin fresh i st (files i) ≡ (i, st)
  unfolding visit_plugin
  visit_plugin-none i st e = ap (visit_plugin fresh i st) e

  -- A pass of the loop, by where it leaves the number
  plugin_loop-next :
      (k i next : ℕ) (st after : Plugins)
      → i < 3
      → visit_plugin fresh i st (files i) ≡ (next, after)
      → plugin_loop fresh files (suc k) i st ≡ plugin_loop fresh files k (add32 next 1) after
  unfolding plugin_loop
  plugin_loop-next k i next st after h e =
      rw (below_three i h) (ap (λ x. plugin_loop fresh files k (add32 x.0 1) x.1) e)

  plugin_loop-again :
      (file : List ℕ)
      → files 1 ≡ some file
      → IsPlugin file 0
      → (k : ℕ) (st : Plugins) → plugin_loop fresh files k 1 st ≡ none
  unfolding plugin_loop
  plugin_loop-again file e h zero st = refl
  plugin_loop-again file e h (suc k) st =
      plugin_loop-next k 1 0 st (load_plugin fresh st file) (omega arith)
        (visit_plugin-IsPlugin 1 0 file st e h)
      ∙ plugin_loop-again file e h k (load_plugin fresh st file)

-- Without extension0.plg, and with an extension1.plg that is a plugin without modules, LoadPlugins reads
-- that one again and again, and does not end.
pub load_plugins_hangs :
    (fresh : ℕ → List ℕ) (files : ℕ → Option (List ℕ)) (file : List ℕ) (data_bytes : List ℕ)
    (built_in : DeviceDriver)
    → files 0 ≡ none
    → files 1 ≡ some file
    → IsPlugin file 0
    → (fuel : ℕ) → load_plugins fresh files fuel data_bytes built_in ≡ none
unfolding load_plugins plugin_loop
load_plugins_hangs fresh files file data_bytes built_in missing e h zero = refl
load_plugins_hangs fresh files file data_bytes built_in missing e h (suc k) =
    let st : Plugins = record {
      data_bytes = data_bytes;
      devices = built_in ∷ [];
      n_device_drivers = 1;
      n_plugins_loaded = 0;
    } in
    plugin_loop-next fresh files k 0 0 st st (omega arith)
      (visit_plugin-none fresh files 0 st missing)
    ∙ plugin_loop-again fresh files file e h k st

-- Each plugin has at least as many modules as its file's number.
abbrev pub AreOrdered : (ℕ → Option (List ℕ)) → Type 0
AreOrdered files =
    (i : ℕ) (file : List ℕ) (data_bytes : List ℕ)
    → i < 3
    → files i ≡ some file
    → is_plugin file ≡ true
    → (i ≤ n_modules data_bytes file) × (n_modules data_bytes file < 0xffff_ffff)

-- One driver is counted for each plugin, besides the one that is built in, and at most one plugin for
-- each pass; `Devices` holds as many of the drivers as it has room for.
abbrev pub Counts : ℕ → Plugins → Type 0
Counts passes st =
    (st.n_device_drivers ≡ suc st.n_plugins_loaded)
    × (st.n_plugins_loaded ≤ passes)
    × (length st.devices ≡ min st.n_device_drivers max_devices)

module _ (fresh : ℕ → List ℕ) (files : ℕ → Option (List ℕ)) (ordered : AreOrdered files) where
  load_plugin-Counts :
      (passes : ℕ) (st : Plugins) (file : List ℕ)
      → Counts passes st
      → Counts (suc passes) (load_plugin fresh st file)
  unfolding load_plugin
  load_plugin-Counts passes st file (same, few, kept) =
      let driver : DeviceDriver = driver_of fresh (read_data st.data_bytes file) (drop 54 file) in
      elim (Bool-cases (ltb st.n_device_drivers max_devices)) [
        | inl room ↦ rw room (
          omega (arith, same),
          omega arith,
          omega (
            arith,
            kept,
            ltb→lt st.n_device_drivers max_devices room,
            length-append st.devices (driver ∷ []),
          ),
        )
        | inr full ↦ rw full (omega (arith, same), omega arith, ground (arith, kept))
      ]

  -- A pass goes on behind the number, and counts.
  visit_plugin-forward :
      (p i : ℕ) (st : Plugins) (o : Option (List ℕ))
      → files i ≡ o
      → i < 3
      → Counts p st
      → (i ≤ (visit_plugin fresh i st o).0)
        × ((visit_plugin fresh i st o).0 < 0xffff_ffff)
        × Counts (suc p) (visit_plugin fresh i st o).1
  unfolding visit_plugin
  visit_plugin-forward p i st none e h (same, few, kept) =
      (omega arith, omega arith, (same, omega arith, kept))
  visit_plugin-forward p i st (some file) e h (same, few, kept) =
      elim (Bool-cases (is_plugin file)) [
        | inl is ↦
            let (forward, below) = ordered i file st.data_bytes h e is in
            rw is (forward, below, load_plugin-Counts p st file (same, few, kept))
        | inr is_none ↦ rw is_none (omega arith, omega arith, (same, omega arith, kept))
      ]

  plugin_loop_stops : (k i : ℕ) (st : Plugins) → 3 ≤ i → plugin_loop fresh files k i st ≡ some st
  unfolding plugin_loop
  plugin_loop_stops zero i st h = ground arith
  plugin_loop_stops (suc k) i st h = ground arith

  plugin_loop_ends :
      (k p i : ℕ) (st : Plugins)
      → p + k ≡ 3
      → p ≤ i
      → Counts p st
      → (after : Plugins) × (plugin_loop fresh files k i st ≡ some after) × Counts 3 after
  plugin_loop_ends zero p i st total behind (same, few, kept) =
      (st, plugin_loop_stops zero i st (omega arith), (same, omega arith, kept))
  plugin_loop_ends (suc k) p i st total behind (same, few, kept) = elim (dec_lt i 3) [
    | yes h ↦
        let (forward, below, counts) =
          visit_plugin-forward p i st (files i) refl h (same, few, kept) in
        let (last, e, counted) =
          plugin_loop_ends k (suc p) (add32 (visit_plugin fresh i st (files i)).0 1)
            (visit_plugin fresh i st (files i)).1 (omega arith) (omega arith) counts in
        (last, plugin_loop-next fresh files k i _ st _ h refl ∙ e, counted)
    | no h ↦ (st, plugin_loop_stops (suc k) i st (omega arith), (same, omega arith, kept))
  ]

-- LoadPlugins ends in three passes when each plugin has at least as many modules as the number of its
-- file. It counts the plugins that it has loaded, up to three, and one driver more; Devices holds
-- three drivers at most, so that the one of a third plugin is not in it.
pub load_plugins_end :
    (fresh : ℕ → List ℕ) (files : ℕ → Option (List ℕ)) (data_bytes : List ℕ)
    (built_in : DeviceDriver)
    → AreOrdered files
    → (st : Plugins) × (load_plugins fresh files 3 data_bytes built_in ≡ some st) × Counts 3 st
unfolding load_plugins
load_plugins_end fresh files data_bytes built_in ordered =
    plugin_loop_ends fresh files ordered 3 0 0 _ refl (omega arith) (refl, omega arith, refl)
