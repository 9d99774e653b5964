-- ===== src/Gui/Plugins.antt =====
-- gui/plugin.c: the plugins, whose drivers are read from the files extension0.plg to extension2.plg.
pub mod Rounds
mod Tests
use ps2esdl.Prelude.{
  ℕ, zero, suc, ◌+◌, ◌*◌, ◌-◌, ◌%◌, ◌&&◌, Bool, true, false, Option, none, some, List, [], ◌∷◌,
  ◌++◌, ltb, ◌==◌, if◌then◌else◌, take, drop, length, get_or, add32,
}

-- `struct ModListEntry`, with the bytes that its buffer was filled with
pub record ModListEntry : Type 0 where
  pub size : ℕ
  pub module_bytes : List ℕ

-- `struct DeviceDriver`
pub record DeviceDriver : Type 0 where
  pub dev_name : List ℕ
  pub dev_disp_name : List ℕ
  pub driver_type : ℕ
  pub udnl_module : ModListEntry
  pub modules : List ModListEntry

abbrev pub driver_type_plugin : ℕ
driver_type_plugin = 1

-- `fioRead` of `n` bytes into memory; what the file does not have stays as it was.
unfoldable pub read_into : List ℕ → ℕ → List ℕ → List ℕ
read_into old n file = take n file ++ drop (length (take n file)) old

-- A word in memory, of four bytes
unfoldable pub word_of : List ℕ → ℕ
word_of bytes =
    get_or bytes 0 0
    + 0x100 * get_or bytes 1 0
    + 0x1_0000 * get_or bytes 2 0
    + 0x100_0000 * get_or bytes 3 0

-- `SamplePluginHeader`: "PPLG" and the version 0x110
abbrev pub sample_plugin_header : List ℕ
sample_plugin_header = 0x50 ∷ 0x50 ∷ 0x4c ∷ 0x47 ∷ 0x10 ∷ 0x01 ∷ []

-- `memcmp` of as many bytes as the first has
unfoldable pub same_bytes : List ℕ → List ℕ → Bool
same_bytes [] ys = true
same_bytes (x ∷ xs) [] = false
same_bytes (x ∷ xs) (y ∷ ys) = x == y && same_bytes xs ys

-- The header, read into zeros
unfoldable pub is_plugin : List ℕ → Bool
is_plugin file = same_bytes sample_plugin_header (read_into (0 ∷ 0 ∷ 0 ∷ 0 ∷ 0 ∷ 0 ∷ []) 6 file)

-- `PluginData` of the file
unfoldable pub read_data : List ℕ → List ℕ → List ℕ
read_data data_bytes file = read_into data_bytes 48 (drop 6 file)

unfoldable pub n_modules : List ℕ → List ℕ → ℕ
n_modules data_bytes file = word_of (drop 40 (read_data data_bytes file))

-- MAX_DEVICES, the length of `Devices`
abbrev pub max_devices : ℕ
max_devices = 3

-- `PluginData`, which keeps its bytes from one file to the next, the elements of `Devices` that are
-- filled, `nDeviceDrivers` and `nPluginsLoaded`
pub record Plugins : Type 0 where
  pub data_bytes : List ℕ
  pub devices : List DeviceDriver
  pub n_device_drivers : ℕ
  pub n_plugins_loaded : ℕ

-- What `malloc` gives the sizes of a list of modules to begin with, four bytes for each
module _ (fresh : ℕ → List ℕ) where
  -- The sizes of the modules from number `i` on, `n` of them, and the file behind them
  unfoldable pub read_sizes : ℕ → ℕ → List ℕ → List ℕ × List ℕ
  read_sizes zero i file = ([], file)
  read_sizes (suc n) i file =
      let (sizes, rest) = read_sizes n (suc i) (drop 4 file) in
      (word_of (read_into (fresh i) 4 file) ∷ sizes, rest)

  unfoldable pub read_modules : List ℕ → List ℕ → List ModListEntry
  read_modules [] file = []
  read_modules (size ∷ sizes) file =
      record { size = size; module_bytes = take size file } ∷ read_modules sizes (drop size file)

  -- The driver of a plugin, by its `struct PluginData` and the file behind that
  unfoldable pub driver_of : List ℕ → List ℕ → DeviceDriver
  driver_of data_bytes file =
      let size_of_udnl = word_of (drop 44 data_bytes) in
      let (sizes, rest) = read_sizes (word_of (drop 40 data_bytes)) 0 file in
      record {
        dev_name = take 8 data_bytes;
        dev_disp_name = take 32 (drop 8 data_bytes);
        driver_type = driver_type_plugin;
        udnl_module = record { size = size_of_udnl; module_bytes = take size_of_udnl rest };
        modules = read_modules sizes (drop size_of_udnl rest);
      }

  -- The driver is put into `Devices`. Past the end of the array it is written to the memory behind,
  -- which is not modelled.
  unfoldable pub load_plugin : Plugins → List ℕ → Plugins
  load_plugin st file =
      let data_bytes = read_data st.data_bytes file in
      record {
        data_bytes = data_bytes;
        devices =
            if ltb st.n_device_drivers max_devices
            then st.devices ++ (driver_of data_bytes (drop 54 file) ∷ [])
            else st.devices;
        n_device_drivers = st.n_device_drivers + 1;
        n_plugins_loaded = st.n_plugins_loaded + 1;
      }

  -- One pass of the loop: `i` after it and the state. The loops over the modules use the same `i`, which
  -- they leave at the number of the modules.
  unfoldable pub visit_plugin : ℕ → Plugins → Option (List ℕ) → ℕ × Plugins
  visit_plugin i st none = (i, st)
  visit_plugin i st (some file) =
      if is_plugin file then (n_modules st.data_bytes file, load_plugin st file) else (i, st)

  -- The loop of `LoadPlugins`; `none` when the fuel runs out.
  unfoldable pub plugin_loop : (ℕ → Option (List ℕ)) → ℕ → ℕ → Plugins → Option Plugins
  plugin_loop files zero i st = if ltb i 3 then none else some st
  plugin_loop files (suc k) i st =
      let (next, after) = visit_plugin i st (files i) in
      let rest = plugin_loop files k (add32 next 1) after in if ltb i 3 then rest else some st

  -- `LoadPlugins`, with the device of `InitBuiltInDrivers`, by what `PluginData` holds before
  unfoldable pub load_plugins : (ℕ → Option (List ℕ)) → ℕ → List ℕ → DeviceDriver → Option Plugins
  load_plugins files fuel data_bytes built_in = plugin_loop files fuel 0 (record {
    data_bytes = data_bytes;
    devices = built_in ∷ [];
    n_device_drivers = 1;
    n_plugins_loaded = 0;
  })
