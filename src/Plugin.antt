-- ===== src/Plugin.antt =====
-- plugin.c: the plugins loaded, by name. The two arrays are the lists of what their pointers point to;
-- dlopen, dlsym and the compiler are parameters, and a handle is a number.
pub mod Name
pub mod Loaded
use hierarchical_monitors.Prelude.{
  ℕ, zero, suc, ◌-◌, Bool, true, false, Option, none, some, List, [], ◌∷◌, ◌++◌, ltb, ◌==◌,
  if◌then◌else◌, length, take, drop, codes, same_string, words,
}
use hierarchical_monitors.Prelude.Int.{ℤ, pos, negsuc}

abbrev pub plugin_suffix : List ℕ
plugin_suffix = codes "_hmon_plugin.so"

unfoldable pub unsuffix_plugin_name : List ℕ → List ℕ
unsuffix_plugin_name name =
    if ltb (length name) (length plugin_suffix)
    then name
    else if same_string plugin_suffix (drop (length name - length plugin_suffix) name)
    then take (length name - length plugin_suffix) name
    else name

-- `struct hmon_plugin`
pub record Plugin : Type 0 where
  pub dlhandle : ℕ
  pub id : List ℕ

-- `plugin_type`, which is an `int`.
pub data PluginType : Type 0 where
  stat_type perf_type other_type : PluginType

pub record Plugins : Type 0 where
  pub perf_plugins : List Plugin
  pub stat_plugins : List Plugin

-- The loop of `hmon_plugin_lookup` over one of the arrays.
unfoldable pub find_plugin : List ℕ → List Plugin → Option Plugin
find_plugin name [] = none
find_plugin name (p ∷ ps) =
    let rest = find_plugin name ps in if same_string p.id name then some p else rest

unfoldable pub hmon_plugin_lookup : List ℕ → PluginType → Plugins → Option Plugin
hmon_plugin_lookup name stat_type plugins = find_plugin name plugins.stat_plugins
hmon_plugin_lookup name perf_type plugins = find_plugin name plugins.perf_plugins
hmon_plugin_lookup name other_type plugins = none

-- The file name, cut to the 255 characters that `path` has room for.
unfoldable pub plugin_path : List ℕ → List ℕ
plugin_path name = take 255 (unsuffix_plugin_name name ++ plugin_suffix)

-- A plugin put at the end of its array; one of another type is deleted.
unfoldable pub push_plugin : Plugin → PluginType → Plugins → Option Plugin × Plugins
push_plugin p stat_type plugins =
    (some p, record plugins { stat_plugins = plugins.stat_plugins ++ p ∷ [] })
push_plugin p perf_type plugins =
    (some p, record plugins { perf_plugins = plugins.perf_plugins ++ p ∷ [] })
push_plugin p other_type plugins = (none, plugins)

module _ (dlopen : List ℕ → Option ℕ) where
  unfoldable pub hmon_plugin_load : List ℕ → PluginType → Plugins → Option Plugin × Plugins
  hmon_plugin_load name type plugins = elim (hmon_plugin_lookup name type plugins) [
    | some p ↦ (some p, plugins)
    | none ↦ elim (dlopen (plugin_path name)) [
      | none ↦ (none, plugins)
      | some handle ↦ push_plugin (record { dlhandle = handle; id = name }) type plugins
    ]
  ]

  -- The loop over the names of a list.
  unfoldable pub load_all : List (List ℕ) → PluginType → Plugins → Plugins
  load_all [] type plugins = plugins
  load_all (name ∷ names) type plugins = load_all names type (hmon_plugin_load name type plugins).1

  unfoldable pub load_env : Option (List ℕ) → PluginType → Plugins → Plugins
  load_env none type plugins = plugins
  load_env (some text) type plugins = load_all (words text) type plugins

  -- The names that the build gives: the first token is loaded before it is tested, so where there is
  -- none NULL is loaded, which is a fault, `none`.
  unfoldable pub load_tokens : List (List ℕ) → PluginType → Plugins → Option Plugins
  load_tokens [] type plugins = none
  load_tokens (name ∷ names) type plugins = some (load_all (name ∷ names) type plugins)

  abbrev pub load_names : List ℕ → PluginType → Plugins → Option Plugins
  load_names text type plugins = load_tokens (words text) type plugins

  -- `stat_env` and `perf_env` are the environment variables, `stat_names` and `perf_names` the macros
  -- STAT_PLUGINS and PERF_PLUGINS.
  unfoldable pub plugins_init : Option (List ℕ) → Option (List ℕ) → List ℕ → List ℕ → Option Plugins
  plugins_init stat_env perf_env stat_names perf_names =
      elim (load_names stat_names stat_type
        (load_env stat_env stat_type (record { perf_plugins = []; stat_plugins = [] }))) [
          | none ↦ none
          | some stats ↦ load_names perf_names perf_type (load_env perf_env perf_type stats)
        ]

  -- `compile` runs the compiler on the code written to a file, and returns what `system` does.
  unfoldable pub hmon_stat_plugin_build :
      (List ℕ → List ℕ → ℤ) → List ℕ → List ℕ → Plugins → Plugins
  hmon_stat_plugin_build compile name code plugins =
      elim (hmon_plugin_lookup name stat_type plugins) [
        | some p ↦ plugins
        | none ↦ elim (compile (unsuffix_plugin_name name) code) [
          | negsuc n ↦ if n == 0 then plugins else (hmon_plugin_load name stat_type plugins).1
          | pos n ↦ if n == 1 then plugins else (hmon_plugin_load name stat_type plugins).1
        ]
      ]

-- The values of the macros where the build sets none.
abbrev pub default_stat_plugins : List ℕ
default_stat_plugins = codes "defstats"

abbrev pub default_perf_plugins : List ℕ
default_perf_plugins = codes "proc accumulate hierarchical"

module _ (dlsym : ℕ → List ℕ → Option ℕ) where
  unfoldable pub hmon_plugin_load_fun : Plugin → List ℕ → Option ℕ
  hmon_plugin_load_fun plugin name = dlsym plugin.dlhandle name

  unfoldable pub lookup_function_in : List ℕ → List Plugin → Option ℕ
  lookup_function_in name [] = none
  lookup_function_in name (p ∷ ps) = elim (hmon_plugin_load_fun p name) [
    | some function ↦ some function
    | none ↦ lookup_function_in name ps
  ]

  unfoldable pub hmon_stat_plugins_lookup_function : List ℕ → Plugins → Option ℕ
  hmon_stat_plugins_lookup_function name plugins = lookup_function_in name plugins.stat_plugins

-- What is printed after the first plugin of a list.
unfoldable pub printed_rest : List Plugin → List ℕ
printed_rest [] = codes "\n"
printed_rest (p ∷ ps) = codes ", " ++ (p.id ++ printed_rest ps)

unfoldable pub plugins_list : List Plugin → List ℕ
plugins_list [] = []
plugins_list (p ∷ ps) = p.id ++ printed_rest ps

unfoldable pub hmon_perf_plugins_list : Plugins → List ℕ
hmon_perf_plugins_list plugins = plugins_list plugins.perf_plugins

unfoldable pub hmon_stat_plugins_list : Plugins → List ℕ
hmon_stat_plugins_list plugins = plugins_list plugins.stat_plugins

-- The handles that are closed at exit, in order.
unfoldable pub closed_handles : List Plugin → List ℕ
closed_handles [] = []
closed_handles (p ∷ ps) = p.dlhandle ∷ closed_handles ps

unfoldable pub plugins_at_exit : Plugins → List ℕ
plugins_at_exit plugins = closed_handles plugins.perf_plugins ++ closed_handles plugins.stat_plugins
