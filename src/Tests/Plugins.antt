-- ===== src/Tests/Plugins.antt =====
-- plugin.c with a loader that finds every library.
use hierarchical_monitors.Prelude.{
  ◌∷◌, tokens_from, ℕ, ◌≡◌, refl, Option, none, some, List, [], codes,
}
use hierarchical_monitors.Plugin.{
  PluginType, perf_type, Plugin, stat_type, Plugins, find_plugin, push_plugin, hmon_plugin_load,
  hmon_plugin_lookup, plugins_init, default_stat_plugins, default_perf_plugins,
}
use hierarchical_monitors.Plugin.Loaded.{
  load_each, load_twice, AllDistinct, plugins_init-AllDistinct,
}

abbrev dlopen : List ℕ → Option ℕ
dlopen path = some 9

abbrev closed : List ℕ → Option ℕ
closed path = none

abbrev empty : Plugins
empty = record { perf_plugins = []; stat_plugins = [] }

abbrev fake : Plugin
fake = record { dlhandle = 9; id = codes "fake" }

loads : (hmon_plugin_load dlopen (codes "fake") stat_type empty).0 ≡ some fake
unfolding hmon_plugin_load hmon_plugin_lookup find_plugin push_plugin
loads = refl

-- A plugin of the same name and another type, and one more of the same type.
abbrev more : List ((List ℕ → Option ℕ) × (List ℕ × PluginType))
more = (dlopen, (codes "fake", perf_type)) ∷ (dlopen, (codes "mine", stat_type)) ∷ []

load_twice_example :
    let after = load_each more (hmon_plugin_load dlopen (codes "fake") stat_type empty).1 in
    (hmon_plugin_lookup (codes "fake") stat_type after ≡ some fake)
    × (hmon_plugin_load closed (codes "fake") stat_type after ≡ (some fake, after))
load_twice_example = load_twice dlopen closed more (codes "fake") stat_type empty fake loads

plugins_init-AllDistinct_example :
    (plugins : Plugins) × (plugins_init dlopen
        (some (codes "defstats mine"))
        none
        default_stat_plugins
        default_perf_plugins
      ≡ some plugins)
    × AllDistinct plugins
unfolding tokens_from
plugins_init-AllDistinct_example =
    plugins_init-AllDistinct dlopen (some (codes "defstats mine")) none default_stat_plugins
      default_perf_plugins (λ e. cc e) (λ e. cc e)
