-- ===== src/Plugin/Loaded.antt =====
-- plugin.c: what is loaded is found, and is loaded once.
use hierarchical_monitors.Prelude.{
  ℕ, ◌≡◌, ◌≢◌, refl, ap, sym, ◌∙◌, false, Option, none, some, List, [], ◌∷◌, ◌++◌, same_string,
  same_string_self, same_string_eq, words, arith, Bool-cases, Option-cases, inl, inr,
}
use hierarchical_monitors.Plugin.{
  Plugin, PluginType, stat_type, perf_type, other_type, Plugins, find_plugin, hmon_plugin_lookup,
  plugin_path, push_plugin, hmon_plugin_load, load_all, load_env, load_tokens, load_names,
  plugins_init,
}

find_plugin-push :
    (name : List ℕ) (ps : List Plugin) (handle : ℕ)
    → find_plugin name ps ≡ none
    → find_plugin name (ps ++ record { dlhandle = handle; id = name } ∷ [])
      ≡ some (record { dlhandle = handle; id = name })
unfolding find_plugin
find_plugin-push name [] handle h = rw (same_string_self name)
find_plugin-push name (p ∷ ps) handle h = ground (arith, find_plugin-push name ps handle)

lookup-push :
    (name : List ℕ) (type : PluginType) (plugins : Plugins) (handle : ℕ) (p : Plugin)
    → hmon_plugin_lookup name type plugins ≡ none
    → (push_plugin (record { dlhandle = handle; id = name }) type plugins).0 ≡ some p
    → hmon_plugin_lookup name type
        (push_plugin (record { dlhandle = handle; id = name }) type plugins).1
      ≡ some p
unfolding hmon_plugin_lookup push_plugin
lookup-push name stat_type plugins handle p h k =
    find_plugin-push name plugins.stat_plugins handle h ∙ k
lookup-push name perf_type plugins handle p h k =
    find_plugin-push name plugins.perf_plugins handle h ∙ k
lookup-push name other_type plugins handle p h k = cc k

load_found :
    (dlopen : List ℕ → Option ℕ) (name : List ℕ) (type : PluginType) (plugins : Plugins)
    (p : Plugin)
    → hmon_plugin_lookup name type plugins ≡ some p
    → hmon_plugin_load dlopen name type plugins ≡ (some p, plugins)
unfolding hmon_plugin_load
load_found dlopen name type plugins p h = ground (arith, h)

load_failed :
    (dlopen : List ℕ → Option ℕ) (name : List ℕ) (type : PluginType) (plugins : Plugins)
    → hmon_plugin_lookup name type plugins ≡ none
    → dlopen (plugin_path name) ≡ none
    → hmon_plugin_load dlopen name type plugins ≡ (none, plugins)
unfolding hmon_plugin_load
load_failed dlopen name type plugins h k = ground (arith, h, k)

load_opened :
    (dlopen : List ℕ → Option ℕ) (name : List ℕ) (type : PluginType) (plugins : Plugins)
    (handle : ℕ)
    → hmon_plugin_lookup name type plugins ≡ none
    → dlopen (plugin_path name) ≡ some handle
    → hmon_plugin_load dlopen name type plugins
      ≡ push_plugin (record { dlhandle = handle; id = name }) type plugins
unfolding hmon_plugin_load
load_opened dlopen name type plugins handle h k = ground (arith, h, k)

find_plugin-append :
    (name : List ℕ) (ps qs : List Plugin) (p : Plugin)
    → find_plugin name ps ≡ some p
    → find_plugin name (ps ++ qs) ≡ some p
unfolding find_plugin
find_plugin-append name [] qs p h = cc h
find_plugin-append name (q ∷ ps) qs p h = ground (arith, h, find_plugin-append name ps qs p)

-- A plugin that is found is found after another is pushed.
lookup-push_other :
    (name : List ℕ) (type other : PluginType) (plugins : Plugins) (p q : Plugin)
    → hmon_plugin_lookup name type plugins ≡ some p
    → hmon_plugin_lookup name type (push_plugin q other plugins).1 ≡ some p
unfolding hmon_plugin_lookup push_plugin
lookup-push_other name stat_type stat_type plugins p q h =
    find_plugin-append name plugins.stat_plugins (q ∷ []) p h
lookup-push_other name perf_type perf_type plugins p q h =
    find_plugin-append name plugins.perf_plugins (q ∷ []) p h
lookup-push_other name stat_type perf_type plugins p q h = h
lookup-push_other name perf_type stat_type plugins p q h = h
lookup-push_other name stat_type other_type plugins p q h = h
lookup-push_other name perf_type other_type plugins p q h = h
lookup-push_other name other_type other plugins p q h = cc h

-- Further loads, each with the files that can be opened then, its name and its type.
abbrev pub load_each : List ((List ℕ → Option ℕ) × (List ℕ × PluginType)) → Plugins → Plugins
load_each [] plugins = plugins
load_each ((opens, (name, type)) ∷ loads) plugins =
    load_each loads (hmon_plugin_load opens name type plugins).1

lookup-load :
    (dlopen : List ℕ → Option ℕ) (name second : List ℕ) (type other : PluginType)
    (plugins : Plugins) (p : Plugin)
    → hmon_plugin_lookup name type plugins ≡ some p
    → hmon_plugin_lookup name type (hmon_plugin_load dlopen second other plugins).1 ≡ some p
lookup-load dlopen name second type other plugins p h =
    elim (Option-cases (hmon_plugin_lookup second other plugins)) [
      | inl e ↦ elim (Option-cases (dlopen (plugin_path second))) [
        | inl f ↦ rw (load_failed dlopen second other plugins e f) h
        | inr (handle, f) ↦ rw (load_opened dlopen second other plugins handle e f) (
            lookup-push_other name type other plugins p (record { dlhandle = handle; id = second })
              h)
      ]
      | inr (q, e) ↦ rw (load_found dlopen second other plugins q e) h
    ]

lookup-load_each :
    (name : List ℕ) (type : PluginType) (loads : List ((List ℕ → Option ℕ) × (List ℕ × PluginType)))
    (plugins : Plugins) (p : Plugin)
    → hmon_plugin_lookup name type plugins ≡ some p
    → hmon_plugin_lookup name type (load_each loads plugins) ≡ some p
lookup-load_each name type [] plugins p h = h
lookup-load_each name type ((opens, (second, other)) ∷ loads) plugins p h =
    lookup-load_each name type loads (hmon_plugin_load opens second other plugins).1 p
      (lookup-load opens name second type other plugins p h)

module _ (dlopen : List ℕ → Option ℕ) where
  load-lookup :
      (name : List ℕ) (type : PluginType) (plugins : Plugins) (p : Plugin)
      → (hmon_plugin_load dlopen name type plugins).0 ≡ some p
      → hmon_plugin_lookup name type (hmon_plugin_load dlopen name type plugins).1 ≡ some p
  load-lookup name type plugins p h = elim (Option-cases (hmon_plugin_lookup name type plugins)) [
    | inl e ↦ elim (Option-cases (dlopen (plugin_path name))) [
      | inl f ↦ let whole = load_failed dlopen name type plugins e f in cc (rw whole at h)
      | inr (handle, f) ↦
          let whole = load_opened dlopen name type plugins handle e f in
          rw whole (lookup-push name type plugins handle p e (rw whole at h))
    ]
    | inr (q, e) ↦
        let whole = load_found dlopen name type plugins q e in
        rw whole (e ∙ ap (λ r. r.0) (sym whole) ∙ h)
  ]

  -- Where loading a plugin returns one: after any further loads, of whatever names, types and
  -- files, looking it up finds it, and loading it again returns the same one, opens no file and
  -- changes nothing.
  pub load_twice :
      (later : List ℕ → Option ℕ) (loads : List ((List ℕ → Option ℕ) × (List ℕ × PluginType)))
      (name : List ℕ) (type : PluginType) (plugins : Plugins) (p : Plugin)
      → (hmon_plugin_load dlopen name type plugins).0 ≡ some p
      → let after = load_each loads (hmon_plugin_load dlopen name type plugins).1 in
        (hmon_plugin_lookup name type after ≡ some p)
        × (hmon_plugin_load later name type after ≡ (some p, after))
  load_twice later loads name type plugins p h =
      let loaded = (hmon_plugin_load dlopen name type plugins).1 in
      let found = lookup-load_each name type loads loaded p (load-lookup name type plugins p h) in
      (found, load_found later name type (load_each loads loaded) p found)

-- No two plugins of a list have the same name.
abbrev pub IsDistinct : List Plugin → Type 0
IsDistinct [] = Unit
IsDistinct (p ∷ ps) = (find_plugin p.id ps ≡ none) × IsDistinct ps

same_string-false : (a b : List ℕ) → same_string a b ≡ false → same_string b a ≡ false
same_string-false a b h = elim (Bool-cases (same_string b a)) [
  | inl k ↦ cc (h, same_string_self a, same_string_eq b a k)
  | inr k ↦ k
]

find_plugin-push_other :
    (name : List ℕ) (ps : List Plugin) (p : Plugin)
    → find_plugin name ps ≡ none
    → same_string p.id name ≡ false
    → find_plugin name (ps ++ p ∷ []) ≡ none
unfolding find_plugin
find_plugin-push_other name [] p h k = rw k
find_plugin-push_other name (q ∷ ps) p h k = ground (arith, find_plugin-push_other name ps p)

push-IsDistinct :
    (ps : List Plugin) (p : Plugin)
    → find_plugin p.id ps ≡ none
    → IsDistinct ps
    → IsDistinct (ps ++ p ∷ [])
unfolding find_plugin
push-IsDistinct [] p h d = (refl, tt)
push-IsDistinct (q ∷ ps) p h d =
    let other : same_string q.id p.id ≡ false = ground arith in
    let rest : find_plugin p.id ps ≡ none = ground arith in
    (
      find_plugin-push_other q.id ps p d.0 (same_string-false q.id p.id other),
      push-IsDistinct ps p rest d.1,
    )

abbrev pub AllDistinct : Plugins → Type 0
AllDistinct plugins = IsDistinct plugins.perf_plugins × IsDistinct plugins.stat_plugins

push_plugin-AllDistinct :
    (name : List ℕ) (handle : ℕ) (type : PluginType) (plugins : Plugins)
    → hmon_plugin_lookup name type plugins ≡ none
    → AllDistinct plugins
    → AllDistinct (push_plugin (record { dlhandle = handle; id = name }) type plugins).1
unfolding hmon_plugin_lookup push_plugin
push_plugin-AllDistinct name handle stat_type plugins h d =
    (d.0, push-IsDistinct plugins.stat_plugins (record { dlhandle = handle; id = name }) h d.1)
push_plugin-AllDistinct name handle perf_type plugins h d =
    (push-IsDistinct plugins.perf_plugins (record { dlhandle = handle; id = name }) h d.0, d.1)
push_plugin-AllDistinct name handle other_type plugins h d = d

module _ (dlopen : List ℕ → Option ℕ) where
  load-AllDistinct :
      (name : List ℕ) (type : PluginType) (plugins : Plugins)
      → AllDistinct plugins
      → AllDistinct (hmon_plugin_load dlopen name type plugins).1
  load-AllDistinct name type plugins d =
      elim (Option-cases (hmon_plugin_lookup name type plugins)) [
        | inl e ↦ elim (Option-cases (dlopen (plugin_path name))) [
          | inl f ↦ rw (load_failed dlopen name type plugins e f) d
          | inr (handle, f) ↦
              rw (load_opened dlopen name type plugins handle e f)
                (push_plugin-AllDistinct name handle type plugins e d)
        ]
        | inr (q, e) ↦ rw (load_found dlopen name type plugins q e) d
      ]

  load_all-AllDistinct :
      (names : List (List ℕ)) (type : PluginType) (plugins : Plugins)
      → AllDistinct plugins
      → AllDistinct (load_all dlopen names type plugins)
  unfolding load_all
  load_all-AllDistinct [] type plugins d = d
  load_all-AllDistinct (name ∷ names) type plugins d =
      load_all-AllDistinct names type (hmon_plugin_load dlopen name type plugins).1
        (load-AllDistinct name type plugins d)

  load_env-AllDistinct :
      (text : Option (List ℕ)) (type : PluginType) (plugins : Plugins)
      → AllDistinct plugins
      → AllDistinct (load_env dlopen text type plugins)
  unfolding load_env
  load_env-AllDistinct none type plugins d = d
  load_env-AllDistinct (some text) type plugins d = load_all-AllDistinct (words text) type plugins d

  load_names_lem :
      (names : List (List ℕ)) (type : PluginType) (plugins : Plugins)
      → names ≢ []
      → load_tokens dlopen names type plugins ≡ some (load_all dlopen names type plugins)
  unfolding load_tokens
  load_names_lem [] type plugins h = absurd (h refl)
  load_names_lem (name ∷ names) type plugins h = refl

  load_names-AllDistinct :
      (text : List ℕ) (type : PluginType) (plugins : Plugins)
      → words text ≢ []
      → AllDistinct plugins
      → (after : Plugins) × (load_names dlopen text type plugins ≡ some after) × AllDistinct after
  load_names-AllDistinct text type plugins some_names d = (
    load_all dlopen (words text) type plugins,
    load_names_lem (words text) type plugins some_names,
    load_all-AllDistinct (words text) type plugins d,
  )

  plugins_init_lem :
      (stat_env perf_env : Option (List ℕ)) (stat_names perf_names : List ℕ) (stats all : Plugins)
      → load_names dlopen stat_names stat_type
          (load_env dlopen stat_env stat_type (record { perf_plugins = []; stat_plugins = [] }))
        ≡ some stats
      → load_names dlopen perf_names perf_type (load_env dlopen perf_env perf_type stats) ≡ some all
      → plugins_init dlopen stat_env perf_env stat_names perf_names ≡ some all
  unfolding plugins_init
  plugins_init_lem stat_env perf_env stat_names perf_names stats all e f = ground (arith, e, f)

  -- Start-up ends, where the build gives names of both types, and then no two statistics plugins
  -- and no two performance plugins have the same name, whatever names the environment and the build
  -- give and whichever of them load.
  pub plugins_init-AllDistinct :
      (stat_env perf_env : Option (List ℕ)) (stat_names perf_names : List ℕ)
      → words stat_names ≢ []
      → words perf_names ≢ []
      → (plugins : Plugins) × (plugins_init dlopen stat_env perf_env stat_names perf_names
          ≡ some plugins)
        × AllDistinct plugins
  plugins_init-AllDistinct stat_env perf_env stat_names perf_names some_stat some_perf =
      let none_yet : Plugins = record { perf_plugins = []; stat_plugins = [] } in
      let (stats, e, d) =
        load_names-AllDistinct stat_names stat_type (load_env dlopen stat_env stat_type none_yet)
          some_stat (load_env-AllDistinct stat_env stat_type none_yet (tt, tt)) in
      let (all, f, w) =
        load_names-AllDistinct perf_names perf_type (load_env dlopen perf_env perf_type stats)
          some_perf (load_env-AllDistinct perf_env perf_type stats d) in
      (all, plugins_init_lem stat_env perf_env stat_names perf_names stats all e f, w)
