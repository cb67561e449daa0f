-- ===== src/Reconcile/Plugins.antt =====
-- The plugins of a route as the reconcilers read them. A plugin whose name is no text raises here.
use kong.Base.{String, List, [], ◌∷◌, ◌++◌, Result, ok, err, ◌>>=◌, ◌==◌, string_eq, if◌then◌else◌}
use kong.Base.Json.{Json, Fields, end, field}
use kong.Base.Values.{is_true, get_key, item, as_text}

-- `grouped.setdefault(name, []).append(plugin)`
abbrev append_plugin : String → Json → List (String × List Json) → List (String × List Json)
append_plugin name plugin [] = (name, plugin ∷ []) ∷ []
append_plugin name plugin ((n, plugins) ∷ rest) =
    let more = append_plugin name plugin rest in
    if n == name then (n, plugins ++ plugin ∷ []) ∷ rest else (n, plugins) ∷ more

-- the loop over the rows
unfoldable pub group_enabled :
    List Json → List (String × List Json) → Result String (List (String × List Json))
group_enabled [] grouped = ok grouped
group_enabled (plugin ∷ rows) grouped = do
  enabled ← get_key "enabled" plugin
  grown ←
      if is_true enabled
      then (do
        name ← item "name" plugin
        text ← as_text name
        ok (append_plugin text plugin grouped))
      else ok grouped
  group_enabled rows grown

-- every group has one plugin
unfoldable pub only_plugins : String → List (String × List Json) → Result String Fields
only_plugins message [] = ok end
only_plugins message ((name, plugin ∷ []) ∷ groups) = do
  rest ← only_plugins message groups
  ok (field name plugin rest)
only_plugins message ((name, plugins) ∷ groups) = err message

unfoldable pub enabled_rows : String → List Json → Result String Fields
enabled_rows message rows = do groups ← group_enabled rows []; only_plugins message groups
