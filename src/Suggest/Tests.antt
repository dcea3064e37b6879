-- ===== src/Suggest/Tests.antt =====
-- src/suggest.rs on concrete words.
use mockinx.Common.{none, ◌≡◌, ◌≤◌, refl, List}
use mockinx.Text.{str}
use mockinx.Suggest.{edit_distance, first_row, fill_table, fill_row}
use mockinx.Suggest.{nearest_key, serve_keys}
use mockinx.Suggest.Nearest.{IsNearest, nearest_key-IsNearest}
use mockinx.Suggest.Alignment.{Column, source, target, cost, edit_distance-least}

distance_pace : edit_distance (str "pcae") (str "pace") ≡ 2
unfolding edit_distance first_row fill_table fill_row str
distance_pace = refl

edit_distance-least_example :
    ((cols : List Column) × (source cols ≡ str "pcae")
      × (target cols ≡ str "pace")
      × (cost cols ≡ edit_distance (str "pcae") (str "pace")))
    × ((cols : List Column)
        → source cols ≡ str "pcae"
        → target cols ≡ str "pace"
        → edit_distance (str "pcae") (str "pace") ≤ cost cols)
edit_distance-least_example = edit_distance-least (str "pcae") (str "pace")

nearest_key-IsNearest_example :
    IsNearest (str "rsp") serve_keys (nearest_key (str "rsp") none serve_keys)
nearest_key-IsNearest_example = nearest_key-IsNearest (str "rsp") serve_keys
