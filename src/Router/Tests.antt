-- ===== src/Router/Tests.antt =====
-- The gate at concrete level names.
use congraph_log_watcher.Common.{
  ◌≡◌, ◌⊎◌, true, false, ◌||◌, List, [], ◌∷◌, any, Text, text, ok, err, ascii_strings,
  if◌then◌else◌,
}
use congraph_log_watcher.Entry.{LogEntry}
use congraph_log_watcher.Router.{
  Router, RouterError, new_from_names, route, alert_candidate, context_only, discard,
}
use congraph_log_watcher.Router.Gate.{route-new_from_names, names, is_unknown}

abbrev info_names : List Text
info_names = text "info" ∷ text "warn" ∷ []

abbrev error_names : List Text
error_names = text "ERROR" ∷ []

route_example :
    ((any (is_unknown ascii_strings) info_names || any (is_unknown ascii_strings) error_names
        ≡ true)
      × (e : RouterError) × (new_from_names ascii_strings info_names error_names ≡ err e))
    ⊎ ((any (is_unknown ascii_strings) info_names || any (is_unknown ascii_strings) error_names
          ≡ false)
        × (gate : Router) × (new_from_names ascii_strings info_names error_names ≡ ok gate)
        × ((e : LogEntry)
            → route gate e ≡ (
                if any (names ascii_strings e.level) error_names
                then alert_candidate
                else if any (names ascii_strings e.level) info_names
                then context_only
                else discard)))
route_example = route-new_from_names ascii_strings info_names error_names
