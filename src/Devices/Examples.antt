-- ===== src/Devices/Examples.antt =====
-- The theorems on devices at concrete inputs.
use smart_parking_platform.Prelude.{ℕ, List, [], ◌∷◌, some, ◌≡◌, refl, first}
use smart_parking_platform.Hex.{codes}
use smart_parking_platform.Devices.Eui.{matches, upper_text, normalize_deveui}
use smart_parking_platform.Devices.Handlers.{
  browan, kuando, Handler, empty_registry, can_handle, get_handler,
}
use smart_parking_platform.Devices.Registry.{
  Use, add, ask, use_registry, cached_handler_is_first_match,
}

abbrev written : List ℕ
written = codes "8:e1:e1-00 010-3c3f8"

abbrev stored : List ℕ
stored = codes "E8E1E1000103C3F8"

-- The pattern lets a newline at the end through.
newline_passes : normalize_deveui (codes "E8E1E1000103C3F8\n") ≡ some (codes "E8E1E1000103C3F8\n")
unfolding normalize_deveui matches upper_text
newline_passes = refl

abbrev sensor : Handler
sensor = record { handler_class = browan; device_profiles = "p" ∷ [] }

-- The first question comes too early, the second handler too late.
abbrev uses : List Use
uses =
    ask "p"
    ∷ add sensor
    ∷ ask "p"
    ∷ add (record { handler_class = kuando; device_profiles = "p" ∷ [] })
    ∷ []

cached_handler_is_first_match_example :
    (get_handler "p" (use_registry uses empty_registry)).0
    ≡ first (can_handle "p") (use_registry uses empty_registry).handlers
cached_handler_is_first_match_example = cached_handler_is_first_match uses "p"
