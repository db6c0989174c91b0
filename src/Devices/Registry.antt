-- ===== src/Devices/Registry.antt =====
-- The cache of the registry.
use smart_parking_platform.Prelude.{
  String, List, [], ◌∷◌, none, some, ◌≡◌, refl, ◌∙◌, arith, text_eq, eq_iff, truthy, first,
  first-append, lookup, lookup-insert, Bool-cases, Option-cases, inl, inr, if◌then◌else◌,
}
use smart_parking_platform.Devices.Handlers.{
  Handler, DeviceHandlerRegistry, empty_registry, can_handle, register, find_handler, get_handler,
}

-- What the cache has is what a search finds.
abbrev IsCoherent : DeviceHandlerRegistry → Type 0
IsCoherent reg =
    (profile : String) (h : Handler)
    → lookup profile reg.profile_cache ≡ some h
    → first (can_handle profile) reg.handlers ≡ some h

-- A use of the registry.
pub data Use : Type 0 where
  add : Handler → Use
  ask : String → Use

unfoldable pub use_registry : List Use → DeviceHandlerRegistry → DeviceHandlerRegistry
use_registry [] reg = reg
use_registry (add h ∷ us) reg = use_registry us (register h reg)
use_registry (ask profile ∷ us) reg = use_registry us (get_handler profile reg).1

register-IsCoherent :
    (h : Handler) (reg : DeviceHandlerRegistry) → IsCoherent reg → IsCoherent (register h reg)
unfolding register
register-IsCoherent h reg good profile k seen =
    let found = good profile k seen in
    let longer = first-append (can_handle profile) reg.handlers (h ∷ []) in rw (longer, found) refl

find_handler-IsCoherent :
    (profile : String) (reg : DeviceHandlerRegistry)
    → IsCoherent reg
    → IsCoherent (find_handler profile reg).1
unfolding find_handler
find_handler-IsCoherent profile reg good =
    elim (Option-cases (first (can_handle profile) reg.handlers)) [
      | inl gone ↦ rw (gone, find_handler) good
      | inr (h, found) ↦
          rw (found, find_handler)
            (λ p k seen.
              let read = lookup-insert profile p h reg.profile_cache in
              elim (Bool-cases (text_eq profile p)) [
                | inl same ↦
                    let one : some h ≡ some k = ground (arith, read, seen, same) in
                    let own : profile ≡ p = (eq_iff profile p).0 same in rw (← own) (found ∙ one)
                | inr apart ↦ good p k (ground (arith, read, seen, apart))
              ])
    ]

get_handler-IsCoherent :
    (profile : String) (reg : DeviceHandlerRegistry)
    → IsCoherent reg
    → IsCoherent (get_handler profile reg).1
unfolding get_handler
get_handler-IsCoherent profile reg good = elim (Bool-cases (truthy profile)) [
  | inr empty ↦ rw (empty, get_handler) good
  | inl given ↦ elim (Option-cases (lookup profile reg.profile_cache)) [
    | inl miss ↦ rw (given, miss, get_handler) (find_handler-IsCoherent profile reg good)
    | inr (h, hit) ↦ rw (given, hit, get_handler) good
  ]
]

use_registry-IsCoherent :
    (us : List Use) (reg : DeviceHandlerRegistry)
    → IsCoherent reg
    → IsCoherent (use_registry us reg)
unfolding use_registry
use_registry-IsCoherent [] reg good = good
use_registry-IsCoherent (add h ∷ us) reg good =
    use_registry-IsCoherent us (register h reg) (register-IsCoherent h reg good)
use_registry-IsCoherent (ask profile ∷ us) reg good =
    use_registry-IsCoherent us (get_handler profile reg).1 (get_handler-IsCoherent profile reg good)

get_handler-first :
    (profile : String) (reg : DeviceHandlerRegistry)
    → IsCoherent reg
    → (get_handler profile reg).0
      ≡ (if truthy profile then first (can_handle profile) reg.handlers else none)
unfolding get_handler find_handler
get_handler-first profile reg good = elim (Option-cases (lookup profile reg.profile_cache)) [
  | inl miss ↦ elim (Option-cases (first (can_handle profile) reg.handlers)) [
    | inl gone ↦ ground (arith, miss, gone)
    | inr (h, found) ↦ ground (arith, miss, found)
  ]
  | inr (h, hit) ↦ let found = good profile h hit in ground (arith, hit, found)
]

none_cached : IsCoherent empty_registry
unfolding lookup
none_cached p k seen = ground (arith, seen)

-- After any registrations and questions, the registry answers a profile with the first handler that
-- was registered for it, as a search without the cache would.
pub cached_handler_is_first_match :
    (us : List Use) (profile : String)
    → (get_handler profile (use_registry us empty_registry)).0 ≡ (
        if truthy profile
        then first (can_handle profile) (use_registry us empty_registry).handlers
        else none)
cached_handler_is_first_match us profile =
    get_handler-first profile (use_registry us empty_registry)
      (use_registry-IsCoherent us empty_registry none_cached)
