-- ===== src/Devices/Handlers.antt =====
-- The handlers of src/device_handlers.py and their registry. What `base64.b64decode` and `lower` do
-- is a parameter. A signal strength is in dB, its ratio to the noise in hundredths of a dB, a battery
-- in hundredths of a volt.
use smart_parking_platform.Prelude.{
  ℕ, ◌+◌, ◌%◌, String, List, [], ◌∷◌, ◌++◌, Option, none, some, Bool, true, ◌&&◌, leb, ◌==◌,
  text_eq, truthy, any, first, lookup, insert, if◌then◌else◌,
}
use smart_parking_platform.Reservations.Types.{ℤ, pos, negsuc}
use smart_parking_platform.Spaces.Types.{SpaceState, free, occupied}

-- An entry of rxInfo.
pub record RxInfo : Type 0 where
  pub rssi : Option ℤ
  pub snr : Option ℤ
  pub gateway_id : Option String

-- The fields of a webhook that the service reads; a time that is no time is missing.
pub record Webhook : Type 0 where
  pub dev_eui : Option String
  pub device_name : Option String
  pub profile_name : Option String
  pub rx_info : Option (List RxInfo)
  pub payload : Option String
  pub time : Option ℕ
  pub fcnt : Option ℕ

pub record SensorUplink : Type 0 where
  pub device_eui : String
  pub timestamp : ℕ
  pub occupancy_state : Option SpaceState
  pub battery : Option ℕ
  pub rssi : Option ℤ
  pub snr : Option ℤ
  pub gateway_id : Option String
  pub raw_payload : Option String

abbrev pub or_text : Option String → String → String
or_text none default = default
or_text (some s) default = s

-- Field(None, ge=-200, le=0)
abbrev pub valid_rssi : Option ℤ → Bool
valid_rssi none = true
valid_rssi (some (pos n)) = n == 0
valid_rssi (some (negsuc n)) = leb (n + 1) 200

-- Field(None, ge=-20, le=20)
abbrev pub valid_snr : Option ℤ → Bool
valid_snr none = true
valid_snr (some (pos n)) = leb n 2000
valid_snr (some (negsuc n)) = leb (n + 1) 2000

-- The fields that are validated, for an uplink with a time; `none` is the ValidationError.
unfoldable pub validated : SensorUplink → Option SensorUplink
validated u = if valid_rssi u.rssi && valid_snr u.snr then some u else none

-- data.get("rxInfo", [{}])[0]; `none` is the IndexError.
abbrev pub first_rx : Option (List RxInfo) → Option RxInfo
first_rx none = some (record { rssi = none; snr = none; gateway_id = none })
first_rx (some []) = none
first_rx (some (r ∷ rs)) = some r

-- Bit 0 of the first byte.
unfoldable pub occupancy_of : List ℕ → SpaceState
occupancy_of [] = free
occupancy_of (b ∷ bs) = if b % 2 == 1 then occupied else free

-- The second byte.
unfoldable pub battery_of : List ℕ → Option ℕ
battery_of (b ∷ c ∷ bs) = some c
battery_of _ = none

pub data HandlerClass : Type 0 where
  browan heltec kuando : HandlerClass

abbrev pub class_name : HandlerClass → String
class_name browan = "BrowanTabsHandler"
class_name heltec = "HeltecDisplayHandler"
class_name kuando = "KuandoBusylightHandler"

pub record Handler : Type 0 where
  pub handler_class : HandlerClass
  pub device_profiles : List String

module _ (decode : String → Option (List ℕ)) (lower : String → String) where
  -- The uplink without what the payload says.
  unfoldable pub bare_uplink : Webhook → RxInfo → ℕ → SensorUplink
  bare_uplink w rx time = record {
    device_eui = lower (or_text w.dev_eui "");
    timestamp = time;
    occupancy_state = none;
    battery = none;
    rssi = rx.rssi;
    snr = rx.snr;
    gateway_id = none;
    raw_payload = some (or_text w.payload "");
  }

  -- `BrowanTabsHandler.parse_uplink`. What fails in the payload gives the bare uplink, and a field
  -- that is not valid fails in both.
  unfoldable pub browan_uplink : Webhook → RxInfo → ℕ → Option SensorUplink
  browan_uplink w rx time = elim (decode (or_text w.payload "")) [
    | none ↦ validated (bare_uplink w rx time)
    | some bytes ↦ validated (record (bare_uplink w rx time) {
      occupancy_state = some (occupancy_of bytes);
      battery = battery_of bytes;
      gateway_id = rx.gateway_id;
    })
  ]

  unfoldable pub uplink_of : HandlerClass → Webhook → RxInfo → ℕ → Option SensorUplink
  uplink_of browan w rx time = browan_uplink w rx time
  uplink_of heltec w rx time = validated (bare_uplink w rx time)
  uplink_of kuando w rx time = validated (bare_uplink w rx time)

  -- `parse_uplink`; `none` is an exception.
  unfoldable pub parse_uplink : Handler → Webhook → Option SensorUplink
  parse_uplink h w = elim (first_rx w.rx_info) [
    | none ↦ none
    | some rx ↦ elim w.time [ none ↦ none | some time ↦ uplink_of h.handler_class w rx time ]
  ]

-- `can_handle`
unfoldable pub can_handle : String → Handler → Bool
can_handle profile h = truthy profile && any (text_eq profile) h.device_profiles

pub record DeviceHandlerRegistry : Type 0 where
  pub handlers : List Handler
  pub profile_cache : List (String × Handler)

abbrev pub empty_registry : DeviceHandlerRegistry
empty_registry = record { handlers = []; profile_cache = [] }

unfoldable pub register : Handler → DeviceHandlerRegistry → DeviceHandlerRegistry
register h reg = record reg { handlers = reg.handlers ++ h ∷ [] }

-- A profile that is not in the cache.
unfoldable pub find_handler :
    String → DeviceHandlerRegistry → Option Handler × DeviceHandlerRegistry
find_handler profile reg = elim (first (can_handle profile) reg.handlers) [
  | none ↦ (none, reg)
  | some h ↦ (some h, record reg { profile_cache = insert profile h reg.profile_cache })
]

unfoldable pub get_handler : String → DeviceHandlerRegistry → Option Handler × DeviceHandlerRegistry
get_handler profile reg =
    if truthy profile
    then elim (lookup profile reg.profile_cache) [
      | none ↦ find_handler profile reg
      | some h ↦ (some h, reg)
    ]
    else (none, reg)

unfoldable pub get_handler_by_class : String → DeviceHandlerRegistry → Option Handler
get_handler_by_class name reg = first (λ h. text_eq (class_name h.handler_class) name) reg.handlers

-- `auto_register`
unfoldable pub auto_register : DeviceHandlerRegistry → DeviceHandlerRegistry
auto_register reg =
    register (record { handler_class = kuando; device_profiles = "plenom_kuando_busylight" ∷ [] })
      (register (record { handler_class = heltec; device_profiles = "heltec_display" ∷ [] })
        (register
          (record { handler_class = browan; device_profiles = "browan_tbms100_motion" ∷ [] }) reg))
