-- ===== src/Gateways/Monitor.antt =====
-- `GatewayMonitor` over ChirpStack's table of gateways, which a read gives or fails to give. Times are
-- microseconds.
use smart_parking_platform.Prelude.{
  ℕ, ◌+◌, ◌-◌, ◌*◌, ◌/◌, String, List, [], ◌∷◌, Option, none, some, Bool, true, false, ◌&&◌, not,
  ltb, leb, text_eq, first, keep, length, insert, if◌then◌else◌,
}

-- A row of table gateway; `properties` is its JSON text.
pub record GatewayRow : Type 0 where
  pub gateway_id : String
  pub name : String
  pub description : String
  pub last_seen_at : Option ℕ
  pub properties : String

pub record GatewayInfo : Type 0 where
  pub gateway_id : String
  pub name : String
  pub description : String
  pub last_seen_at : Option ℕ
  pub is_online : Bool
  pub minutes_offline : Option ℕ
  pub properties : String

pub record GatewayMonitor : Type 0 where
  pub connected : Bool
  pub offline_threshold : ℕ
  pub gateway_cache : List (String × GatewayInfo)
  pub cache_updated : Option ℕ

abbrev pub cache_ttl : ℕ
cache_ttl = 30 * 1000000

-- ORDER BY last_seen_at DESC NULLS LAST
abbrev pub seen_before : Option ℕ → Option ℕ → Bool
seen_before none (some b) = true
seen_before (some a) (some b) = ltb a b
seen_before _ none = false

unfoldable pub insert_by_last_seen : GatewayRow → List GatewayRow → List GatewayRow
insert_by_last_seen r [] = r ∷ []
insert_by_last_seen r (q ∷ qs) =
    let rest = insert_by_last_seen r qs in
    if seen_before r.last_seen_at q.last_seen_at then q ∷ rest else r ∷ q ∷ qs

unfoldable pub by_last_seen : List GatewayRow → List GatewayRow
by_last_seen [] = []
by_last_seen (r ∷ rs) = insert_by_last_seen r (by_last_seen rs)

-- now - last_seen < offline_threshold
unfoldable pub seen_lately : ℕ → ℕ → Option ℕ → Bool
seen_lately now threshold none = false
seen_lately now threshold (some seen) = ltb now (seen + threshold)

abbrev pub minutes_since : ℕ → Option ℕ → Option ℕ
minutes_since now none = none
minutes_since now (some seen) = some ((now - seen) / 60000000)

unfoldable pub info_of : ℕ → ℕ → GatewayRow → GatewayInfo
info_of now threshold r = record {
  gateway_id = r.gateway_id;
  name = r.name;
  description = r.description;
  last_seen_at = r.last_seen_at;
  is_online = seen_lately now threshold r.last_seen_at;
  minutes_offline =
      if seen_lately now threshold r.last_seen_at then none else minutes_since now r.last_seen_at;
  properties = r.properties;
}

-- The loop over the rows: their list, and the cache after it.
unfoldable pub read_rows :
    ℕ
    → ℕ
    → List GatewayRow
    → List (String × GatewayInfo)
    → List GatewayInfo × List (String × GatewayInfo)
read_rows now threshold [] cache = ([], cache)
read_rows now threshold (r ∷ rs) cache =
    let info = info_of now threshold r in
    let (infos, cache') = read_rows now threshold rs (insert r.gateway_id info cache) in
    (info ∷ infos, cache')

-- `self._gateway_cache.values()`
unfoldable pub values : List (String × GatewayInfo) → List GatewayInfo
values [] = []
values (e ∷ es) = e.1 ∷ values es

unfoldable pub is_fresh : ℕ → Option ℕ → Bool
is_fresh now none = false
is_fresh now (some updated) = ltb now (updated + cache_ttl)

-- A read of the table; `none` is a failure.
unfoldable pub refresh_gateways :
    ℕ → Option (List GatewayRow) → GatewayMonitor → List GatewayInfo × GatewayMonitor
refresh_gateways now none m = ([], m)
refresh_gateways now (some rows) m =
    let (infos, cache) = read_rows now m.offline_threshold (by_last_seen rows) m.gateway_cache in
    (infos, record m { gateway_cache = cache; cache_updated = some now })

unfoldable pub get_all_gateways :
    ℕ → Bool → Option (List GatewayRow) → GatewayMonitor → List GatewayInfo × GatewayMonitor
get_all_gateways now refresh rows m =
    let read = refresh_gateways now rows m in
    if not m.connected
    then ([], m)
    else if not refresh && is_fresh now m.cache_updated
    then (values m.gateway_cache, m)
    else read

abbrev pub first_online : String → List GatewayInfo → Bool
first_online id infos = elim (first (λ i. text_eq i.gateway_id id) infos) [
  | none ↦ false
  | some i ↦ i.is_online
]

-- `is_gateway_online`
unfoldable pub is_gateway_online :
    ℕ → String → Option (List GatewayRow) → GatewayMonitor → Bool × GatewayMonitor
is_gateway_online now id rows m =
    let (infos, m') = get_all_gateways now false rows m in (first_online id infos, m')

-- `get_online_gateways` and `get_offline_gateways`
unfoldable pub get_online_gateways :
    ℕ → Option (List GatewayRow) → GatewayMonitor → List GatewayInfo × GatewayMonitor
get_online_gateways now rows m =
    let (infos, m') = get_all_gateways now false rows m in (keep (λ i. i.is_online) infos, m')

unfoldable pub get_offline_gateways :
    ℕ → Option (List GatewayRow) → GatewayMonitor → List GatewayInfo × GatewayMonitor
get_offline_gateways now rows m =
    let (infos, m') = get_all_gateways now false rows m in (keep (λ i. not i.is_online) infos, m')

-- The summary; the lists of identifiers are those of the two lists of gateways.
pub record HealthSummary : Type 0 where
  pub total_gateways : ℕ
  pub online_gateways : List GatewayInfo
  pub offline_gateways : List GatewayInfo
  pub healthy : Bool
  pub checked_at : ℕ

unfoldable pub summary_of : ℕ → List GatewayInfo → HealthSummary
summary_of now infos = record {
  total_gateways = length infos;
  online_gateways = keep (λ i. i.is_online) infos;
  offline_gateways = keep (λ i. not i.is_online) infos;
  healthy = leb 1 (length (keep (λ i. i.is_online) infos));
  checked_at = now;
}

-- `get_health_summary`
unfoldable pub get_health_summary :
    ℕ → Option (List GatewayRow) → GatewayMonitor → HealthSummary × GatewayMonitor
get_health_summary now rows m =
    let (infos, m') = get_all_gateways now true rows m in (summary_of now infos, m')
