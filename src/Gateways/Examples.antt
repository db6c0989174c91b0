-- ===== src/Gateways/Examples.antt =====
-- The theorem on the gateways at a concrete input.
use smart_parking_platform.Prelude.{[], ◌∷◌, none, some, true, ◌≡◌, refl, arith, lookup}
use smart_parking_platform.Gateways.Monitor.{
  GatewayInfo, GatewayMonitor, get_all_gateways, is_gateway_online,
}
use smart_parking_platform.Gateways.Stale.{removed_gateway_stays_online}

abbrev roof : GatewayInfo
roof = record {
  gateway_id = "g1";
  name = "roof";
  description = "";
  last_seen_at = some 1;
  is_online = true;
  minutes_offline = none;
  properties = "{}";
}

abbrev monitor : GatewayMonitor
monitor = record {
  connected = true;
  offline_threshold = 300000000;
  gateway_cache = ("g1", roof) ∷ [];
  cache_updated = some 5;
}

-- The table is empty by now, and a day has gone by since the gateway was seen.
removed_gateway_stays_online_example :
    (is_gateway_online 86400000001 "g1"
      (some [])
      (get_all_gateways 86400000000 true (some []) monitor).1).0
    ≡ true
unfolding lookup
removed_gateway_stays_online_example =
    removed_gateway_stays_online 86400000000 86400000001 "g1" roof [] (some []) monitor refl
      (refl, tt) refl refl (omega arith)
