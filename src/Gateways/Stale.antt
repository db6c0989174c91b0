-- ===== src/Gateways/Stale.antt =====
-- What the cache of the gateways forgets, and what it does not.
use smart_parking_platform.Prelude.{
  ℕ, ◌+◌, ◌<◌, String, List, [], ◌∷◌, Option, some, Bool, true, false, ◌||◌, ◌≡◌, refl, ap, ◌∙◌,
  arith, text_eq, first, any, All, lookup, insert, lookup-insert, Bool-cases, inl, inr,
}
use smart_parking_platform.Gateways.Monitor.{
  GatewayRow, GatewayInfo, GatewayMonitor, cache_ttl, insert_by_last_seen, by_last_seen, info_of,
  read_rows, values, is_fresh, refresh_gateways, get_all_gateways, is_gateway_online,
}

-- Every gateway is in the cache under its identifier.
abbrev pub IsKeyed : List (String × GatewayInfo) → Type 0
IsKeyed cache = All (λ e. e.1.gateway_id ≡ e.0) cache

abbrev has_gateway : String → GatewayRow → Bool
has_gateway id r = text_eq r.gateway_id id

insert-IsKeyed :
    (key : String) (info : GatewayInfo) (cache : List (String × GatewayInfo))
    → info.gateway_id ≡ key
    → IsKeyed cache
    → IsKeyed (insert key info cache)
unfolding insert
insert-IsKeyed key info [] own keyed = (own, tt)
insert-IsKeyed key info (e ∷ es) own keyed = elim (Bool-cases (text_eq e.0 key)) [
  | inl here ↦ rw (here, insert) (own, keyed.1)
  | inr later ↦ rw (later, insert) (keyed.0, insert-IsKeyed key info es own keyed.1)
]

-- The search of `is_gateway_online` in the cache is a look-up.
first-values :
    (id : String) (cache : List (String × GatewayInfo))
    → IsKeyed cache
    → first (λ i. text_eq i.gateway_id id) (values cache) ≡ lookup id cache
unfolding values lookup
first-values id [] keyed = refl
first-values id (e ∷ es) keyed = ground (arith, keyed.0, first-values id es keyed.1)

any-insert_by_last_seen :
    (id : String) (r : GatewayRow) (rows : List GatewayRow)
    → any (has_gateway id) (insert_by_last_seen r rows)
      ≡ (has_gateway id r || any (has_gateway id) rows)
unfolding insert_by_last_seen
any-insert_by_last_seen id r [] = refl
any-insert_by_last_seen id r (q ∷ qs) = ground (arith, any-insert_by_last_seen id r qs)

any-by_last_seen :
    (id : String) (rows : List GatewayRow)
    → any (has_gateway id) (by_last_seen rows) ≡ any (has_gateway id) rows
unfolding by_last_seen
any-by_last_seen id [] = refl
any-by_last_seen id (r ∷ rs) =
    any-insert_by_last_seen id r (by_last_seen rs)
    ∙ ap (λ b. has_gateway id r || b) (any-by_last_seen id rs)

-- A gateway without a row stays in the cache as it was.
read_rows-lookup :
    (now threshold : ℕ) (id : String) (rows : List GatewayRow) (cache : List (String × GatewayInfo))
    → any (has_gateway id) rows ≡ false
    → lookup id (read_rows now threshold rows cache).1 ≡ lookup id cache
unfolding read_rows
read_rows-lookup now threshold id [] cache gone = refl
read_rows-lookup now threshold id (r ∷ rs) cache gone =
    let info = info_of now threshold r in
    let apart : text_eq r.gateway_id id ≡ false = ground (arith, gone) in
    read_rows-lookup now threshold id rs (insert r.gateway_id info cache) (ground (arith, gone))
    ∙ lookup-insert r.gateway_id id info cache
    ∙ rw apart refl

read_rows-IsKeyed :
    (now threshold : ℕ) (rows : List GatewayRow) (cache : List (String × GatewayInfo))
    → IsKeyed cache
    → IsKeyed (read_rows now threshold rows cache).1
unfolding read_rows info_of
read_rows-IsKeyed now threshold [] cache keyed = keyed
read_rows-IsKeyed now threshold (r ∷ rs) cache keyed =
    let info = info_of now threshold r in
    read_rows-IsKeyed now threshold rs (insert r.gateway_id info cache)
      (insert-IsKeyed r.gateway_id info cache refl keyed)

-- For a connected monitor whose cache has each gateway under its identifier: a read of the table
-- that has no row of a gateway keeps its entry in the cache, and while the cache is fresh
-- `is_gateway_online` answers with the flag of that entry.
pub removed_gateway_stays_online :
    (now later : ℕ) (id : String) (info : GatewayInfo) (rows : List GatewayRow)
    (rows' : Option (List GatewayRow)) (m : GatewayMonitor)
    → m.connected ≡ true
    → IsKeyed m.gateway_cache
    → lookup id m.gateway_cache ≡ some info
    → any (has_gateway id) rows ≡ false
    → later < now + cache_ttl
    → (is_gateway_online later id rows' (get_all_gateways now true (some rows) m).1).0
      ≡ info.is_online
unfolding is_gateway_online get_all_gateways refresh_gateways is_fresh
removed_gateway_stays_online now later id info rows rows' m up keyed there gone soon =
    let sorted = by_last_seen rows in
    let cache = (read_rows now m.offline_threshold sorted m.gateway_cache).1 in
    let still =
      read_rows-lookup now m.offline_threshold id sorted m.gateway_cache
        (any-by_last_seen id rows ∙ gone) in
    let found =
      first-values id cache
        (read_rows-IsKeyed now m.offline_threshold sorted m.gateway_cache keyed) in
    ground (arith, up, soon, found, still, there)
