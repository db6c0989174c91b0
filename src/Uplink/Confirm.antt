-- ===== src/Uplink/Confirm.antt =====
-- The confirmation of downlinks by Kuando displays.
use smart_parking_platform.Prelude.{
  ℕ, String, List, ◌∷◌, Option, none, some, Bool, ◌&&◌, ltb, ◌==◌, lookup, insert, erase,
  if◌then◌else◌,
}

-- device:{eui}:last_kuando_uplink
pub record KuandoUplink : Type 0 where
  pub timestamp : ℕ
  pub downlinks_received : ℕ
  pub red : ℕ
  pub blue : ℕ
  pub green : ℕ
  pub options : ℕ
  pub request_id : String

-- device:{eui}:pending_downlink
pub record PendingDownlink : Type 0 where
  pub red : ℕ
  pub blue : ℕ
  pub green : ℕ
  pub counter : ℕ

pub record KuandoKeys : Type 0 where
  pub last_uplink : List (String × KuandoUplink)
  pub pending_downlink : List (String × PendingDownlink)

-- The status in at least eight bytes.
unfoldable pub status_of : ℕ → String → List ℕ → Option KuandoUplink
status_of now request (n ∷ r ∷ b ∷ g ∷ o ∷ auto ∷ reserved ∷ last ∷ rest) = some (record {
  timestamp = now;
  downlinks_received = n;
  red = r;
  blue = b;
  green = g;
  options = o;
  request_id = request;
})
status_of now request _ = none

unfoldable pub is_verified : KuandoUplink → PendingDownlink → Bool
is_verified u p =
    (u.red == p.red && (u.blue == p.blue && u.green == p.green))
    && ltb p.counter u.downlinks_received

-- The status is stored, and a pending downlink that it confirms is removed.
unfoldable pub verify_downlink : String → KuandoUplink → KuandoKeys → KuandoKeys
verify_downlink eui u keys =
    let stored = record keys { last_uplink = insert eui u keys.last_uplink } in
    elim (lookup eui keys.pending_downlink) [
      | none ↦ stored
      | some p ↦
          if is_verified u p
          then record stored { pending_downlink = erase eui keys.pending_downlink }
          else stored
    ]

-- A payload that was decoded.
unfoldable pub kuando_bytes : ℕ → String → String → List ℕ → KuandoKeys → KuandoKeys
kuando_bytes now request eui bytes keys = elim (status_of now request bytes) [
  | none ↦ keys
  | some u ↦ verify_downlink eui u keys
]
