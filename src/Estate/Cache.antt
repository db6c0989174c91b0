-- ===== src/Estate/Cache.antt =====
-- `CacheManager` of src/cache.py, on a Redis that keeps values until they expire. Redis, its glob
-- patterns and the digest of a key are parameters with the laws that the code relies on.
use Prim.Native.String.append
use Prim.Native.Char.{code}
use smart_parking_platform.Prelude.{
  ℕ, ◌+◌, ◌*◌, ◌≤◌, String, text_eq, text_append, List, [], ◌∷◌, ◌++◌, Option, none, some, Bool,
  true, false, ◌&&◌, ◌||◌, ltb, ◌==◌, ◌≡◌, refl, ap, ◌∙◌, arith, if◌then◌else◌, any, Bool-cases,
  inl, inr,
}
use smart_parking_platform.Hex.{codes, is_hex}

-- SETEX, GET, and the loop of SCAN MATCH with the DELETE of what it finds.
pub record CacheServer (V : Type 0) (glob : String → String → Bool) : Type 1 where
  pub Store : Type 0
  pub get : ℕ → String → Store → Option V
  pub setex : ℕ → String → ℕ → V → Store → Store
  pub delete_pattern : String → Store → Store
  -- A value is there until its time is over.
  pub get-setex :
      (now later ttl : ℕ) (k j : String) (v : V) (s : Store)
      → now ≤ later
      → get later j (setex now k ttl v s) ≡ (
          if text_eq k j
          then if ltb later (now + ttl * 1000000) then some v else none
          else get later j s)
  pub get-delete_pattern :
      (now : ℕ) (p j : String) (s : Store)
      → get now j (delete_pattern p s) ≡ (if glob p j then none else get now j s)

abbrev pub dash : ℕ → Bool
dash c = c == b'-'

abbrev pub special : ℕ → Bool
special c = c == b'[' || c == b'\\'

-- A glob pattern without a class or an escape takes its dashes as they are.
abbrev pub TakesDashes : (String → String → Bool) → Type 0
TakesDashes glob =
    (p k : String)
    → any special (codes p) ≡ false
    → any dash (codes p) ≡ true
    → glob p k ≡ true
    → any dash (codes k) ≡ true

unfoldable pub uuid_chars : List ℕ → Bool
uuid_chars [] = true
uuid_chars (c ∷ cs) = (is_hex c || dash c) && uuid_chars cs

-- The characters of str(UUID), with at least one dash.
abbrev pub is_uuid : String → Bool
is_uuid t = uuid_chars (codes t) && any dash (codes t)

any-append : (p : ℕ → Bool) (xs ys : List ℕ) → any p (xs ++ ys) ≡ (any p xs || any p ys)
any-append p [] ys = refl
any-append p (x ∷ xs) ys = ground (arith, any-append p xs ys)

codes-append : (s t : String) → codes (text_append s t) ≡ codes s ++ codes t
codes-append String.[] t = ap codes (append.nil t)
codes-append (String.◌∷◌ c s) t =
    ap codes (append.cons c s t) ∙ ap (λ cs. code c ∷ cs) (codes-append s t)

pub any-codes_append :
    (p : ℕ → Bool) (s t : String)
    → any p (codes (text_append s t)) ≡ (any p (codes s) || any p (codes t))
any-codes_append p s t = ap (any p) (codes-append s t) ∙ any-append p (codes s) (codes t)

-- The characters of an id stand for themselves in a pattern.
uuid_is_plain : (cs : List ℕ) → uuid_chars cs ≡ true → any special cs ≡ false
unfolding uuid_chars
uuid_is_plain [] h = refl
uuid_is_plain (c ∷ cs) h = ground (arith, h, uuid_is_plain cs)

abbrev pub null_or_uuid : Option String → Bool
null_or_uuid none = true
null_or_uuid (some t) = is_uuid t

spared :
    {glob : String → String → Bool}
    → TakesDashes glob
    → (p k : String) → any special (codes p) ≡ false
    → any dash (codes p) ≡ true
    → any dash (codes k) ≡ false
    → glob p k ≡ false
spared {glob} law p k plain has lacks = elim (Bool-cases (glob p k)) [
  | inl hit ↦ ground (arith, law p k plain has hit, lacks)
  | inr miss ↦ miss
]

module _ {V : Type 0} (glob : String → String → Bool) (server : CacheServer V glob) where
  -- `invalidate_space_cache`
  unfoldable pub invalidate_space_cache : String → Option String → server.Store → server.Store
  invalidate_space_cache tenant none s =
      server.delete_pattern (text_append "spaces:*" (text_append tenant "*")) s
  invalidate_space_cache tenant (some space) s =
      server.delete_pattern (text_append "space_detail:*" (text_append space "*")) (
        server.delete_pattern
          (text_append "spaces:*" (text_append tenant (text_append "*" (text_append space "*")))) s)

  -- What invalidate_space_cache cannot delete: a key without a dash.
  pub invalidation_spares :
      TakesDashes glob
      → (tenant : String) (space : Option String) (now : ℕ) (key : String) (s : server.Store)
      → is_uuid tenant ≡ true
      → null_or_uuid space ≡ true
      → any dash (codes key) ≡ false
      → server.get now key (invalidate_space_cache tenant space s) ≡ server.get now key s
  unfolding invalidate_space_cache
  invalidation_spares law tenant none now key s own _ plain =
      rw
        (
          server.get-delete_pattern now (text_append "spaces:*" (text_append tenant "*")) key s,
          spared law (text_append "spaces:*" (text_append tenant "*")) key
              (ground (
                arith,
                own,
                any-codes_append special "spaces:*" (text_append tenant "*"),
                any-codes_append special tenant "*",
                uuid_is_plain (codes tenant),
              ))
              (ground (
                arith,
                own,
                any-codes_append dash "spaces:*" (text_append tenant "*"),
                any-codes_append dash tenant "*",
              ))
              plain,
        )
        refl
  invalidation_spares law tenant (some space) now key s own known plain =
      let pair = text_append "*" (text_append space "*") in
      rw
        (
          server.get-delete_pattern now (text_append "space_detail:*" (text_append space "*")) key
              (server.delete_pattern (text_append "spaces:*" (text_append tenant pair)) s),
          spared law (text_append "space_detail:*" (text_append space "*")) key
              (ground (
                arith,
                known,
                any-codes_append special "space_detail:*" (text_append space "*"),
                any-codes_append special space "*",
                uuid_is_plain (codes space),
              ))
              (ground (
                arith,
                known,
                any-codes_append dash "space_detail:*" (text_append space "*"),
                any-codes_append dash space "*",
              ))
              plain,
          server.get-delete_pattern now (text_append "spaces:*" (text_append tenant pair)) key s,
          spared law (text_append "spaces:*" (text_append tenant pair)) key
              (ground (
                arith,
                own,
                known,
                any-codes_append special "spaces:*" (text_append tenant pair),
                any-codes_append special tenant pair,
                any-codes_append special "*" (text_append space "*"),
                any-codes_append special space "*",
                uuid_is_plain (codes tenant),
                uuid_is_plain (codes space),
              ))
              (ground (
                arith,
                own,
                any-codes_append dash "spaces:*" (text_append tenant pair),
                any-codes_append dash tenant pair,
              ))
              plain,
        )
        refl
