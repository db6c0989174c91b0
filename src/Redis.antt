-- ===== src/Redis.antt =====
-- Redis as the code relies on it: a map from keys to typed values. The server itself is a parameter.
-- `K` stands for the key texts that the code formats, `I` for the texts it puts into lists, `H` for
-- the field maps of hashes. A key that is missing reads as `absent`, an empty list included.
use smart_parking_platform.Prelude.{
  ℕ, String, List, [], ◌∷◌, ◌++◌, ◌+◌, Bool, Option, none, some, ◌≡◌, refl, keep, not, drop, length,
  ◌-◌, if◌then◌else◌,
}

pub data Cell (I H : Type 0) : Type 0 where
  absent : Cell I H
  string : String → Cell I H
  list : List I → Cell I H
  hash : H → Cell I H
  counter : ℕ → Cell I H

module _ {I H : Type 0} where
  -- GET of a text
  abbrev pub text_at : Cell I H → Option String
  text_at (string s) = some s
  text_at _ = none

  -- LRANGE key 0 -1
  abbrev pub items_at : Cell I H → List I
  items_at (list xs) = xs
  items_at _ = []

  -- HGETALL
  abbrev pub hash_at : Cell I H → Option H
  hash_at (hash h) = some h
  hash_at _ = none

  -- int(GET key or 0)
  abbrev pub count_at : Cell I H → ℕ
  count_at (counter n) = n
  count_at _ = 0

abbrev pub merged : {H : Type 0} → (H → H → H) → H → Option H → H
merged merge new none = new
merged merge new (some old) = merge new old

-- LTRIM key -n -1
abbrev pub last_items {ℓ} : {A : Type ℓ} → ℕ → List A → List A
last_items n xs = drop (length xs - n) xs

abbrev pub rest_of {ℓ} : {A : Type ℓ} → List A → List A
rest_of [] = []
rest_of (x ∷ xs) = xs

abbrev pub head_of {ℓ} : {A : Type ℓ} → List A → Option A
head_of [] = none
head_of (x ∷ xs) = some x

-- The commands that the code sends, each with its documented effect on the one key it names.
-- `merge new old` is the field map after HSET of the fields `new` on the fields `old`, and
-- `same_item` compares the texts in lists.
pub record Redis (K I H : Type 0) (same : K → K → Bool) (same_item : I → I → Bool)
    (merge : H → H → H) : Type 1 where
  pub Store : Type 0
  pub view : Store → K → Cell I H
  pub set : K → String → Store → Store
  pub delete : K → Store → Store
  pub rpush : K → I → Store → Store
  pub lrem : K → I → Store → Store
  pub lpop : K → Store → Store
  pub hset : K → H → Store → Store
  pub incr : K → Store → Store
  pub ltrim : K → ℕ → Store → Store
  pub view-ltrim :
      (k : K) (n : ℕ) (s : Store) (j : K)
      → view (ltrim k n s) j
        ≡ (if same k j then list (last_items n (items_at (view s k))) else view s j)
  pub view-set :
      (k : K) (v : String) (s : Store) (j : K)
      → view (set k v s) j ≡ (if same k j then string v else view s j)
  pub view-delete :
      (k : K) (s : Store) (j : K) → view (delete k s) j ≡ (if same k j then absent else view s j)
  pub view-rpush :
      (k : K) (v : I) (s : Store) (j : K)
      → view (rpush k v s) j ≡ (if same k j then list (items_at (view s k) ++ v ∷ []) else view s j)
  pub view-lrem :
      (k : K) (v : I) (s : Store) (j : K)
      → view (lrem k v s) j ≡ (
          if same k j
          then list (keep (λ x. not (same_item x v)) (items_at (view s k)))
          else view s j)
  pub view-lpop :
      (k : K) (s : Store) (j : K)
      → view (lpop k s) j ≡ (if same k j then list (rest_of (items_at (view s k))) else view s j)
  pub view-hset :
      (k : K) (h : H) (s : Store) (j : K)
      → view (hset k h s) j
        ≡ (if same k j then hash (merged merge h (hash_at (view s k))) else view s j)
  pub view-incr :
      (k : K) (s : Store) (j : K)
      → view (incr k s) j ≡ (if same k j then counter (count_at (view s k) + 1) else view s j)

-- A Redis in memory, which shows that the laws can be met.
module _ (K I H : Type 0) (same : K → K → Bool) (same_item : I → I → Bool) (merge : H → H → H) where
  abbrev pub put : K → Cell I H → (K → Cell I H) → K → Cell I H
  put k c s j = if same k j then c else s j

  abbrev pub memory : Redis K I H same same_item merge
  memory = record {
    Store = K → Cell I H;
    view = λ s k. s k;
    set = λ k v s. put k (string v) s;
    delete = λ k s. put k absent s;
    rpush = λ k v s. put k (list (items_at (s k) ++ v ∷ [])) s;
    lrem = λ k v s. put k (list (keep (λ x. not (same_item x v)) (items_at (s k)))) s;
    lpop = λ k s. put k (list (rest_of (items_at (s k)))) s;
    hset = λ k h s. put k (hash (merged merge h (hash_at (s k)))) s;
    incr = λ k s. put k (counter (count_at (s k) + 1)) s;
    ltrim = λ k n s. put k (list (last_items n (items_at (s k)))) s;
    view-ltrim = λ k n s j. refl;
    view-set = λ k v s j. refl;
    view-delete = λ k s j. refl;
    view-rpush = λ k v s j. refl;
    view-lrem = λ k v s j. refl;
    view-lpop = λ k s j. refl;
    view-hset = λ k h s j. refl;
    view-incr = λ k s j. refl;
  }
