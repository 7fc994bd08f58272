-- ===== src/Cache/Slab.antt =====
-- The slab crate's interface, as tracing-cache/src/cache.rs uses it.
use tracing_console.Base.{ℕ, suc, ◌≤◌, ◌<◌, ◌≡◌, max, Option, none, some, if◌then◌else◌, ◌==◌}

-- What the code relies on of `slab::Slab`: a vacant slot is filled, before a new one is made; a filled
-- slot keeps its value until it is removed.
pub record Slab (V : Type 0) : Type 1 where
  pub Store : Type 0
  pub empty : Store
  pub len : Store → ℕ
  pub slots : Store → ℕ
  pub get : Store → ℕ → Option V
  pub insert : Store → V → ℕ × Store
  pub update : Store → ℕ → V → Store
  pub try_remove : Store → ℕ → Option (V × Store)
  pub len-empty : (len empty ≡ 0) × (slots empty ≡ 0)
  pub get-empty : (k : ℕ) → get empty k ≡ none
  pub insert_vacant : (s : Store) (v : V) → get s (insert s v).0 ≡ none
  pub get-insert :
      (s : Store) (v : V) (k : ℕ)
      → get (insert s v).1 k ≡ (if (insert s v).0 == k then some v else get s k)
  pub insert_key : (s : Store) (v : V) → (insert s v).0 < max (slots s) (suc (len s))
  pub insert_slots : (s : Store) (v : V) → slots (insert s v).1 ≤ max (slots s) (suc (len s))
  pub len-insert : (s : Store) (v : V) → len (insert s v).1 ≡ suc (len s)
  pub get-update :
      (s : Store) (i : ℕ) (v w : V) (k : ℕ)
      → get s i ≡ some w
      → get (update s i v) k ≡ (if i == k then some v else get s k)
  pub len-update :
      (s : Store) (i : ℕ) (v : V) → (len (update s i v) ≡ len s) × (slots (update s i v) ≡ slots s)
  pub remove_vacant : (s : Store) (i : ℕ) → get s i ≡ none → try_remove s i ≡ none
  pub remove_filled :
      (s : Store) (i : ℕ) (v : V)
      → get s i ≡ some v
      → (s' : Store) × (try_remove s i ≡ some (v, s'))
  pub get-remove :
      (s : Store) (i : ℕ) (v : V) (s' : Store) (k : ℕ)
      → try_remove s i ≡ some (v, s')
      → get s' k ≡ (if i == k then none else get s k)
  pub len-remove :
      (s : Store) (i : ℕ) (v : V) (s' : Store)
      → try_remove s i ≡ some (v, s')
      → (suc (len s') ≡ len s) × (slots s' ≤ slots s)
