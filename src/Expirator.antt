-- ===== src/Expirator.antt =====
-- src/libs/expirator.hpp, and libs/pinex/io/expirator.hpp, which has no `expire_all`: keys with a number of periods to wait, and a timer that ticks once each
-- period and hands the keys whose wait is over to a handler. The handler's calls are the list of
-- what it is handed; it does not call back. Durations are not negative and the period is not zero.
mod Tests
pub mod Keys
pub mod Waiting
use smppgw.Base.{
  ℕ, zero, suc, ◌+◌, ◌/◌, ◌%◌, ◌^◌, Bool, true, false, not, List, [], ◌∷◌, ◌++◌, Option, none, some,
  map, ◌==◌, if◌then◌else◌,
}
use smppgw.Base.Results.{Result, ok, throw, runtime_error}

-- An element of the bimap: the index at which the key is due, the key, and its `Tinfo`. The keys
-- are sequence numbers.
pub record Entry (A : Type 0) : Type 0 where
  pub due : ℕ
  pub key : ℕ
  pub info : A

pub record Expirator (A : Type 0) : Type 0 where
  pub index : ℕ
  pub period : ℕ
  pub index_keys : List (Entry A)

module _ {A : Type 0} where
  unfoldable pub find_key : ℕ → List (Entry A) → Option A
  find_key k [] = none
  find_key k (e ∷ es) = if e.key == k then some e.info else find_key k es

  abbrev pub unless_found : Option A → Entry A → List (Entry A) → List (Entry A)
  unless_found none e es = e ∷ es
  unless_found (some i) e es = es

  -- `insert`: the right side is a set, so a key that is there is not inserted again.
  unfoldable pub insert : Entry A → List (Entry A) → List (Entry A)
  insert e es = unless_found (find_key e.key es) e es

  -- The element that `add` makes: the sum becomes an `unsigned int`.
  abbrev pub entry_of : Expirator A → ℕ → ℕ → A → Entry A
  entry_of x k expiration_count i = record {
    due = (x.index + expiration_count / x.period) % 2 ^ 32;
    key = k;
    info = i;
  }

  -- `add` with an info.
  unfoldable pub add : Expirator A → ℕ → ℕ → A → Expirator A
  add x k expiration_count i = record x {
    index_keys = insert (entry_of x k expiration_count i) x.index_keys;
  }

  unfoldable pub get_info : Expirator A → ℕ → Option A
  get_info x k = find_key k x.index_keys

  unfoldable pub erase_right : ℕ → List (Entry A) → List (Entry A)
  erase_right k [] = []
  erase_right k (e ∷ es) = let rest = erase_right k es in if e.key == k then rest else e ∷ rest

  abbrev pub is_some : Option A → Bool
  is_some none = false
  is_some (some a) = true

  -- `remove`: whether the key was there.
  unfoldable pub remove : Expirator A → ℕ → Expirator A × Bool
  remove x k =
      (record x { index_keys = erase_right k x.index_keys }, is_some (find_key k x.index_keys))

  -- `equal_range`, and `erase` of the left side.
  unfoldable pub equal_range : ℕ → List (Entry A) → List (Entry A)
  equal_range i [] = []
  equal_range i (e ∷ es) = let rest = equal_range i es in if e.due == i then e ∷ rest else rest

  unfoldable pub erase_left : ℕ → List (Entry A) → List (Entry A)
  erase_left i [] = []
  erase_left i (e ∷ es) = let rest = erase_left i es in if e.due == i then rest else e ∷ rest

  -- What the handler is handed.
  abbrev pub handed : List (Entry A) → List (ℕ × A)
  handed es = map (λ e. (e.key, e.info)) es

  -- `on_timer`. The 64-bit index is looked up as an `unsigned int`.
  unfoldable pub on_timer : Expirator A → Expirator A × List (ℕ × A)
  on_timer x =
      let i = x.index % 2 ^ 32 in
      (
        record x { index_keys = erase_left i x.index_keys; index = (x.index + 1) % 2 ^ 64 },
        handed (equal_range i x.index_keys),
      )

  unfoldable pub expire_all : Expirator A → Expirator A × List (ℕ × A)
  expire_all x = (record x { index_keys = []; index = 0 }, handed x.index_keys)

  -- The completion of the wait that `do_set_timer` starts: whether the object still lives, and
  -- whether the wait ended with an error.
  unfoldable pub on_wait : Bool → Bool → Expirator A → Result (Expirator A × List (ℕ × A))
  on_wait false failed x = ok (x, [])
  on_wait true true x = throw runtime_error
  on_wait true false x = ok (on_timer x)
