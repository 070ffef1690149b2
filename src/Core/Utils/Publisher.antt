-- ===== src/Core/Utils/Publisher.antt =====
-- core/utils/publisher.go: the broadcast loop, one `select` at a time.
-- A subscriber is known by a number. What it has taken from its channel is kept beside the channel.
-- The empty value by which `broadcast` answers a `Subscribe` is taken before `Subscribe` returns, and is left
-- out. A channel has a buffer: the capacity is not 0.
pub mod Parts
pub mod Finding
pub mod Wholeness
pub mod Delivery
pub mod Tests
use ricochet_go.Common.{
  ℕ, Bool, true, false, not, Option, none, some, List, [], ◌∷◌, ◌++◌, length, ltb, ◌==◌,
  if◌then◌else◌,
}

-- `dropped`: a value did not fit, and `go pub.Unsubscribe(c)` has been started.
pub record Channel (V : Type 0) : Type 0 where
  pub id : ℕ
  pub capacity : ℕ
  pub queue : List V
  pub received : List V
  pub dropped : Bool

pub data Action (V : Type 0) : Type 0 where
  subscribes : ℕ → ℕ → Action V
  unsubscribes : ℕ → Action V
  publishes : V → Action V
  receives : ℕ → Action V
  drains : ℕ → Action V

module _ {V : Type 0} where
  -- The `select` with a default.
  unfoldable pub offer : V → Channel V → Channel V
  offer v c =
      if ltb (length c.queue) c.capacity
      then record c { queue = c.queue ++ v ∷ [] }
      else record c { dropped = true }

  unfoldable pub offer_all : V → List (Channel V) → List (Channel V)
  unfolding offer
  offer_all v [] = []
  offer_all v (c ∷ cs) = offer v c ∷ offer_all v cs

  unfoldable pub remove : ℕ → List (Channel V) → List (Channel V)
  remove id [] = []
  remove id (c ∷ cs) = let later = remove id cs in if not (c.id == id) then c ∷ later else cs

  -- The subscriber takes a value, if there is one.
  unfoldable pub take_first : List V → Channel V → Channel V
  take_first [] c = c
  take_first (v ∷ rest) c = record c { queue = rest; received = c.received ++ v ∷ [] }

  -- The loop of `Unsubscribe` takes one, where it has been started.
  unfoldable pub drain_first : List V → Channel V → Channel V
  drain_first [] c = c
  drain_first (v ∷ rest) c = if c.dropped then record c { queue = rest } else c

  unfoldable pub at : (Channel V → Channel V) → ℕ → List (Channel V) → List (Channel V)
  at f id [] = []
  at f id (c ∷ cs) = let later = at f id cs in if c.id == id then f c ∷ cs else c ∷ later

  abbrev pub new_channel : ℕ → ℕ → Channel V
  new_channel id capacity = record {
    id = id;
    capacity = capacity;
    queue = [];
    received = [];
    dropped = false;
  }

  unfoldable pub perform : Action V → List (Channel V) → List (Channel V)
  unfolding remove offer_all at take_first drain_first
  perform (subscribes id capacity) cs = cs ++ new_channel id capacity ∷ []
  perform (unsubscribes id) cs = remove id cs
  perform (publishes v) cs = offer_all v cs
  perform (receives id) cs = at (λ c. take_first c.queue c) id cs
  perform (drains id) cs = at (λ c. drain_first c.queue c) id cs

  unfoldable pub perform_all : List (Action V) → List (Channel V) → List (Channel V)
  unfolding perform
  perform_all [] cs = cs
  perform_all (a ∷ rest) cs = perform_all rest (perform a cs)
