-- ===== src/Mqtt/Table.antt =====
-- The table of subscriptions as `mqtt_subscribe` fills it.
use cr_lte_modem.Base.{
  ℕ, ◌+◌, ◌<◌, ◌≡◌, ◌≢◌, ◌⊎◌, Bool, Option, none, some, List, [], ◌∷◌, if◌then◌else◌, length,
  get_elem?,
}
use cr_lte_modem.CString.{Bytes}
use cr_lte_modem.Device.{Subscription}
use cr_lte_modem.Mqtt.Topics.{no_slot}

-- the topic of an entry
abbrev name_of : Option Subscription → Option Bytes
name_of none = none
name_of (some u) = some (u.topic_name)

abbrev pub topic_at : List Subscription → ℕ → Option Bytes
topic_at subs j = name_of (get_elem? subs j)

-- no entry is free
abbrev pub Full : List Subscription → Type 0
Full [] = Unit
Full (u ∷ subs) = (u.topic_name ≢ []) × Full subs

-- The entry of a name, before and after: a free one, filled with the name, the receiver and, for a
-- wildcard, its mark; or one that has the name, as it was.
abbrev pub Takes : Bytes → Bool → ℕ → Option Subscription → Option Subscription → Type 0
Takes name wild f none after = ⊥
Takes name wild f (some u) none = ⊥
Takes name wild f (some u) (some v) =
    ((u.topic_name ≡ [])
      × (v ≡ record {
        topic_name = name;
        wildcard = if wild then b'#' else u.wildcard;
        receiver_func = some f;
      }))
    ⊎ ((u.topic_name ≡ name) × (v ≡ u))

-- an entry for the name that was free or had it, and the others as they were
pub record Entered (name : Bytes) (wild : Bool) (f : ℕ) (subs : List Subscription) (i : ℕ)
    (out : List Subscription × ℕ) : Type 0 where
  pub place : ℕ
  pub index : out.1 ≡ i + place
  pub bound : place < length subs
  pub entry : topic_at out.0 place ≡ some name
  pub takes : Takes name wild f (get_elem? subs place) (get_elem? out.0 place)
  pub others : (j : ℕ) → (j ≡ place) ⊎ (get_elem? out.0 j ≡ get_elem? subs j)

abbrev pub Enters : Bytes → Bool → ℕ → List Subscription → ℕ → List Subscription × ℕ → Type 0
Enters name wild f subs i out =
    Entered name wild f subs i out ⊎ ((out ≡ (subs, no_slot)) × Full subs)

abbrev Finds : Bytes → Bool → ℕ → List Subscription → ℕ → ℕ → Type 0
Finds name wild f subs i k = Entered name wild f subs i (subs, k) ⊎ (k ≡ no_slot)
