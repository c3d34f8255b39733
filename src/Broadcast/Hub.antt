-- ===== src/Broadcast/Hub.antt =====
-- internal/broadcast/hub.go: the set of registered clients.
pub mod Fanout
use public_transport_tracker.Base.{
  ℕ, Bool, true, false, not, Option, none, some, List, [], ◌∷◌, if◌then◌else◌, nat_eq, ◌==◌,
}
use public_transport_tracker.GoMap.{GoMap, empty, assign, delete, len}
use public_transport_tracker.Broadcast.{Envelope}

-- A client is a pointer to an object that others may hold too: a number, and the object at that
-- number in the store.
abbrev pub ClientId : Type 0
ClientId = ℕ

-- The `Client` interface: `Send` answers and changes the object, `Close` changes it.
pub record ClientOps (F : Type 0) : Type 1 where
  pub Object : Type 0
  pub send : Envelope F → Object → Object × Bool
  pub close : Object → Object

-- map[Client]struct{}
pub record Hub : Type 0 where
  pub clients : GoMap ClientId (Unit {0})

unfoldable pub new_hub : Hub
new_hub = record { clients = empty }

unfoldable pub register : ClientId → Hub → Hub
register c h = record { clients = assign c tt h.clients }

unfoldable pub unregister : ClientId → Hub → Hub
unregister c h = record { clients = delete c h.clients }

unfoldable pub client_count : Hub → ℕ
client_count h = len h.clients

abbrev pub put {ℓ} : {A : Type ℓ} → (ClientId → A) → ClientId → A → ClientId → A
put store c a d = if c == d then a else store d

module _ {F : Type 0} (ops : ClientOps F) where
  open ops use {Object, send}

  abbrev pub Store : Type 0
  Store = ClientId → Object

  -- One round of the loop of `Broadcast`.
  unfoldable pub deliver : Envelope F → ClientId → Hub × Store → Hub × Store
  deliver env c (h, store) =
      let (object, sent) = send env (store c) in
      (if not sent then record { clients = delete c h.clients } else h, put store c object)

  -- The range over the clients, in the order of the visits.
  unfoldable pub broadcast : Envelope F → List ClientId → Hub × Store → Hub × Store
  broadcast env [] s = s
  broadcast env (c ∷ order) s = broadcast env order (deliver env c s)
