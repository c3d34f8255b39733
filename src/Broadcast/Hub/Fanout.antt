-- ===== src/Broadcast/Hub/Fanout.antt =====
-- `Broadcast` reaches every registered client once, in whatever order the range takes.
use public_transport_tracker.Base.{
  ◌≡◌, ◌≤◌, refl, not, ◌&&◌, Option, none, List, [], ◌∷◌, if◌then◌else◌, nat_eq, ◌==◌, ==_iff,
  arith, count, presence, leb,
}
use public_transport_tracker.GoMap.{lookup, IsMap, Enumerates}
use public_transport_tracker.GoMap.Laws.{lookup-delete, delete-IsMap}
use public_transport_tracker.Broadcast.{Envelope}
use public_transport_tracker.Broadcast.Hub.{ClientId, ClientOps, Hub, Store, deliver, broadcast}

-- Whether a client is in the set.
abbrev pub registered : ClientId → Hub → Option (Unit {0})
registered c h = lookup c h.clients

module _ {F : Type 0} (ops : ClientOps F) (env : Envelope F) where
  open ops use {Object, send}

  deliver_lem :
      (i : ClientId) (h : Hub) (store : Store ops)
      → IsMap h.clients
      → let (h', store') = deliver ops env i (h, store) in
        IsMap h'.clients
        × ((c : ClientId)
            → registered c h'
              ≡ (if i == c && not (send env (store c)).1 then none else registered c h))
        × ((c : ClientId) → store' c ≡ (if i == c then (send env (store c)).0 else store c))
  unfolding deliver
  deliver_lem i h store is_map = (
    ground (arith, delete-IsMap i h.clients is_map),
    λ c. ground (arith, ==_iff i c, lookup-delete c i h.clients is_map),
    λ c. ground (arith, ==_iff i c),
  )

  -- For visits without repetition: what each client becomes, and who stays.
  broadcast_range :
      (order : List ClientId) (h : Hub) (store : Store ops)
      → IsMap h.clients
      → ((c : ClientId) → count c order ≤ 1)
      → let (h', store') = broadcast ops env order (h, store) in
        IsMap h'.clients
        × ((c : ClientId)
            → registered c h' ≡ (
                if leb 1 (count c order) && not (send env (store c)).1
                then none
                else registered c h))
        × ((c : ClientId)
            → store' c ≡ (if leb 1 (count c order) then (send env (store c)).0 else store c))
  unfolding broadcast
  broadcast_range [] h store is_map once = (is_map, λ c. refl, λ c. refl)
  broadcast_range (i ∷ order) h store is_map once =
      let (keeps, sets, objects) = deliver_lem i h store is_map in
      let next = deliver ops env i (h, store) in
      let later : (c : ClientId) → count c order ≤ 1 = λ c. omega (arith, once c) in
      let (keeps', sets', objects') = broadcast_range order next.0 next.1 keeps later in
      (
        keeps',
        λ c. ground (arith, ==_iff i c, once c, sets c, objects c, sets' c),
        λ c. ground (arith, ==_iff i c, once c, objects c, objects' c),
      )

  -- A broadcast leaves the set of clients a map.
  pub broadcast-IsMap :
      (order : List ClientId) (h : Hub) (store : Store ops)
      → IsMap h.clients
      → IsMap (broadcast ops env order (h, store)).0.clients
  unfolding broadcast
  broadcast-IsMap [] h store is_map = is_map
  broadcast-IsMap (i ∷ order) h store is_map =
      let next = deliver ops env i (h, store) in
      broadcast-IsMap order next.0 next.1 (deliver_lem i h store is_map).0

  -- Whatever order the range takes: each registered client gets the envelope once, and nobody else
  -- is touched; afterwards exactly those clients are registered that were and whose `Send`
  -- succeeded.
  pub broadcast_lem :
      (order : List ClientId) (h : Hub) (store : Store ops)
      → IsMap h.clients
      → Enumerates order h.clients
      → (c : ClientId)
      → let (h', store') = broadcast ops env order (h, store) in
        (store' c ≡ (if leb 1 (presence (registered c h)) then (send env (store c)).0 else store c))
        × (registered c h' ≡ (if (send env (store c)).1 then registered c h else none))
  broadcast_lem order h store is_map visits c =
      let once : (d : ClientId) → count d order ≤ 1 = λ d. ground (arith, visits d) in
      let (keeps, sets, objects) = broadcast_range order h store is_map once in
      (ground (arith, visits c, objects c), ground (arith, visits c, sets c))
