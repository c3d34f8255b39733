-- ===== src/Tracker/Mirror.antt =====
-- A receiver of every envelope mirrors the vehicles of the manager.
use public_transport_tracker.Base.{
  is_empty, string_eq, nat_eq, ◌≡◌, refl, ◌∙◌, ap, Bool, Option, List, [], ◌∷◌, ◌++◌, String,
  if◌then◌else◌, arith, presence, inl, inr, nat_beq, Bool-cases, map,
}
use public_transport_tracker.Float.{Float}
use public_transport_tracker.GoMap.{GoMap, empty, lookup, IsMap, Enumerates}
use public_transport_tracker.GoMap.Laws.{assign-IsMap, delete-IsMap}
use public_transport_tracker.Vehicle.{PositionFilter, RouteSnapper}
use public_transport_tracker.Vehicle.Manager.{get, all}
use public_transport_tracker.Vehicle.Manager.Reads.{
  IsValid, new_default_state_manager-IsValid, update-IsValid,
}
use public_transport_tracker.Vehicle.Manager.Prune.{prune_lem}
use public_transport_tracker.Broadcast.{Envelope, VehicleUpdate, state_to_update}
use public_transport_tracker.Broadcast.Encoder.{encode}
use public_transport_tracker.Broadcast.Encoder.Replay.{
  apply, apply-IsMap, apply-encode, expected, lookup-prev-encode, prev-encode-IsMap,
}
use public_transport_tracker.Broadcast.Hub.{ClientId, register, unregister, client_count}
use public_transport_tracker.Broadcast.Hub.Fanout.{broadcast-IsMap}
use public_transport_tracker.Broadcast.WsClient.{WsClient, connect, disconnect, ws_ops}
use public_transport_tracker.Tracker.{
  Loop, waiting, counted, encoded, System, initial, current_updates, envelope, tick_count,
  tick_encode, tick_send, tick_prune, tick_update, arrive, leave, stale_before, Step, updates,
  prunes, counts, encodes, sends, arrives, leaves, pumps, Reach, here, next,
}
use public_transport_tracker.Tracker.Snapshot.{all-updates, update_of}

module _ {F : Type 0} where
  -- What a receiver of the envelopes has.
  abbrev pub receive :
      List (Envelope F) → GoMap String (VehicleUpdate F) → GoMap String (VehicleUpdate F)
  receive [] view = view
  receive (env ∷ envs) view = receive envs (apply env.vehicles view)

  receive-append :
      (envs : List (Envelope F)) (env : Envelope F) (view : GoMap String (VehicleUpdate F))
      → receive (envs ++ env ∷ []) view ≡ apply env.vehicles (receive envs view)
  receive-append [] env view = refl
  receive-append (e ∷ envs) env view = receive-append envs env (apply e.vehicles view)

  -- The delta that the broadcast loop is about to send.
  abbrev pub pending : Loop F → List (VehicleUpdate F)
  pending waiting = []
  pending counted = []
  pending (encoded delta) = delta

module _ {F Filter Bytes : Type 0} where
  abbrev pub view : System F Filter Bytes → GoMap String (VehicleUpdate F)
  view s = receive s.sent empty

  -- The view once the pending delta has arrived.
  abbrev pub next_view : System F Filter Bytes → GoMap String (VehicleUpdate F)
  next_view s = apply (pending s.loop) (view s)

  pub record IsMirrored (s : System F Filter Bytes) : Type 0 where
    pub valid : IsValid s.manager
    pub previous : IsMap s.encoder.prev
    pub registered : IsMap s.hub.clients
    pub viewed : IsMap (view s)
    pub mirrored :
        (id : String) → presence (lookup id (next_view s)) ≡ presence (lookup id s.encoder.prev)

module _ {F Bytes : Type 0} ⦃f : Float F⦄ (pf : PositionFilter F) (snap : RouteSnapper F)
    (marshal : Envelope F → Option Bytes) (pick : Envelope F → WsClient Bytes → Bool) where
  open pf use {Filter}

  initial-IsMirrored : IsMirrored (initial pf snap marshal pick)
  unfolding initial apply lookup
  initial-IsMirrored = record {
    valid = new_default_state_manager-IsValid;
    previous = tt;
    registered = tt;
    viewed = tt;
    mirrored = λ id. refl;
  }

  tick_count-IsMirrored :
      (s : System F Filter Bytes)
      → IsMirrored s
      → s.loop ≡ waiting
      → IsMirrored (tick_count pf snap marshal pick s)
  unfolding tick_count
  tick_count-IsMirrored s h e = elim (Bool-cases (nat_beq (client_count s.hub) 0)) [
    | inl b ↦ rw b (record {
      valid = h.valid;
      previous = h.previous;
      registered = h.registered;
      viewed = h.viewed;
      mirrored = λ id. rw e at (h.mirrored id);
    })
    | inr b ↦ rw b (record {
      valid = h.valid;
      previous = h.previous;
      registered = h.registered;
      viewed = h.viewed;
      mirrored = λ id. rw e at (h.mirrored id);
    })
  ]

  pub pending-if :
      (delta : List (VehicleUpdate F))
      → pending (if is_empty delta then waiting else encoded delta) ≡ delta
  pending-if [] = refl
  pending-if (u ∷ us) = refl

  -- The encoder and the view after `All` and `Encode`.
  tick_encode-view :
      (s : System F Filter Bytes) (vehicles previous : List String)
      → IsMirrored s
      → s.loop ≡ counted
      → Enumerates vehicles s.manager.vehicles
      → Enumerates previous s.encoder.prev
      → (id : String)
      → let t = tick_encode pf snap marshal pick vehicles previous s in
        (lookup id t.encoder.prev ≡ update_of (get s.manager id))
        × (lookup id (next_view t)
            ≡ expected
                (lookup id s.encoder.prev)
                (update_of (get s.manager id))
                (lookup id (view s)))
  unfolding tick_encode current_updates
  tick_encode-view s vehicles previous h e vs ps id =
      let (distinct, present, lasts) = all-updates vehicles s.manager h.valid vs in
      let current = map state_to_update (all vehicles s.manager) in
      let known : (k : String) → presence (lookup k (view s)) ≡ presence (lookup k s.encoder.prev) =
        λ k. unfold apply in (rw e at (h.mirrored k)) in
      (
        lookup-prev-encode previous current s.encoder id ∙ lasts id,
        ap (λ d. lookup id (apply d (view s))) (pending-if (encode previous current s.encoder).1)
            ∙ apply-encode previous current s.encoder (view s) distinct present ps h.viewed
                (λ k none_before. ground (arith, known k)) id
            ∙ ap (λ o. expected (lookup id s.encoder.prev) o (lookup id (view s))) (lasts id),
      )

  tick_encode-IsMirrored :
      (s : System F Filter Bytes) (vehicles previous : List String)
      → IsMirrored s
      → s.loop ≡ counted
      → Enumerates vehicles s.manager.vehicles
      → Enumerates previous s.encoder.prev
      → IsMirrored (tick_encode pf snap marshal pick vehicles previous s)
  unfolding tick_encode
  tick_encode-IsMirrored s vehicles previous h e vs ps = record {
    valid = h.valid;
    previous = prev-encode-IsMap previous _ s.encoder;
    registered = h.registered;
    viewed = h.viewed;
    mirrored = λ id.
        let (now, then_seen) = tick_encode-view s vehicles previous h e vs ps id in
        let known : presence (lookup id (view s)) ≡ presence (lookup id s.encoder.prev) =
          unfold apply in (rw e at (h.mirrored id)) in
        ground arith;
  }

  tick_send-IsMirrored :
      (s : System F Filter Bytes) (order : List ClientId) (delta : List (VehicleUpdate F))
      → IsMirrored s
      → s.loop ≡ encoded delta
      → IsMirrored (tick_send pf snap marshal pick order delta s)
  unfolding tick_send
  tick_send-IsMirrored s order delta h e = record {
    valid = h.valid;
    previous = h.previous;
    registered =
        broadcast-IsMap (ws_ops marshal pick) (envelope pf snap marshal pick delta) order s.hub
          s.clients h.registered;
    viewed = rw receive-append (apply-IsMap delta (view s) h.viewed);
    mirrored = λ id. unfold apply in rw receive-append (rw e at (h.mirrored id));
  }

  Step-IsMirrored :
      {s t : System F Filter Bytes} → IsMirrored s → Step pf snap marshal pick s t → IsMirrored t
  Step-IsMirrored {s} h (updates u) =
      unfold tick_update in
      record {
        valid = update-IsValid pf snap u s.manager h.valid;
        previous = h.previous;
        registered = h.registered;
        viewed = h.viewed;
        mirrored = h.mirrored;
      }
  Step-IsMirrored {s} h (prunes order now visits) =
      unfold tick_prune in
      record {
        valid = (prune_lem (stale_before now) order s.manager h.valid visits).2;
        previous = h.previous;
        registered = h.registered;
        viewed = h.viewed;
        mirrored = h.mirrored;
      }
  Step-IsMirrored {s} h (counts e) = tick_count-IsMirrored s h e
  Step-IsMirrored {s} h (encodes vehicles previous e vs ps) =
      tick_encode-IsMirrored s vehicles previous h e vs ps
  Step-IsMirrored {s} h (sends order delta e visits) = tick_send-IsMirrored s order delta h e
  Step-IsMirrored {s} h (arrives c) =
      unfold arrive connect register in
      record {
        valid = h.valid;
        previous = h.previous;
        registered = assign-IsMap c tt s.hub.clients h.registered;
        viewed = h.viewed;
        mirrored = h.mirrored;
      }
  Step-IsMirrored {s} h (leaves c) =
      unfold leave disconnect unregister in
      record {
        valid = h.valid;
        previous = h.previous;
        registered = delete-IsMap c s.hub.clients h.registered;
        viewed = h.viewed;
        mirrored = h.mirrored;
      }
  Step-IsMirrored {s} h (pumps clients) = record {
    valid = h.valid;
    previous = h.previous;
    registered = h.registered;
    viewed = h.viewed;
    mirrored = h.mirrored;
  }

  -- In every reachable state, whatever the interleaving of updates, prunes, ticks and connections:
  -- the manager is valid, the maps have no key twice, and a receiver of all envelopes so far has,
  -- with the delta that is about to be sent, exactly the vehicles of the encoder's last snapshot.
  pub Reach-IsMirrored : {s : System F Filter Bytes} → Reach pf snap marshal pick s → IsMirrored s
  Reach-IsMirrored here = initial-IsMirrored
  Reach-IsMirrored (next r st) = Step-IsMirrored (Reach-IsMirrored r) st

  -- A tick that goes on behind its count, in any reachable state, takes the manager's vehicles over:
  -- the encoder then holds the update of each vehicle's current state and of no other vehicle, and a
  -- receiver of all envelopes that gets the pending delta has the same vehicles: with their current
  -- update if they are new or changed since the tick before, and with what it had of them if not.
  pub Reach-tick_encode :
      {s : System F Filter Bytes} (vehicles previous : List String)
      → Reach pf snap marshal pick s
      → s.loop ≡ counted
      → Enumerates vehicles s.manager.vehicles
      → Enumerates previous s.encoder.prev
      → (id : String)
      → let t = tick_encode pf snap marshal pick vehicles previous s in
        (lookup id t.encoder.prev ≡ update_of (get s.manager id))
        × (lookup id (next_view t)
            ≡ expected
                (lookup id s.encoder.prev)
                (update_of (get s.manager id))
                (lookup id (view s)))
  Reach-tick_encode {s} vehicles previous r =
      tick_encode-view s vehicles previous (Reach-IsMirrored r)
