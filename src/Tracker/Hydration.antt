-- ===== src/Tracker/Hydration.antt =====
-- A page that has read `GET /api/vehicles`, which `All` answers, and then gets the delta of a tick.
use public_transport_tracker.Base.{
  string_eq, refl, Bool, false, ◌≡◌, ◌∙◌, ap, Option, none, some, List, String, if◌then◌else◌,
  arith, map,
}
use public_transport_tracker.Float.{Float}
use public_transport_tracker.GoMap.{GoMap, empty, lookup, IsMap, Enumerates}
use public_transport_tracker.Vehicle.{PositionFilter, RouteSnapper}
use public_transport_tracker.Vehicle.Manager.{DefaultStateManager, get, all}
use public_transport_tracker.Vehicle.Manager.Reads.{IsValid}
use public_transport_tracker.Broadcast.{Envelope, VehicleUpdate, state_to_update}
use public_transport_tracker.Broadcast.Encoder.{is_news, encode}
use public_transport_tracker.Broadcast.Encoder.Find.{last_for}
use public_transport_tracker.Broadcast.Encoder.Delta.{delta_of}
use public_transport_tracker.Broadcast.Encoder.Replay.{
  apply, apply-IsMap, effect, lookup-apply, is_removed, last_for-removed, lookup-apply-encode,
}
use public_transport_tracker.Broadcast.WsClient.{WsClient}
use public_transport_tracker.Tracker.{System, counted, tick_encode, current_updates, Reach}
use public_transport_tracker.Tracker.Snapshot.{all-updates, update_of}
use public_transport_tracker.Tracker.Mirror.{pending, pending-if, Reach-IsMirrored}

module _ {F Filter : Type 0} where
  -- The page behind the answer, for an order of the range in `All`.
  abbrev pub page : List String → DefaultStateManager F Filter → GoMap String (VehicleUpdate F)
  page order m = apply (map state_to_update (all order m)) empty

  page-IsMap : (order : List String) (m : DefaultStateManager F Filter) → IsMap (page order m)
  page-IsMap order m = apply-IsMap (map state_to_update (all order m)) empty tt

  lookup-page :
      (order : List String) (m : DefaultStateManager F Filter)
      → IsValid m
      → Enumerates order m.vehicles
      → (id : String) → lookup id (page order m) ≡ update_of (get m id)
  lookup-page order m v visits id =
      let us = map state_to_update (all order m) in
      let (_, present, lasts) = all-updates order m v visits in
      unfold lookup in
      ground (arith, lookup-apply id us empty tt, last_for-removed id us present, lasts id)

module _ {F : Type 0} ⦃f : Float F⦄ where
  -- What the page has of a vehicle: by the update at the tick before, the one now, and the one read.
  abbrev pub hydrated :
      Option (VehicleUpdate F)
      → Option (VehicleUpdate F)
      → Option (VehicleUpdate F)
      → Option (VehicleUpdate F)
  hydrated none none read = read
  hydrated (some p) none read = none
  hydrated prev (some v) read = if is_news prev v then some v else read

  delta_of-hydrated :
      (id : String) (prev now read : Option (VehicleUpdate F))
      → is_removed now ≡ false
      → effect (delta_of prev id now) read ≡ hydrated prev now read
  delta_of-hydrated id none none read h = refl
  delta_of-hydrated id (some p) none read h = refl
  delta_of-hydrated id none (some v) read h = ground arith
  delta_of-hydrated id (some p) (some v) read h = ground arith

module _ {F Bytes : Type 0} ⦃f : Float F⦄ (pf : PositionFilter F) (snap : RouteSnapper F)
    (marshal : Envelope F → Option Bytes) (pick : Envelope F → WsClient Bytes → Bool) where
  open pf use {Filter}

  -- A page that has read the vehicles of a reachable state, and then gets the pending delta of a tick in
  -- a reachable state, has of each vehicle: the current update, if it is new or changed since the tick
  -- before; nothing, if it is gone since then; and what was read in every other case.
  pub page-tick_encode :
      {r s : System F Filter Bytes} (read_order vehicles previous : List String)
      → Reach pf snap marshal pick r
      → Enumerates read_order r.manager.vehicles
      → Reach pf snap marshal pick s
      → s.loop ≡ counted
      → Enumerates vehicles s.manager.vehicles
      → Enumerates previous s.encoder.prev
      → (id : String)
      → let t = tick_encode pf snap marshal pick vehicles previous s in
        lookup id (apply (pending t.loop) (page read_order r.manager))
        ≡ hydrated
            (lookup id s.encoder.prev)
            (update_of (get s.manager id))
            (update_of (get r.manager id))
  page-tick_encode {r} {s} read_order vehicles previous read rs reach e vs ps id =
      let h = Reach-IsMirrored pf snap marshal pick reach in
      let known = Reach-IsMirrored pf snap marshal pick read in
      let (distinct, present, lasts) = all-updates vehicles s.manager h.valid vs in
      let current = map state_to_update (all vehicles s.manager) in
      let start = page read_order r.manager in
      let prev = lookup id s.encoder.prev in
      unfold tick_encode current_updates in
      ap (λ d. lookup id (apply d start))
        (pending-if pf snap marshal pick (encode previous current s.encoder).1)
      ∙ lookup-apply-encode previous current s.encoder start distinct ps
          (page-IsMap read_order r.manager) id
      ∙ delta_of-hydrated id prev (last_for id current) (lookup id start)
          (last_for-removed id current present)
      ∙ ap (λ o. hydrated prev o (lookup id start)) (lasts id)
      ∙ ap (λ o. hydrated prev (update_of (get s.manager id)) o)
          (lookup-page read_order r.manager known.valid rs id)
