-- ===== src/Broadcast/Encoder/Drift.antt =====
-- How far a receiver's numbers may be from the current ones.
use public_transport_tracker.Base.{
  ℕ, zero, suc, string_eq, bool_eq, ◌≡◌, refl, ◌∙◌, Bool, true, false, Option, none, some, List,
  String, if◌then◌else◌, ==_iff, arith,
}
use public_transport_tracker.Base.Int.{int_eq}
use public_transport_tracker.GoMap.{GoMap, empty, lookup, IsMap, Enumerates}
use public_transport_tracker.Float.{Float, ◌+◌, ◌-◌, IsExactDistance}
use public_transport_tracker.Broadcast.{VehicleUpdate}
use public_transport_tracker.Broadcast.Encoder.{DeltaEncoder, new_delta_encoder, changed, encode}
use public_transport_tracker.Broadcast.Encoder.Find.{last_for, IsDistinct}
use public_transport_tracker.Broadcast.Encoder.Replay.{
  NoneRemoved, apply, apply-IsMap, apply-encode, expected, lookup-prev-encode,
}

module _ {F : Type 0} ⦃f : Float F⦄ where
  -- n times 1e-7
  abbrev pub steps : ℕ → F
  steps zero = f.lit 0 0
  steps (suc n) = steps n + f.lit 1 7

  abbrev pub is_within : ℕ → F → F → Bool
  is_within n x y = f.le (f.abs (x - y)) (steps n)

  pub record IsNear (n : ℕ) (w p : VehicleUpdate F) : Type 0 where
    pub trip : w.trip_id ≡ p.trip_id
    pub route : w.route_id ≡ p.route_id
    pub delay : w.delay_seconds ≡ p.delay_seconds
    pub lat : is_within n w.lat p.lat ≡ true
    pub lon : is_within n w.lon p.lon ≡ true
    pub bearing : is_within n w.bearing p.bearing ≡ true
    pub speed : is_within n w.speed p.speed ≡ true

  -- What the receiver has of a vehicle, against the current update.
  abbrev pub Near : ℕ → Option (VehicleUpdate F) → Option (VehicleUpdate F) → Type 0
  Near n none none = Unit
  Near n (some w) (some p) = IsNear n w p
  Near n none (some p) = ⊥
  Near n (some w) none = ⊥

  -- A receiver that has applied the deltas of n ticks, from the first one.
  pub data Follows : ℕ → DeltaEncoder F → GoMap String (VehicleUpdate F) → Type 0 where
    start : Follows 0 new_delta_encoder empty
    tick :
        {n : ℕ} {e : DeltaEncoder F} {view : GoMap String (VehicleUpdate F)}
        → Follows n e view
        → (order : List String) (current : List (VehicleUpdate F)) → IsDistinct current
        → NoneRemoved current
        → Enumerates order e.prev
        → Follows (suc n) (encode order current e).0 (apply (encode order current e).1 view)

  unchanged :
      (p v : VehicleUpdate F)
      → changed p v ≡ false
      → (p.trip_id ≡ v.trip_id)
        × (p.route_id ≡ v.route_id)
        × (p.delay_seconds ≡ v.delay_seconds)
        × (f.lt (f.lit 1 7) (f.abs (p.lat - v.lat)) ≡ false)
        × (f.lt (f.lit 1 7) (f.abs (p.lon - v.lon)) ≡ false)
        × (f.lt (f.lit 1 7) (f.abs (p.bearing - v.bearing)) ≡ false)
        × (f.lt (f.lit 1 7) (f.abs (p.speed - v.speed)) ≡ false)
  unfolding changed
  unchanged p v h = ground (
    arith,
    ==_iff p.trip_id v.trip_id,
    ==_iff p.route_id v.route_id,
    ==_iff p.delay_seconds v.delay_seconds,
  )

  Follows-IsMap :
      {n : ℕ} {e : DeltaEncoder F} {view : GoMap String (VehicleUpdate F)}
      → Follows n e view
      → IsMap view
  Follows-IsMap start = tt
  Follows-IsMap (tick {view = view} h order current d p v) = apply-IsMap _ view (Follows-IsMap h)

  module _ (exact : IsExactDistance F) where
    self_within : (n : ℕ) (x : F) → is_within n x x ≡ true
    self_within zero x = exact.self x
    self_within (suc n) x = exact.weaken _ _ (self_within n x)

    step_within :
        (n : ℕ) (w p v : F)
        → is_within n w p ≡ true
        → f.lt (f.lit 1 7) (f.abs (p - v)) ≡ false
        → is_within (suc n) w v ≡ true
    step_within n w p v near small =
        exact.triangle w p v (steps n) (f.lit 1 7) near (exact.at_most _ _ small)

    self-IsNear : (n : ℕ) (v : VehicleUpdate F) → IsNear n v v
    self-IsNear n v = record {
      trip = refl;
      route = refl;
      delay = refl;
      lat = self_within n v.lat;
      lon = self_within n v.lon;
      bearing = self_within n v.bearing;
      speed = self_within n v.speed;
    }

    step-IsNear :
        (n : ℕ) (w p v : VehicleUpdate F) → IsNear n w p → changed p v ≡ false → IsNear (suc n) w v
    step-IsNear n w p v near h =
        let (trip, route, delay, lat, lon, bearing, speed) = unchanged p v h in
        record {
          trip = near.trip ∙ trip;
          route = near.route ∙ route;
          delay = near.delay ∙ delay;
          lat = step_within n w.lat p.lat v.lat near.lat lat;
          lon = step_within n w.lon p.lon v.lon near.lon lon;
          bearing = step_within n w.bearing p.bearing v.bearing near.bearing bearing;
          speed = step_within n w.speed p.speed v.speed near.speed speed;
        }

    if_Near :
        (n : ℕ) (w p v : VehicleUpdate F) (b : Bool)
        → changed p v ≡ b
        → IsNear n w p
        → Near (suc n) (if b then some v else some w) (some v)
    if_Near n w p v true h near = self-IsNear (suc n) v
    if_Near n w p v false h near = step-IsNear n w p v near h

    expected-Near :
        (n : ℕ) (prev now old : Option (VehicleUpdate F))
        → Near n old prev
        → Near (suc n) (expected prev now old) now
    expected-Near n prev none old near = tt
    expected-Near n none (some v) old near = self-IsNear (suc n) v
    expected-Near n (some p) (some v) (some w) near = if_Near n w p v (changed p v) refl near
    expected-Near n (some p) (some v) none near = absurd near

    absent :
        (n : ℕ) (old prev : Option (VehicleUpdate F)) → Near n old prev → prev ≡ none → old ≡ none
    absent n none prev near h = refl
    absent n (some w) none near h = absurd near
    absent n (some w) (some p) near h = cc

    -- In exact arithmetic a receiver of all deltas has, after n ticks, exactly the vehicles that the
    -- encoder holds, each with the trip, the route and the delay that it has there, and with a latitude,
    -- a longitude, a bearing and a speed within n times 1e-7 of those there.
    pub Follows-Near :
        {n : ℕ} {e : DeltaEncoder F} {view : GoMap String (VehicleUpdate F)}
        → Follows n e view
        → (id : String) → Near n (lookup id view) (lookup id e.prev)
    unfolding new_delta_encoder lookup
    Follows-Near start id = tt
    Follows-Near (tick {n} {e} {view} h order current distinct present visits) id =
        let near = Follows-Near h in
        let seen =
          apply-encode order current e view distinct present visits (Follows-IsMap h)
            (λ k none_before. absent n (lookup k view) (lookup k e.prev) (near k) none_before) id in
        let kept = lookup-prev-encode order current e id in
        rw (seen, kept)
          (expected-Near n (lookup id e.prev) (last_for id current) (lookup id view) (near id))
