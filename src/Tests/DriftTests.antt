-- ===== src/Tests/DriftTests.antt =====
-- A receiver over two ticks, with numbers whose difference is their distance.
use public_transport_tracker.Base.{
  string_eq, ℕ, ◌+◌, ◌*◌, ◌-◌, ◌/◌, ◌^◌, ◌≡◌, refl, false, List, [], ◌∷◌, String, arith, ltb, leb,
}
use public_transport_tracker.Base.Int.{pos}
use public_transport_tracker.GoMap.{GoMap, empty, lookup, assign}
use public_transport_tracker.Float.{Float, IsExactDistance}
use public_transport_tracker.Broadcast.{VehicleUpdate}
use public_transport_tracker.Broadcast.Encoder.{
  DeltaEncoder, new_delta_encoder, encode, index_by_id, add_changed, add_removed, changed,
}
use public_transport_tracker.Broadcast.Encoder.Replay.{apply}
use public_transport_tracker.Broadcast.Encoder.Drift.{Follows, start, tick, Near, Follows-Near}

-- In units of 1e-7.
instance abbrev distances : Float ℕ
distances = record {
  add = ◌+◌;
  sub = λ a b. a - b + (b - a);
  mul = ◌*◌;
  div = ◌/◌;
  neg = λ a. a;
  lt = ltb;
  le = leb;
  lit = λ m e. m * 10 ^ 7 / 10 ^ e;
  inf = 10 ^ 40;
  pi = 31415926;
  abs = λ a. a;
  sqrt = λ a. a;
  sin = λ a. 0;
  cos = λ a. 1;
  atan2 = λ a b. 0;
  mod_float = λ a b. a;
  of_nanos = λ n. 0;
}

distances-IsExactDistance : IsExactDistance ℕ
distances-IsExactDistance = record {
  self = λ x. ground arith;
  weaken = λ x y h. ground arith;
  at_most = λ x y h. ground arith;
  triangle = λ x y z a b h k. ground arith;
}

abbrev standing_at : ℕ → List (VehicleUpdate ℕ)
standing_at lat =
    record {
      vehicle_id = "a";
      trip_id = "t";
      route_id = "r";
      lat = lat;
      lon = 0;
      bearing = 0;
      speed = 0;
      delay_seconds = pos 0;
      removed = false;
    }
    ∷ []

program : Unit {0}
unfolding new_delta_encoder encode add_changed add_removed changed index_by_id lookup assign apply
program = tt

abbrev first_tick : DeltaEncoder ℕ
first_tick = (encode [] (standing_at 3) new_delta_encoder).0

abbrev first_view : GoMap String (VehicleUpdate ℕ)
first_view = apply (encode [] (standing_at 3) new_delta_encoder).1 empty

abbrev second_tick : DeltaEncoder ℕ
second_tick = (encode ("a" ∷ []) (standing_at 4) first_tick).0

abbrev second_view : GoMap String (VehicleUpdate ℕ)
second_view = apply (encode ("a" ∷ []) (standing_at 4) first_tick).1 first_view

second-Follows : Follows 2 second_tick second_view
unfolding program
second-Follows =
    tick (tick start [] (standing_at 3) (refl, tt) (refl, tt) (λ k. refl)) ("a" ∷ [])
      (standing_at 4) (refl, tt) (refl, tt) (λ k. ground arith)

Follows-Near_example : Near 2 (lookup "a" second_view) (lookup "a" second_tick.prev)
Follows-Near_example = Follows-Near distances-IsExactDistance second-Follows "a"

-- The second step is not sent.
one_step_behind : lookup "a" second_view ≡ lookup "a" first_tick.prev
unfolding program
one_step_behind = refl
