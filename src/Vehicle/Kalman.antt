-- ===== src/Vehicle/Kalman.antt =====
-- internal/vehicle/kalman.go: the position filter. The arrays `x [4]float64` and `p [16]float64` are
-- lists of that length; every index in the code is a constant or runs over a constant range.
pub mod Filter
pub mod Predict
pub mod Correct
pub mod Symmetric
pub mod Separate
use public_transport_tracker.Base.{
  ℕ, zero, suc, ◌^◌, Bool, true, false, Option, none, some, List, [], ◌∷◌, ◌++◌, if◌then◌else◌,
  get_elem?, set, get_or, nat_beq, ltb, flat,
}
use public_transport_tracker.Base.Int.{ℤ, pos, negsuc, ltb_ℤ, ◌-ℤ◌, max_int64}
use public_transport_tracker.Float.{Float, ◌+◌, ◌-◌, ◌*◌, ◌/◌}
use public_transport_tracker.Vehicle.{Time, Position, PositionFilter}

pub record KalmanFilter (F : Type 0) : Type 0 where
  pub initialized : Bool
  pub last_time : Time
  pub x : List F
  pub p : List F
  pub process_noise : F
  pub measurement_noise : F

-- `time.Sub` saturates at the ends of `int64`.
unfoldable pub time_sub : Time → Time → ℤ
unfolding ◌-ℤ◌
time_sub t u =
    let d = t -ℤ u in
    let low = negsuc max_int64 in
    let high = pos max_int64 in if ltb_ℤ high d then high else if ltb_ℤ d low then low else d

module _ {F : Type 0} ⦃f : Float F⦄ where
  open f use {lt, le, lit, pi, abs, sqrt, sin, cos, atan2, mod_float, of_nanos, neg}

  -- a[i]
  abbrev pub at : List F → ℕ → F
  at a i = get_or (get_elem? a i) (lit 0 0)

  -- a[i] += v
  abbrev pub add_at : ℕ → F → List F → List F
  add_at i v a = set a i (at a i + v)

  -- The elements that a loop over `i < n` yields, in order.
  abbrev pub tabulate : ℕ → (ℕ → List F) → List F
  tabulate zero row = []
  tabulate (suc n) row = tabulate n row ++ row n

  unfoldable pub diag_matrix : F → F → F → F → List F
  diag_matrix d0 d1 d2 d3 =
      let o = lit 0 0 in d0 ∷ o ∷ o ∷ o ∷ o ∷ d1 ∷ o ∷ o ∷ o ∷ o ∷ d2 ∷ o ∷ o ∷ o ∷ o ∷ d3 ∷ []

  unfoldable pub new_kalman_filter : KalmanFilter F
  unfolding diag_matrix
  new_kalman_filter =
      let o = lit 0 0 in
      record {
        initialized = false;
        last_time = pos 0;
        x = o ∷ o ∷ o ∷ o ∷ [];
        p = diag_matrix o o o o;
        process_noise = lit 1 5;
        measurement_noise = lit 1 4;
      }

  meters_per_degree_lat : F
  meters_per_degree_lat = lit 111320 0

  meters_per_degree_lon : F → F
  meters_per_degree_lon lat = lit 111320 0 * cos (lat * pi / lit 180 0)

  unfoldable pub speed_bearing_to_velocity : (speed bearing lat : F) → F × F
  unfolding meters_per_degree_lat meters_per_degree_lon
  speed_bearing_to_velocity speed bearing lat =
      let bearing_rad = bearing * pi / lit 180 0 in
      (
        speed * cos bearing_rad / meters_per_degree_lat,
        speed * sin bearing_rad / meters_per_degree_lon lat,
      )

  unfoldable pub velocity_to_speed_bearing : (v_lat v_lon lat : F) → F × F
  unfolding meters_per_degree_lat meters_per_degree_lon
  velocity_to_speed_bearing v_lat v_lon lat =
      let v_lat_m = v_lat * meters_per_degree_lat in
      let v_lon_m = v_lon * meters_per_degree_lon lat in
      (sqrt (v_lat_m * v_lat_m + v_lon_m * v_lon_m), atan2 v_lon_m v_lat_m * lit 180 0 / pi)

  unfoldable pub initialize : Position F → KalmanFilter F → KalmanFilter F
  initialize m kf =
      let x = set (set kf.x 0 m.lat) 1 m.lon in
      let (v_lat, v_lon) = speed_bearing_to_velocity m.speed m.bearing m.lat in
      record kf {
        x = if lt (lit 0 0) m.speed then set (set x 2 v_lat) 3 v_lon else x;
        p = diag_matrix kf.measurement_noise kf.measurement_noise (lit 1 4) (lit 1 4);
        initialized = true;
        last_time = m.timestamp;
      }

  -- The process noise of a step, raised after a gap of more than 30 seconds.
  unfoldable pub noise_of : F → F → F
  noise_of process_noise dt =
      let q = process_noise * dt in if lt (lit 30 0) dt then q * (dt / lit 10 0) else q

  unfoldable pub predict_state : F → List F → List F
  predict_state dt x0 = let x1 = add_at 0 (at x0 2 * dt) x0 in add_at 1 (at x1 3 * dt) x1

  -- F·P·Fᵀ in place, statement by statement.
  unfoldable pub transition : F → List F → List F
  transition dt p0 =
      let p1 = add_at 0 (dt * (at p0 8 + at p0 2) + dt * dt * at p0 10) p0 in
      let p2 = add_at 1 (dt * (at p1 9 + at p1 3) + dt * dt * at p1 11) p1 in
      let p3 = add_at 2 (dt * at p2 10) p2 in
      let p4 = add_at 3 (dt * at p3 11) p3 in
      let p5 = add_at 4 (dt * (at p4 12 + at p4 6) + dt * dt * at p4 14) p4 in
      let p6 = add_at 5 (dt * (at p5 13 + at p5 7) + dt * dt * at p5 15) p5 in
      let p7 = add_at 6 (dt * at p6 14) p6 in
      let p8 = add_at 7 (dt * at p7 15) p7 in
      let p9 = add_at 8 (dt * at p8 10) p8 in
      let p10 = add_at 9 (dt * at p9 11) p9 in
      let p11 = add_at 12 (dt * at p10 14) p10 in add_at 13 (dt * at p11 15) p11

  unfoldable pub add_noise : F → List F → List F
  add_noise q p = add_at 15 (q * lit 1 1) (add_at 10 (q * lit 1 1) (add_at 5 q (add_at 0 q p)))

  unfoldable pub predict : F → KalmanFilter F → KalmanFilter F
  predict dt kf = record kf {
    x = predict_state dt kf.x;
    p = add_noise (noise_of kf.process_noise dt) (transition dt kf.p);
  }

  -- K = P·Hᵀ·S⁻¹, for the innovation covariance S = [[s00, s01], [s10, s11]].
  unfoldable pub gain : (s00 s01 s10 s11 det : F) → List F → List F
  gain s00 s01 s10 s11 det p =
      let inv_det = lit 1 0 / det in
      let si00 = s11 * inv_det in
      let si01 = neg s01 * inv_det in
      let si10 = neg s10 * inv_det in
      let si11 = s00 * inv_det in
      tabulate 4 λ i.
        let pi0 = at p (flat 4 i 0) in
        let pi1 = at p (flat 4 i 1) in (pi0 * si00 + pi1 * si10) ∷ (pi0 * si01 + pi1 * si11) ∷ []

  -- x = x + K·y
  unfoldable pub correct_state : List F → F → F → List F → List F
  correct_state k y_lat y_lon x =
      tabulate 4 λ i. (at x i + (at k (flat 2 i 0) * y_lat + at k (flat 2 i 1) * y_lon)) ∷ []

  -- (I - K·H)[i][l]; only the first two columns of K·H are not zero.
  unfoldable pub factor : List F → ℕ → ℕ → F
  factor k i l =
      let ikhl = if ltb l 2 then at k (flat 2 i l) else lit 0 0 in
      (if nat_beq i l then lit 1 0 else lit 0 0) - ikhl

  -- The sum over `l < n` of (I - K·H)[i][l] · oldP[l][j].
  unfoldable pub row_sum : List F → List F → ℕ → ℕ → ℕ → F
  row_sum k old_p i j zero = lit 0 0
  row_sum k old_p i j (suc l) = row_sum k old_p i j l + factor k i l * at old_p (flat 4 l j)

  -- P = (I - K·H)·P
  unfoldable pub correct_covariance : List F → List F → List F
  correct_covariance k old_p = tabulate 4 λ i. tabulate 4 λ j. row_sum k old_p i j 4 ∷ []

  -- The soft velocity constraint.
  unfoldable pub blend : Position F → List F → List F
  blend m x =
      let (v_lat, v_lon) = speed_bearing_to_velocity m.speed m.bearing m.lat in
      let alpha = lit 3 1 in
      let x1 = set x 2 (at x 2 * (lit 1 0 - alpha) + v_lat * alpha) in
      if lt (lit 0 0) m.speed then set x1 3 (at x1 3 * (lit 1 0 - alpha) + v_lon * alpha) else x

  -- The determinant of the innovation covariance.
  unfoldable pub innovation_det : KalmanFilter F → F
  innovation_det kf =
      (at kf.p 0 + kf.measurement_noise) * (at kf.p 5 + kf.measurement_noise)
      - at kf.p 1 * at kf.p 4

  -- The rest of `update`, behind the test of the determinant.
  unfoldable pub correct : Position F → KalmanFilter F → KalmanFilter F
  correct m kf =
      let y_lat = m.lat - at kf.x 0 in
      let y_lon = m.lon - at kf.x 1 in
      let s00 = at kf.p 0 + kf.measurement_noise in
      let s11 = at kf.p 5 + kf.measurement_noise in
      let k = gain s00 (at kf.p 1) (at kf.p 4) s11 (innovation_det kf) kf.p in
      record kf { x = blend m (correct_state k y_lat y_lon kf.x); p = correct_covariance k kf.p }

  -- A degenerate innovation covariance skips the update.
  unfoldable pub update : Position F → KalmanFilter F → KalmanFilter F
  update m kf = if lt (abs (innovation_det kf)) (lit 1 20) then kf else correct m kf

  unfoldable pub position : Time → KalmanFilter F → Position F
  position ts kf =
      let (speed, bearing) = velocity_to_speed_bearing (at kf.x 2) (at kf.x 3) (at kf.x 0) in
      record {
        lat = at kf.x 0;
        lon = at kf.x 1;
        bearing = mod_float (bearing + lit 360 0) (lit 360 0);
        speed = if lt speed (lit 0 0) then lit 0 0 else speed;
        timestamp = ts;
      }

  -- The time step, 1 second where the clock has not advanced.
  unfoldable pub time_step : Time → Time → F
  unfolding time_sub
  time_step now last =
      let dt = of_nanos (time_sub now last) in if le dt (lit 0 0) then lit 1 0 else dt

  unfoldable pub filter : KalmanFilter F → Position F → KalmanFilter F × Position F
  filter kf m =
      let dt = time_step m.timestamp kf.last_time in
      let next = record (update m (predict dt kf)) { last_time = m.timestamp } in
      if kf.initialized then (next, position m.timestamp next) else (initialize m kf, m)

  -- The filter of `NewKalmanFilter` behind the interface.
  unfoldable pub kalman : PositionFilter F
  kalman = record { Filter = KalmanFilter F; factory = new_kalman_filter; filter = filter }
