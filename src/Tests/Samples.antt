-- ===== src/Tests/Samples.antt =====
-- Decimal fixed-point numbers in place of `float64`, with eight digits after the point. The
-- trigonometric functions are rough: no test depends on their values.
use public_transport_tracker.Base.{
  ℕ, ◌+◌, ◌*◌, ◌/◌, ◌^◌, ◌≡◌, Bool, ◌&&◌, ◌||◌, not, if◌then◌else◌, arith, String,
}
use public_transport_tracker.Base.Int.{ℤ, pos, pos_part, neg_part, sub_ℕ, ◌+ℤ◌, ◌-ℤ◌, ltb_ℤ}
use public_transport_tracker.Float.{Float, IsOrdered, IsSelfClose}
use public_transport_tracker.Vehicle.{Position, RawUpdate, PositionFilter, RouteSnapper, Time}

abbrev pub magnitude : ℤ → ℕ
magnitude a = pos_part a + neg_part a

abbrev pub signed : Bool → ℕ → ℤ
signed negative n = if negative then sub_ℕ 0 n else pos n

abbrev is_negative : ℤ → Bool
is_negative a = ltb_ℤ a (pos 0)

abbrev differ : Bool → Bool → Bool
differ a b = a && not b || not a && b

abbrev one : ℕ
one = 10 ^ 8

abbrev pub times : ℤ → ℤ → ℤ
times a b = signed (differ (is_negative a) (is_negative b)) (magnitude a * magnitude b / one)

abbrev pub over : ℤ → ℤ → ℤ
over a b = signed (differ (is_negative a) (is_negative b)) (magnitude a * one / magnitude b)

instance abbrev pub decimal : Float ℤ
decimal = record {
  add = ◌+ℤ◌;
  sub = ◌-ℤ◌;
  mul = times;
  div = over;
  neg = λ a. pos 0 -ℤ a;
  lt = ltb_ℤ;
  le = λ a b. not (ltb_ℤ b a);
  lit = λ m e. pos (m * one / 10 ^ e);
  inf = pos (10 ^ 40);
  pi = pos 314159265;
  abs = λ a. pos (magnitude a);
  sqrt = λ a. a;
  sin = λ a. a;
  cos = λ a. pos one;
  atan2 = λ a b. a;
  mod_float = λ a b. a;
  of_nanos = λ n. signed (is_negative n) (magnitude n / 10);
}

pub decimal-IsOrdered : IsOrdered ℤ
decimal-IsOrdered = record { lt_irrefl = λ x. ground arith; lt_trans = λ x y z h k. ground arith }

sub_self : (x : ℤ) → x -ℤ x ≡ pos 0
unfolding ◌-ℤ◌
sub_self x = ground arith

pub decimal-IsSelfClose : IsSelfClose ℤ
decimal-IsSelfClose = record { self_close = λ x m e. rw sub_self (ground arith) }

-- A filter that counts its measurements and passes them on.
abbrev pub counting : PositionFilter ℤ
counting = record { Filter = ℕ; factory = 0; filter = λ n p. (n + 1, p) }

abbrev pub no_snap : RouteSnapper ℤ
no_snap p shape_id = p

abbrev pub here : ℤ → ℤ → Time → Position ℤ
here lat lon t = record { lat = lat; lon = lon; bearing = pos 0; speed = pos 0; timestamp = t }

abbrev pub report : String → Position ℤ → RawUpdate ℤ
report id p = record { vehicle_id = id; trip_id = "t1"; route_id = "r1"; position = p }
