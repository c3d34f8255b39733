-- ===== src/Gtfs/Rows.antt =====
-- The rows that the importers of internal/gtfs/importer.go make of the records of each file.
use public_transport_tracker.Base.{string_eq, Option, none, some, List, String, if◌then◌else◌, ◌==◌}
use public_transport_tracker.Base.Int.{ℤ}
use public_transport_tracker.Vehicle.{Time}
use public_transport_tracker.Gtfs.{Row, agency, route, stop, trip, stop_time, service, service_date}
use public_transport_tracker.Gtfs.Csv.{get_field}

-- The conversions of the packages `strconv`, `time` and `fmt`: the value that each returns, also where
-- it returns an error, which the importer ignores.
pub record Conversions (F : Type 0) : Type 0 where
  pub atoi : String → ℤ
  pub parse_float : String → F
  -- time.Parse("20060102", s)
  pub parse_date : String → Time
  -- "%f"
  pub format_float : F → String

-- NULLIF(s, '')
abbrev pub null_if_empty : String → Option String
null_if_empty s = if s == "" then none else some s

abbrev pub or_default : String → String
or_default id = if id == "" then "default" else id

module _ {F : Type 0} (conv : Conversions F) (header record' : List String) where
  open conv use {atoi, parse_float, parse_date}

  field : String → String
  field name = get_field header record' name

  unfoldable pub agency_row : Row F
  unfolding field
  agency_row =
      agency (or_default (field "agency_id")) (field "agency_name") (field "agency_url")
        (field "agency_timezone") (field "agency_lang") (field "agency_phone")

  unfoldable pub route_row : Row F
  unfolding field
  route_row =
      route (field "route_id") (or_default (field "agency_id")) (field "route_short_name")
        (field "route_long_name") (atoi (field "route_type")) (field "route_color")
        (field "route_text_color") (atoi (field "route_sort_order"))

  unfoldable pub stop_row : Row F
  unfolding field
  stop_row =
      stop (field "stop_id") (field "stop_code") (field "stop_name") (atoi (field "location_type"))
        (null_if_empty (field "parent_station")) (parse_float (field "stop_lon"))
        (parse_float (field "stop_lat"))

  unfoldable pub trip_row : Row F
  unfolding field
  trip_row =
      trip (field "trip_id") (field "route_id") (field "service_id") (field "trip_headsign")
        (field "trip_short_name") (atoi (field "direction_id")) (null_if_empty (field "shape_id"))

  unfoldable pub stop_time_row : Row F
  unfolding field
  stop_time_row =
      stop_time (field "trip_id") (field "stop_id") (atoi (field "stop_sequence"))
        (field "arrival_time") (field "departure_time") (atoi (field "pickup_type"))
        (atoi (field "drop_off_type"))

  unfoldable pub service_row : Row F
  unfolding field
  service_row =
      service (field "service_id") (field "monday" == "1") (field "tuesday" == "1")
        (field "wednesday" == "1") (field "thursday" == "1") (field "friday" == "1")
        (field "saturday" == "1") (field "sunday" == "1") (parse_date (field "start_date"))
        (parse_date (field "end_date"))

  unfoldable pub service_date_row : Row F
  unfolding field
  service_date_row =
      service_date (field "service_id") (parse_date (field "date")) (atoi (field "exception_type"))
