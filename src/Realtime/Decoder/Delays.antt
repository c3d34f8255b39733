-- ===== src/Realtime/Decoder/Delays.antt =====
-- Which delay a feed reports for a trip.
use public_transport_tracker.Base.{
  string_eq, ◌≡◌, refl, Option, none, some, List, [], ◌∷◌, String, if◌then◌else◌, ◌==◌, ==_iff,
  or_else, arith, not, ◌&&◌, is_some, Option-cases, inl, inr,
}
use public_transport_tracker.Base.Int.{ℤ}
use public_transport_tracker.GoMap.{GoMap, empty, lookup}
use public_transport_tracker.GoMap.Laws.{lookup-assign}
use public_transport_tracker.Realtime.Decoder.{
  Bindings, last_arrival_delay, delay_entry, record_delay, delay_range, decode_delays,
}

module _ {F Bytes : Type 0} (pb : Bindings F Bytes) where
  open pb use {Entity}

  -- The delay that one entity reports for a trip: nothing if it is of another trip or names none,
  -- the delay of the update if there is one, and else that of the last stop time update.
  abbrev pub reports : String → Entity → Option ℤ
  reports id entity = elim (pb.entity_trip_update entity) [
    | none ↦ none
    | some tu ↦
        if is_some (pb.update_trip tu) && (not (id == "") && pb.trip_id (pb.update_trip tu) == id)
        then or_else (pb.delay tu) (last_arrival_delay pb tu)
        else none
  ]

  -- The last report of a feed for a trip.
  abbrev pub last_report : String → List Entity → Option ℤ
  last_report id [] = none
  last_report id (entity ∷ entities) = or_else (last_report id entities) (reports id entity)

  lookup-record_delay :
      (id : String) (entity : Entity) (delays : GoMap String ℤ)
      → lookup id (record_delay (delay_entry pb entity) delays)
        ≡ or_else (reports id entity) (lookup id delays)
  unfolding record_delay delay_entry
  lookup-record_delay id entity delays = elim (Option-cases (pb.entity_trip_update entity)) [
    | inl e ↦ ground arith
    | inr (tu, e) ↦
        let trip = pb.trip_id (pb.update_trip tu) in
        elim (Option-cases (or_else (pb.delay tu) (last_arrival_delay pb tu))) [
          | inl e' ↦ ground arith
          | inr (d, e') ↦
              ground (
                arith,
                lookup-assign id trip d delays,
                ==_iff trip id,
                ==_iff trip "",
                ==_iff id "",
              )
        ]
  ]

  lookup-delay_range :
      (id : String) (entities : List Entity) (delays : GoMap String ℤ)
      → lookup id (delay_range pb entities delays)
        ≡ or_else (last_report id entities) (lookup id delays)
  unfolding delay_range
  lookup-delay_range id [] delays = refl
  lookup-delay_range id (entity ∷ entities) delays =
      let delays' = record_delay (delay_entry pb entity) delays in
      ground (arith, lookup-delay_range id entities delays', lookup-record_delay id entity delays)

  -- The delay that `DecodeDelays` holds for a trip is the last one that the feed reports for it; a
  -- trip without a report, and the empty trip ID, have none.
  pub decode_delays-last_report :
      (message : Bytes) (entities : List Entity)
      → pb.unmarshal message ≡ some entities
      → (delays : GoMap String ℤ) × (decode_delays pb message ≡ some delays)
        × ((id : String) → lookup id delays ≡ last_report id entities)
  unfolding decode_delays
  decode_delays-last_report message entities e = (
    delay_range pb entities empty,
    ground arith,
    λ id. unfold lookup in ground (arith, lookup-delay_range id entities empty),
  )
