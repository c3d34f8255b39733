-- ===== src/Realtime/Decoder/Positions.antt =====
-- Which updates a feed yields.
use public_transport_tracker.Base.{
  string_eq, nat_eq, ◌≡◌, ◌≢◌, refl, sym, ap, ◌∙◌, true, false, none, some, List, [], ◌∷◌, ◌++◌,
  String, ◌==◌, All, arith, Bool-cases, Option-cases, inl, inr, append-nil, append_assoc,
}
use public_transport_tracker.Vehicle.{Time, RawUpdate}
use public_transport_tracker.Realtime.Decoder.{
  Bindings, unix, to_int64, vehicle_id_of, update_of, decode_entity, decode_range,
  decode_vehicle_positions,
}

module _ {F Bytes : Type 0} (pb : Bindings F Bytes) (now : pb.Entity → Time) where
  open pb use {Entity}

  -- Which vehicle an entity speaks of: the one that its descriptor names, or else the entity itself.
  pub data Names (entity : Entity) (vp : pb.VehiclePosition) : String → Type 0 where
    by_descriptor :
        (v : pb.VehicleDescriptor)
        → pb.descriptor vp ≡ some v
        → (pb.descriptor_id v == "") ≡ false
        → Names entity vp (pb.descriptor_id v)
    without_descriptor : pb.descriptor vp ≡ none → Names entity vp (pb.entity_id entity)
    without_name :
        (v : pb.VehicleDescriptor)
        → pb.descriptor vp ≡ some v
        → (pb.descriptor_id v == "") ≡ true
        → Names entity vp (pb.entity_id entity)

  vehicle_id_of-Names :
      (entity : Entity) (vp : pb.VehiclePosition) → Names entity vp (vehicle_id_of pb entity vp)
  unfolding vehicle_id_of
  vehicle_id_of-Names entity vp = elim (Option-cases (pb.descriptor vp)) [
    | inl e ↦ rw e (without_descriptor e)
    | inr (v, e) ↦ elim (Bool-cases (pb.descriptor_id v == "")) [
      | inl empty ↦ rw (e, empty) (without_name v e empty)
      | inr named ↦ rw (e, named) (by_descriptor v e named)
    ]
  ]

  -- What the update of an entity says.
  pub record Tells (entity : Entity) (vp : pb.VehiclePosition) (geo : pb.GeoPosition)
      (u : RawUpdate F) : Type 0 where
    pub names : Names entity vp u.vehicle_id
    pub trip : u.trip_id ≡ pb.trip_id (pb.vehicle_trip vp)
    pub route : u.route_id ≡ pb.route_id (pb.vehicle_trip vp)
    pub place : (u.position.lat ≡ pb.latitude geo) × (u.position.lon ≡ pb.longitude geo)
    pub motion : (u.position.bearing ≡ pb.bearing geo) × (u.position.speed ≡ pb.speed geo)
    -- the time of the report, or the time of the decoding where there is none
    pub dated : pb.timestamp vp ≢ 0 → u.position.timestamp ≡ unix (to_int64 (pb.timestamp vp))
    pub undated : pb.timestamp vp ≡ 0 → u.position.timestamp ≡ now entity

  -- The updates of a feed: one for each entity that has a vehicle with a position, in their order.
  pub data Reports : List Entity → List (RawUpdate F) → Type 0 where
    nothing : Reports [] []
    no_vehicle :
        {entity : Entity} {entities : List Entity} {us : List (RawUpdate F)}
        → pb.entity_vehicle entity ≡ none
        → Reports entities us
        → Reports (entity ∷ entities) us
    no_position :
        {entity : Entity} {entities : List Entity} {us : List (RawUpdate F)}
        (vp : pb.VehiclePosition)
        → pb.entity_vehicle entity ≡ some vp
        → pb.position vp ≡ none
        → Reports entities us
        → Reports (entity ∷ entities) us
    reported :
        {entity : Entity} {entities : List Entity} {u : RawUpdate F} {us : List (RawUpdate F)}
        (vp : pb.VehiclePosition) (geo : pb.GeoPosition)
        → pb.entity_vehicle entity ≡ some vp
        → pb.position vp ≡ some geo
        → Tells entity vp geo u
        → Reports entities us
        → Reports (entity ∷ entities) (u ∷ us)

  update_of-Tells :
      (entity : Entity) (vp : pb.VehiclePosition) (geo : pb.GeoPosition)
      → Tells entity vp geo (update_of pb (now entity) entity vp geo)
  unfolding update_of
  update_of-Tells entity vp geo = record {
    names = vehicle_id_of-Names entity vp;
    trip = refl;
    route = refl;
    place = (refl, refl);
    motion = (refl, refl);
    dated = λ h. ground arith;
    undated = λ h. rw h refl;
  }

  decode_range-Reports :
      (entities : List Entity) (before : List (RawUpdate F))
      → (us : List (RawUpdate F)) × (decode_range pb now entities before ≡ before ++ us)
        × Reports entities us
  unfolding decode_range decode_entity
  decode_range-Reports [] before = ([], sym (append-nil before), nothing)
  decode_range-Reports (entity ∷ entities) before = elim (Option-cases (pb.entity_vehicle entity)) [
    | inl e ↦
        let (us, joined, rest) = decode_range-Reports entities before in
        (us, rw e joined, no_vehicle e rest)
    | inr (vp, e) ↦ elim (Option-cases (pb.position vp)) [
      | inl e' ↦
          let (us, joined, rest) = decode_range-Reports entities before in
          (us, rw (e, e') joined, no_position vp e e' rest)
      | inr (geo, e') ↦
          let u = update_of pb (now entity) entity vp geo in
          let (us, joined, rest) = decode_range-Reports entities (before ++ u ∷ []) in
          (
            u ∷ us,
            rw (e, e') (joined ∙ append_assoc before (u ∷ []) us),
            reported vp geo e e' (update_of-Tells entity vp geo) rest,
          )
    ]
  ]

  abbrev pub Named : List (RawUpdate F) → Type 0
  Named = All λ u. (u.vehicle_id == "") ≡ false

  Names-ne_empty :
      (entity : Entity) (vp : pb.VehiclePosition) {id : String}
      → (pb.entity_id entity == "") ≡ false
      → Names entity vp id
      → (id == "") ≡ false
  Names-ne_empty entity vp h (by_descriptor v e named) = named
  Names-ne_empty entity vp h (without_descriptor e) = h
  Names-ne_empty entity vp h (without_name v e empty) = h

  Reports-Named :
      {entities : List Entity} {us : List (RawUpdate F)}
      → Reports entities us
      → All (λ entity. (pb.entity_id entity == "") ≡ false) entities
      → Named us
  Reports-Named nothing h = tt
  Reports-Named (no_vehicle e rest) (he, h) = Reports-Named rest h
  Reports-Named (no_position vp e e' rest) (he, h) = Reports-Named rest h
  Reports-Named (reported {entity} vp geo e e' tells rest) (he, h) =
      (Names-ne_empty entity vp he tells.names, Reports-Named rest h)

  -- A feed yields one update for each entity that has a vehicle with a position, in their order: for the
  -- vehicle that its descriptor names, or else under the ID of the entity, with the trip, the route, the
  -- position and the time that the entity reports, or the time of the decoding if it reports none. If all
  -- entities have an ID, as GTFS-RT requires, no update is without the ID of a vehicle.
  pub decode_vehicle_positions-Reports :
      (message : Bytes) (entities : List Entity)
      → pb.unmarshal message ≡ some entities
      → (updates : List (RawUpdate F)) × (decode_vehicle_positions pb now message ≡ some updates)
        × Reports entities updates
        × (All (λ entity. (pb.entity_id entity == "") ≡ false) entities → Named updates)
  unfolding decode_vehicle_positions
  decode_vehicle_positions-Reports message entities e =
      let (us, joined, reports) = decode_range-Reports entities [] in
      (us, rw (e, decode_vehicle_positions) (ap some joined), reports, λ h. Reports-Named reports h)
