-- ===== src/Realtime/Poller/Stages.antt =====
-- A poll from the HTTP request to the handler: it delivers if every stage succeeds, and else changes
-- nothing.
use public_transport_tracker.Base.{
  ◌≡◌, ◌⊎◌, refl, Bool, true, false, Option, none, some, List, is_some, if◌then◌else◌, arith,
  nat_beq, Bool-cases, Option-cases, inl, inr,
}
use public_transport_tracker.Vehicle.{RawUpdate, Time}
use public_transport_tracker.Realtime.Fetcher.{Response, fetch}
use public_transport_tracker.Realtime.Poller.{Poller, poll_url, poll_once, is_empty}

module _ {F Bytes S : Type 0} (p : Poller F Bytes S) where
  -- The request is made and answered with 200, and its body can be read and decodes to the updates.
  pub record Arrives (request : Bool) (response : Option (Response Bytes)) (now : Time)
      (updates : List (RawUpdate F)) : Type 0 where
    pub resp : Response Bytes
    pub message : Bytes
    pub requested : request ≡ true
    pub responded : response ≡ some resp
    pub accepted : resp.status_code ≡ 200
    pub read : resp.body ≡ some message
    pub decoded : p.decoder.decode_vehicle_positions now message ≡ some updates

  -- A poll whose stages all succeed gives the updates to the handler, unless there are none, and
  -- returns no error; any other poll returns an error and leaves the state of the handler alone.
  pub poll_url-Arrives :
      (request : Bool) (response : Option (Response Bytes)) (now : Time) (s : S)
      → ((updates : List (RawUpdate F)) × Arrives request response now updates
          × (poll_url p request response now s
              ≡ (if is_empty updates then s else p.handler updates s, none)))
        ⊎ (((updates : List (RawUpdate F)) → ¬ Arrives request response now updates)
            × ((poll_url p request response now s).0 ≡ s)
            × (is_some (poll_url p request response now s).1 ≡ true))
  unfolding poll_url poll_once fetch
  poll_url-Arrives false response now s = inr (λ us a. ground arith, refl, refl)
  poll_url-Arrives true none now s = inr (λ us a. ground arith, refl, refl)
  poll_url-Arrives true (some resp) now s = elim (Bool-cases (nat_beq resp.status_code 200)) [
    | inr status ↦ inr (λ us a. ground arith, ground arith, ground arith)
    | inl status ↦ elim (Option-cases resp.body) [
      | inl body ↦ inr (λ us a. ground arith, ground arith, ground arith)
      | inr (message, body) ↦ elim (Option-cases (p.decoder.decode_vehicle_positions now message)) [
        | inl decoded ↦ inr (λ us a. ground arith, ground arith, ground arith)
        | inr (updates, decoded) ↦ inl (
          updates,
          record {
            resp = resp;
            message = message;
            requested = refl;
            responded = refl;
            accepted = ground arith;
            read = body;
            decoded = decoded;
          },
          ground arith,
        )
      ]
    ]
  ]
