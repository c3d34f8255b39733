-- ===== src/Realtime/Fetcher.antt =====
-- internal/realtime/fetcher.go: one HTTP GET.
use public_transport_tracker.Base.{ℕ, Bool, Option, none, some, if◌then◌else◌, nat_beq}

pub data FetchError : Type 0 where
  create_request http_get read_body : FetchError
  unexpected_status : ℕ → FetchError

pub data Fetched (Bytes : Type 0) : Type 0 where
  ok : Bytes → Fetched Bytes
  err : FetchError → Fetched Bytes

-- A response: its status, and its body unless reading fails.
pub record Response (Bytes : Type 0) : Type 0 where
  pub status_code : ℕ
  pub body : Option Bytes

-- `request` is whether the request could be made, and `response` what `client.Do` returns.
unfoldable pub fetch : {Bytes : Type 0} → Bool → Option (Response Bytes) → Fetched Bytes
fetch request response =
    if request
    then elim response [
      | none ↦ err http_get
      | some resp ↦
          if nat_beq resp.status_code 200
          then elim resp.body [ none ↦ err read_body | some message ↦ ok message ]
          else err (unexpected_status resp.status_code)
    ]
    else err create_request

-- What `PollOnce` sees of the results: an error stands for every one of them.
abbrev pub answer_of : {Bytes : Type 0} → Fetched Bytes → Option Bytes
answer_of (ok message) = some message
answer_of (err e) = none
