-- ===== src/Retry/Report.antt =====
-- `projectReport` of src/inference-retry.mjs: what is kept of the report of a transport.
use persistent_harness.Prelude.{
  ℕ, String, Bool, true, false, not, ◌&&◌, Option, none, some, List, [], map, str_eq, leb, ◌==◌,
  is_some, if◌then◌else◌, length, every,
}
use persistent_harness.Retry.Values.{
  Value, undefined, other, truth, number, text, boolean, count, ordinal, id, is_true,
}

pub record RawCall : Type 0 where
  pub item_id : Value
  pub call_id : Value
  pub complete : Value
  pub native : Value

-- A transport's report; `observed_calls` is `none` where it is no array.
pub record RawReport : Type 0 where
  pub version : Value
  pub request_id : Value
  pub attempt_id : Value
  pub attempt_number : Value
  pub transport : Value
  pub outcome : Value
  pub sent : Value
  pub created : Value
  pub response_id : Value
  pub provider_tools : Value
  pub retired : Value
  pub fenced : Value
  pub possible_usage : Value
  pub observed_calls : Option (List RawCall)

pub data Transport : Type 0 where
  sse websocket : Transport

-- The members of `OUTCOMES`, and what stands for all else.
pub data Ending : Type 0 where
  not_sent rejected unknown failed completed unproven : Ending

pub record Call : Type 0 where
  pub item_id : Option String
  pub call_id : Option String
  pub complete : Option Bool
  pub native : Option Bool

pub record Projected : Type 0 where
  pub version : Option ℕ
  pub request_id : Option String
  pub attempt_id : Option String
  pub transport_attempt_number : Option ℕ
  pub transport : Option Transport
  pub outcome : Ending
  pub sent : Option Bool
  pub created : Option Bool
  pub response_id : Option String
  pub provider_tools : Option Bool
  pub retired : Option Bool
  pub fenced : Option Bool
  pub possible_usage : Option Bool
  pub observed_calls : List Call

abbrev only_one : Option ℕ → Option ℕ
only_one none = none
only_one (some n) = if n == 1 then some 1 else none

abbrev transport_of : Value → Option Transport
transport_of (text s) =
    if str_eq s "sse" then some sse else if str_eq s "websocket" then some websocket else none
transport_of undefined = none
transport_of other = none
transport_of (truth b) = none
transport_of (number m k) = none

abbrev ending_of : Value → Ending
ending_of (text s) =
    if str_eq s "not_sent"
    then not_sent
    else if str_eq s "rejected"
    then rejected
    else if str_eq s "unknown"
    then unknown
    else if str_eq s "failed"
    then failed
    else if str_eq s "completed"
    then completed
    else unproven
ending_of undefined = unproven
ending_of other = unproven
ending_of (truth b) = unproven
ending_of (number m k) = unproven

abbrev pub is_unknown : Ending → Bool
is_unknown unknown = true
is_unknown not_sent = false
is_unknown rejected = false
is_unknown failed = false
is_unknown completed = false
is_unknown unproven = false

abbrev is_proven : Ending → Bool
is_proven unproven = false
is_proven not_sent = true
is_proven rejected = true
is_proven unknown = true
is_proven failed = true
is_proven completed = true

abbrev call_is_valid : Call → Bool
call_is_valid c =
    is_some c.item_id
    && is_some c.call_id
    && is_some c.complete
    && is_some c.native
    && not (is_true c.native && not (is_true c.complete))

-- `Array.isArray(calls) && calls.length <= 10_000`.
abbrev readable_calls : Option (List RawCall) → Bool
readable_calls none = false
readable_calls (some calls) = leb (length calls) 10000

abbrev calls_of : Option (List RawCall) → List RawCall
calls_of none = []
calls_of (some calls) = if leb (length calls) 10000 then calls else []

module _ (units : String → List ℕ) where
  abbrev project_call : RawCall → Call
  project_call c = record {
    item_id = id units c.item_id;
    call_id = id units c.call_id;
    complete = boolean c.complete;
    native = boolean c.native;
  }

  unfoldable pub project : RawReport → Projected
  project r = record {
    version = only_one (count r.version);
    request_id = id units r.request_id;
    attempt_id = id units r.attempt_id;
    transport_attempt_number = ordinal r.attempt_number;
    transport = transport_of r.transport;
    outcome = ending_of r.outcome;
    sent = boolean r.sent;
    created = boolean r.created;
    response_id = id units r.response_id;
    provider_tools = boolean r.provider_tools;
    retired = boolean r.retired;
    fenced = boolean r.fenced;
    possible_usage = boolean r.possible_usage;
    observed_calls = map project_call (calls_of r.observed_calls);
  }

-- `valid` of the projection, whose calls were readable or not.
unfoldable pub is_valid : Option (List RawCall) → Projected → Bool
is_valid calls p =
    (is_some p.version
      && is_some p.request_id
      && is_some p.attempt_id
      && is_some p.transport_attempt_number
      && is_some p.transport
      && is_some p.sent
      && is_some p.created
      && is_some p.provider_tools
      && is_some p.retired
      && is_some p.fenced
      && is_some p.possible_usage)
    && is_proven p.outcome
    && (readable_calls calls && every call_is_valid p.observed_calls)
    && not (is_true p.created && not (is_true p.sent))
    && not (is_unknown p.outcome && not (is_true p.sent))
