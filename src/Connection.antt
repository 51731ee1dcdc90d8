-- ===== src/Connection.antt =====
-- console/src/hooks/useConnection.tsx: the socket to the API, its reconnection, and the list of
-- messages that the pages read. The refs and the state of the provider are one record; an updater
-- passed to `setMessages` runs at once, where it is called. `step` has an action for each callback.
pub mod Keys
pub mod Invariant
pub mod Hydration
pub mod Backoff
pub mod Receive
pub mod Recovery
mod Tests
use Prim.Native.Nat.{min}
use kprobe.Base.{
  ℕ, zero, suc, ◌+◌, ◌*◌, String, Bool, true, false, not, Option, none, some, List, [], ◌∷◌, ◌++◌,
  map, ◌||◌, nat_eq, if◌then◌else◌, ◌==◌, Key, string_key, contains, slice_last, sort, put, values,
  set_of, add, length,
}
use kprobe.Json.{
  Num, pos, Value, null, str, arr, obj, num, Fields, Codec, lt_num, join, first, prop, coalesce,
  items, to_text, to_number,
}
use kprobe.Event.{ConnectionStatus, connected, connecting, disconnected}

abbrev pub initial_backoff : ℕ
initial_backoff = 1000

abbrev pub max_backoff : ℕ
max_backoff = 30_000

abbrev pub backoff_factor : ℕ
backoff_factor = 2

abbrev pub max_messages : ℕ
max_messages = 2000

pub record ConnectionMessage : Type 0 where
  pub id : ℕ
  pub data_text : String  -- `data`

pub record Connection : Type 0 where
  pub status : ConnectionStatus
  pub messages : List ConnectionMessage
  pub socket : Bool  -- `wsRef.current` is not null
  pub backoff : ℕ
  pub timer : Option ℕ  -- the delay of the reconnection that is scheduled
  pub mounted : Bool
  pub sequence : ℕ
  pub hydrated : Bool
  pub buffered : List String
  pub seen : List String  -- a set of keys
  pub lifecycle : ℕ

unfoldable pub initial : Connection
initial = record {
  status = connecting;
  messages = [];
  socket = false;
  backoff = initial_backoff;
  timer = none;
  mounted = true;
  sequence = 0;
  hydrated = false;
  buffered = [];
  seen = [];
  lifecycle = 0;
}

-- What `fetch("/api/events?…")` comes to: it rejects, or it answers with `response.ok` and the body,
-- `none` if the body is no JSON.
pub data Reply : Type 0 where
  offline : Reply
  answer : Bool → Option Value → Reply

-- The callbacks. A `Bool` says whether `new WebSocket(…)` returns (and does not throw).
pub data Action : Type 0 where
  mount : Bool → Action
  unmount : ℕ → Action
  opened closed errored cleared : Action
  received : String → Action
  timer_fired : Bool → Action
  history : ℕ → Bool → Reply → Action

module _ (codec : Codec) where
  open codec use {numerals, parse, stringify}

  abbrev key_part : Fields → List String → String
  key_part fs ks = to_text numerals (coalesce (first fs ks) (str ""))

  abbrev key_of_fields : Fields → String
  key_of_fields fs = join ":" (
      key_part fs ("timestampNs" ∷ "timestamp_ns" ∷ [])
      ∷ key_part fs ("eventType" ∷ "event_type" ∷ [])
      ∷ key_part fs ("pid" ∷ [])
      ∷ key_part fs ("tid" ∷ [])
      ∷ key_part fs ("cpu" ∷ [])
      ∷ key_part fs ("transactionId" ∷ "transaction_id" ∷ [])
      ∷ key_part fs ("serviceName" ∷ "service_name" ∷ [])
      ∷ key_part fs ("traceId" ∷ "trace_id" ∷ [])
      ∷ key_part fs ("spanId" ∷ "span_id" ∷ [])
      ∷ key_part fs ("durationNs" ∷ "duration_ns" ∷ [])
      ∷ [])

  -- The text itself where it is no JSON, and where it is `null`, whose properties throw. Of another
  -- value that is no object every property is `undefined`.
  unfoldable pub event_key : String → String
  event_key text = elim (parse text) [
    | none ↦ text
    | some null ↦ text
    | some (obj fs) ↦ key_of_fields fs
    | some _ ↦ key_of_fields Fields.end
  ]

  unfoldable pub event_timestamp : String → Num
  event_timestamp text = elim (parse text) [
    | some (obj fs) ↦
        to_number numerals (coalesce (first fs ("timestampNs" ∷ "timestamp_ns" ∷ [])) (num (pos 0)))
    | _ ↦ pos 0
  ]

  abbrev pub event_list : Option Value → List String
  event_list none = []
  event_list (some (arr vs)) = map stringify (items vs)
  event_list (some _) = []

  -- The texts of the stored events, none where there is no token or the request fails.
  unfoldable pub historical : Bool → Reply → List String
  historical true (answer true (some (obj fs))) = event_list (prop "events" fs)
  historical _ _ = []

  -- The comparator `eventTimestamp(left) - eventTimestamp(right)`; NaN counts as 0.
  abbrev pub no_later : String → String → Bool
  no_later left right = not (lt_num (event_timestamp right) (event_timestamp left))

  unfoldable pub unique_from : List (String × String) → List String → List (String × String)
  unique_from m [] = m
  unique_from m (text ∷ texts) = unique_from (put (event_key text) text m) texts

  abbrev pub unique : List String → List (String × String)
  unique texts = unique_from [] texts

  -- The distinct events in the order of time, the last `max_messages` of them.
  unfoldable pub ordered : List String → List String
  ordered texts = slice_last max_messages (sort no_later (values (unique texts)))

  -- `{ id: ++sequenceRef.current, data }` for each text.
  unfoldable pub number : ℕ → List String → List ConnectionMessage
  number sequence [] = []
  number sequence (text ∷ texts) =
      record { id = suc sequence; data_text = text } ∷ number (suc sequence) texts

  abbrev pub keys_of : List ConnectionMessage → List String
  keys_of ms = map (λ m. event_key m.data_text) ms

  unfoldable pub hydrate : ℕ → List String → Connection → Connection
  hydrate lifecycle stored c =
      if not c.mounted || not (nat_eq lifecycle c.lifecycle)
      then c
      else (let texts = ordered (stored ++ c.buffered) in
          record c {
            buffered = [];
            seen = set_of (map event_key texts);
            messages = number c.sequence texts;
            sequence = c.sequence + length texts;
            hydrated = true;
          })

  unfoldable pub schedule_reconnect : Connection → Connection
  schedule_reconnect c =
      if c.mounted
      then record c {
        timer = some c.backoff;
        backoff = min (c.backoff * backoff_factor) max_backoff;
      }
      else c

  unfoldable pub connect : Bool → Connection → Connection
  unfolding schedule_reconnect
  connect returns c =
      if c.mounted
      then if returns
        then record c { status = connecting; socket = true }
        else schedule_reconnect (record c { status = disconnected })
      else c

  unfoldable pub on_open : Connection → Connection
  on_open c = if c.mounted then record c { status = connected; backoff = initial_backoff } else c

  unfoldable pub append_message : String → Connection → Connection
  append_message text c =
      let next =
        slice_last max_messages
          (c.messages ++ record { id = suc c.sequence; data_text = text } ∷ []) in
      record c { sequence = suc c.sequence; messages = next; seen = set_of (keys_of next) }

  unfoldable pub on_message : String → Connection → Connection
  on_message text c =
      if c.mounted
      then if c.hydrated
        then if contains c.seen (event_key text) then c else append_message text c
        else record c { buffered = c.buffered ++ text ∷ [] }
      else c

  unfoldable pub on_close : Connection → Connection
  unfolding schedule_reconnect
  on_close c =
      if c.mounted
      then schedule_reconnect (record c { status = disconnected; socket = false })
      else c

  unfoldable pub on_error : Connection → Connection
  on_error c = if c.mounted then record c { status = disconnected } else c

  unfoldable pub clear_messages : Connection → Connection
  clear_messages c = record c { messages = [] }

  -- The body of the effect, and the function that it returns. `hydrateHistory` goes on later, as
  -- the action `history`.
  unfoldable pub on_mount : Bool → Connection → Connection
  unfolding connect
  on_mount returns c = connect returns (record c { lifecycle = suc c.lifecycle; mounted = true })

  unfoldable pub on_unmount : ℕ → Connection → Connection
  on_unmount lifecycle c = record c { mounted = false; lifecycle = suc lifecycle; timer = none }

  unfoldable pub step : Action → Connection → Connection
  unfolding on_mount on_unmount on_open on_message on_close on_error clear_messages connect hydrate
  step (mount returns) c = on_mount returns c
  step (unmount lifecycle) c = on_unmount lifecycle c
  step opened c = on_open c
  step closed c = on_close c
  step errored c = on_error c
  step cleared c = clear_messages c
  step (received text) c = on_message text c
  step (timer_fired returns) c = connect returns (record c { timer = none })
  step (history lifecycle has_token reply) c = hydrate lifecycle (historical has_token reply) c

  unfoldable pub run : List Action → Connection → Connection
  unfolding step
  run [] c = c
  run (a ∷ acts) c = run acts (step a c)
