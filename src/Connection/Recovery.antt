-- ===== src/Connection/Recovery.antt =====
-- How the provider comes back to an open connection. The life of the socket, as the WebSocket standard has it,
-- decides which callbacks may come: a socket opens once, an error is followed by its close, and a closed
-- socket is silent.
use kprobe.Base.{string_key, ◌≤◌, ◌≡◌, Bool, true, false, List, [], ◌∷◌, length}
use Prim.{Unit}
use kprobe.Event.{connected}
use kprobe.Json.{Codec}
use kprobe.Connection.{
  Connection, Action, opened, closed, errored, received, timer_fired, mount, unmount, cleared,
  history, initial, step, run,
}
use kprobe.Connection.Invariant.{is_pending}

-- The last socket that was made: none, or its callbacks are detached; being opened; open; failed, with
-- its close to come; closed.
pub data Socket : Type 0 where
  detached opening live failed ended : Socket

-- What a call of `new WebSocket` leaves: a socket being opened, or nothing where it throws.
abbrev made : Bool → Socket
made true = opening
made false = detached

abbrev pub next_socket : Action → Socket → Socket
next_socket (mount returns) w = made returns
next_socket (timer_fired returns) w = made returns
next_socket (unmount lifecycle) w = detached
next_socket opened w = live
next_socket errored w = failed
next_socket closed w = ended
next_socket (received text) w = w
next_socket cleared w = w
next_socket (history lifecycle token reply) w = w

abbrev is_active : Socket → Bool
is_active opening = true
is_active live = true
is_active _ = false

abbrev can_close : Socket → Bool
can_close failed = true
can_close w = is_active w

-- When a callback may come.
abbrev pub MayCome : Action → Socket → Connection → Type 0
MayCome (mount returns) w c = c.mounted ≡ false
MayCome (unmount lifecycle) w c = c.mounted ≡ true
MayCome opened w c = w ≡ opening
MayCome errored w c = is_active w ≡ true
MayCome closed w c = can_close w ≡ true
MayCome (received text) w c = w ≡ live
MayCome (timer_fired returns) w c = is_pending c.timer ≡ true
MayCome cleared w c = Unit {0}
MayCome (history lifecycle token reply) w c = Unit {0}

module _ (codec : Codec) where
  -- Callbacks that come one after the other, each when it may.
  abbrev pub AllMayCome : List Action → Socket → Connection → Type 0
  AllMayCome [] w c = Unit {0}
  AllMayCome (a ∷ acts) w c = MayCome a w c × AllMayCome acts (next_socket a w) (step codec a c)

  -- While the provider is mounted and has no socket that may still open or close, a timer runs.
  abbrev pub Hopeful : Socket → Connection → Type 0
  Hopeful live c = Unit {0}
  Hopeful opening c = Unit {0}
  Hopeful failed c = Unit {0}
  Hopeful w c = is_pending c.timer ≡ true

  abbrev IfMounted : Socket → Connection → Type 0
  IfMounted w c = c.mounted ≡ true → Hopeful w c

  -- What decides on hope is unchanged.
  abbrev Alike : Connection → Connection → Type 0
  Alike c d = (d.timer ≡ c.timer) × (d.mounted ≡ c.mounted)

  -- The states that callbacks reach from the first mount on, with the last socket's. Unmounting takes
  -- `onclose` alone from a socket, so its error may come at any time after, also to the next mount.
  pub data Lived : Socket → Connection → Type 0 where
    start : (returns : Bool) → Lived (made returns) (step codec (mount returns) initial)
    next :
        {w : Socket} {c : Connection} (a : Action)
        → MayCome a w c
        → Lived w c
        → Lived (next_socket a w) (step codec a c)
    late_error : {w : Socket} {c : Connection} → Lived w c → Lived w (step codec errored c)

  -- Some callbacks that may come, three of them at most, after which the connection is open.
  abbrev pub Recovers : Socket → Connection → Type 0
  Recovers w c =
      (retry : List Action) × AllMayCome retry w c
      × (length retry ≤ 3)
      × ((run codec retry c).status ≡ connected)
