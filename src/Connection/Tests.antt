-- ===== src/Connection/Tests.antt =====
-- Runs of the provider, and its laws at them.
use kprobe.Base.{
  ◌≡◌, ◌⊎◌, refl, String, true, false, none, some, ◌*◌, [], ◌∷◌, Memᴰ, length, put, contains,
  if◌then◌else◌, sort, insert, add_all, IsSorted, add, string_key,
}
use Prim.Native.Nat.{min, ◌^◌}
use kprobe.Json.{Codec}
use kprobe.Json.Samples.{plain}
use kprobe.Connection.{
  Connection, mount, opened, closed, errored, received, history, initial, run, step, offline,
  event_key, event_timestamp, keys_of, ordered, unique_from, hydrate, number, on_message, no_later,
  append_message, historical, max_messages, initial_backoff, max_backoff,
}
use kprobe.Connection.Invariant.{HoldsMessages, HoldsSocket, run_sound}
use kprobe.Connection.Hydration.{ordered_newest, hydrate_keeps}
use kprobe.Connection.Receive.{receive_twice}
use kprobe.Connection.Backoff.{failures, wait_doubles}

-- Texts that are no JSON: the key is the text.
abbrev raw : Codec
raw = record { numerals = plain; parse = λ s. none; stringify = λ v. "" }

abbrev started : Connection
started = run raw (mount true ∷ opened ∷ received "a" ∷ []) initial

abbrev filled : Connection
filled =
    run raw (mount true ∷ received "a" ∷ history 1 false offline ∷ received "b" ∷ received "a" ∷ [])
      initial

filled_messages :
    filled.messages ≡ record { id = 1; data_text = "a" } ∷ record { id = 2; data_text = "b" } ∷ []
unfolding run step initial hydrate ordered unique_from put sort insert number event_key
    event_timestamp on_message append_message add_all add historical
filled_messages = refl

run_sound_example : HoldsMessages raw filled × HoldsSocket raw filled
run_sound_example =
    run_sound raw
      (mount true ∷ received "a" ∷ history 1 false offline ∷ received "b" ∷ received "a" ∷ [])

ordered_newest_example :
    IsSorted (no_later raw) (ordered raw ("a" ∷ "b" ∷ []))
    × (Memᴰ "a" (ordered raw ("a" ∷ "b" ∷ []))
        ⊎ (length (ordered raw ("a" ∷ "b" ∷ [])) ≡ max_messages)
          × ((y : String) → Memᴰ y (ordered raw ("a" ∷ "b" ∷ [])) → no_later raw "a" y ≡ true))
unfolding event_timestamp unique_from put event_key
ordered_newest_example =
    ordered_newest raw ("a" ∷ "b" ∷ []) "a" (λ e. cc e, (λ e. cc e, tt)) (Memᴰ.head refl)

hydrate_keeps_example :
    let c' = hydrate raw 1 [] started in
    (Memᴰ (event_key raw "a") (keys_of raw c'.messages) ⊎ (length c'.messages ≡ max_messages))
    × (c'.buffered ≡ [])
    × (c'.hydrated ≡ true)
unfolding run step initial
hydrate_keeps_example = hydrate_keeps raw 1 [] started "a" refl refl (Memᴰ.head refl)

receive_twice_example :
    (on_message raw "c" (on_message raw "c" filled) ≡ on_message raw "c" filled)
    × (on_message raw "c" filled ≡ (
        if contains filled.seen (event_key raw "c") then filled else append_message raw "c" filled))
unfolding run step initial hydrate on_message append_message add_all ordered sort unique_from
    historical put event_key number
receive_twice_example = receive_twice raw "c" filled refl refl

-- A socket that opened and then failed.
abbrev broken : Connection
broken = step raw errored (step raw opened (step raw (mount true) initial))

wait_doubles_example :
    (run raw (opened ∷ closed ∷ failures 5) started).timer
    ≡ some (min (initial_backoff * 2 ^ 5) max_backoff)
wait_doubles_example = wait_doubles raw 5 started (unfold run step initial in refl)
