-- ===== src/Stream.antt =====
-- customstream.go, `Stream`: the listeners of a stream. A listener is known by its id, which stands for
-- its function; `listeners` is `none` where the map was never made.
pub mod Listening
use vss.Prelude.{ℕ, List, [], ◌∷◌, ◌++◌, Bool, true, false, Option, none, some, ◌==◌, if◌then◌else◌}
use vss.Prelude.Int.{ℤ, int_eq, pos, negsuc, incr, decr}
use vss.Prelude.Dict.{find, store, discard}

-- `F` is the type of the functions that listen, `T` that of the data.
pub record Stream (F T : Type 0) : Type 0 where
  pub listeners : Option (List (ℤ × F))
  pub last_value : Option T
  pub id_count : ℤ

abbrev stop_in : {F : Type 0} → ℤ → Option (List (ℤ × F)) → Option (List (ℤ × F))
stop_in id none = none
stop_in id (some m) = some (discard int_eq id m)

abbrev pub functions : {F : Type 0} → List (ℤ × F) → List F
functions [] = []
functions ((id, f) ∷ m) = f ∷ functions m

abbrev to_call : {F : Type 0} → Option (List (ℤ × F)) → List F
to_call none = []
to_call (some m) = functions m

abbrev has_any : {F : Type 0} → List F → Bool
has_any [] = false
has_any (f ∷ fs) = true

module _ {F T : Type 0} where
  -- NewStream
  abbrev pub new_stream : Stream F T
  new_stream = record { listeners = some []; last_value = none; id_count = pos 0 }

  -- NewStreamWithInitialValue, which makes no map.
  abbrev pub new_stream_with_initial_value : T → Stream F T
  new_stream_with_initial_value value = record {
    listeners = none;
    last_value = some value;
    id_count = pos 0;
  }

  abbrev listen_in : F → Stream F T → Option (List (ℤ × F)) → Option (ℤ × Stream F T)
  listen_in f s none = none
  listen_in f s (some m) = some (
    s.id_count,
    record s { listeners = some (store int_eq s.id_count f m); id_count = incr s.id_count },
  )

  -- Listen and Subscribe: the id of the listener; a write to a map that was not made is a panic.
  unfoldable pub listen : F → Stream F T → Option (ℤ × Stream F T)
  listen f s = listen_in f s s.listeners

  -- StopListen and Unsubscribe
  unfoldable pub stop_listen : ℤ → Stream F T → Stream F T
  stop_listen id s = record s { listeners = stop_in id s.listeners }

  -- UnsubscribeAll
  unfoldable pub unsubscribe_all : Stream F T → Stream F T
  unsubscribe_all s = record s { listeners = some [] }

  -- Stream, Publish and Add: the functions that are called with the data, in the order of the map, and
  -- whether there is one.
  unfoldable pub stream : T → Stream F T → List F × Bool × Stream F T
  stream item s =
      let called = to_call s.listeners in
      (called, has_any called, record s { last_value = some item })
