-- ===== src/Tests/Stream.antt =====
-- sources/misc/customstream.go at concrete calls.
use vss.Prelude.{ℕ, suc, ◌<◌, List, [], ◌∷◌, arith, length, codes, Bytes}
use vss.Prelude.Int.{pos, int_limit}
use vss.Stream.Listening.{Action, listening, stopping, streaming, Subscribes, calls_subscribe}

-- The listeners are numbers, the data texts.
abbrev two_listeners : List (Action ℕ Bytes)
two_listeners = listening 7 ∷ listening 8 ∷ streaming (codes "on") ∷ stopping (pos 0) ∷ []

few_calls : suc (length two_listeners) < int_limit
few_calls = omega arith

calls_subscribe_example : Subscribes two_listeners 9 (codes "off")
calls_subscribe_example = calls_subscribe two_listeners 9 (codes "off") few_calls
