-- ===== src/Stream/Listening.antt =====
-- customstream.go: who is called.
use vss.Prelude.{
  ℕ, suc, ◌+◌, ◌≤◌, ◌<◌, List, [], ◌∷◌, ◌++◌, ◌≡◌, refl, ap, Bool, true, false, Option, none, some,
  arith, All, All-append, length, ltb, Bool-cases, inl, inr,
}
use vss.Prelude.Int.{incr-pos, ℤ, int_eq, pos, negsuc, int_limit}
use vss.Prelude.Dict.{store, discard}
use vss.Stream.{
  Stream, new_stream, listen, stop_listen, stop_in, unsubscribe_all, stream, functions, to_call,
}

-- The calls of a stream.
pub data Action (F T : Type 0) : Type 0 where
  listening : F → Action F T
  stopping : ℤ → Action F T
  streaming : T → Action F T
  stopping_all : Action F T

-- The id is one of the first `n`.
abbrev pub is_given : ℕ → ℤ → Bool
is_given n (pos k) = ltb k n
is_given n (negsuc k) = false

abbrev pub IsGiven : {F : Type 0} → ℕ → ℤ × F → Type 0
IsGiven n (id, f) = is_given n id ≡ true

-- A stream with a map, whose next id is `n` and whose listeners have ids below.
pub record IsAhead {F T : Type 0} (n : ℕ) (s : Stream F T) : Type 0 where
  pub entries : List (ℤ × F)
  pub listed : s.listeners ≡ some entries
  pub counted : s.id_count ≡ pos n
  pub given : All (IsGiven n) entries

module _ {F : Type 0} where
  IsGiven-later : (n : ℕ) (m : List (ℤ × F)) → All (IsGiven n) m → All (IsGiven (suc n)) m
  IsGiven-later n [] h = h
  IsGiven-later n ((pos k, f) ∷ m) (h, hs) = (ground arith, IsGiven-later n m hs)
  IsGiven-later n ((negsuc k, f) ∷ m) (h, hs) = (h, IsGiven-later n m hs)

  store_new :
      (n : ℕ) (f : F) (m : List (ℤ × F))
      → All (IsGiven n) m
      → store int_eq (pos n) f m ≡ m ++ (pos n, f) ∷ []
  unfolding store int_eq
  store_new n f [] _ = refl
  store_new n f ((pos k, g) ∷ m) (h, hs) = ground (arith, store_new n f m hs)
  store_new n f ((negsuc k, g) ∷ m) (h, hs) = ap (λ r. (negsuc k, g) ∷ r) (store_new n f m hs)

  discard_new :
      (n : ℕ) (f : F) (m : List (ℤ × F))
      → All (IsGiven n) m
      → discard int_eq (pos n) (m ++ (pos n, f) ∷ []) ≡ m
  unfolding discard int_eq
  discard_new n f [] _ = ground arith
  discard_new n f ((pos k, g) ∷ m) (h, hs) = ground (arith, discard_new n f m hs)
  discard_new n f ((negsuc k, g) ∷ m) (h, hs) = ap (λ r. (negsuc k, g) ∷ r) (discard_new n f m hs)

  discard-All :
      (n : ℕ) (id : ℤ) (m : List (ℤ × F))
      → All (IsGiven n) m
      → All (IsGiven n) (discard int_eq id m)
  unfolding discard
  discard-All n id [] h = h
  discard-All n id ((j, g) ∷ m) (h, hs) = elim (Bool-cases (int_eq j id)) [
    | inl e ↦ rw e (discard-All n id m hs)
    | inr e ↦ rw e (h, discard-All n id m hs)
  ]

  functions-append : (m k : List (ℤ × F)) → functions (m ++ k) ≡ functions m ++ functions k
  functions-append [] k = refl
  functions-append ((id, f) ∷ m) k = ap (λ r. f ∷ r) (functions-append m k)

module _ {F T : Type 0} where
  abbrev after_listen : Option (ℤ × Stream F T) → Option (Stream F T)
  after_listen none = none
  after_listen (some (id, s)) = some s

  -- One call on a stream; `none` is a panic.
  abbrev pub call : Action F T → Option (Stream F T) → Option (Stream F T)
  call a none = none
  call (listening f) (some s) = after_listen (listen f s)
  call (stopping id) (some s) = some (stop_listen id s)
  call (streaming item) (some s) = some (stream item s).2
  call stopping_all (some s) = some (unsubscribe_all s)

  unfoldable pub calls : List (Action F T) → Option (Stream F T) → Option (Stream F T)
  calls [] x = x
  calls (a ∷ actions) x = calls actions (call a x)

  abbrev pub called : Stream F T → List F
  called s = to_call s.listeners

  abbrev listened : List (ℤ × F) → F → ℕ → Stream F T → Stream F T
  listened m f n s = record s { listeners = some (m ++ (pos n, f) ∷ []); id_count = pos (suc n) }

  listen_appends :
      (n : ℕ) (f : F) (s : Stream F T) (ahead : IsAhead n s)
      → suc n < int_limit
      → listen f s ≡ some (pos n, listened ahead.entries f n s)
  unfolding listen
  listen_appends n f s ahead h =
      rw (ahead.listed, ahead.counted, incr-pos n h, store_new n f ahead.entries ahead.given) refl

  listened-IsAhead :
      (n : ℕ) (f : F) (s : Stream F T) (ahead : IsAhead n s)
      → IsAhead (suc n) (listened ahead.entries f n s)
  listened-IsAhead n f s ahead = record {
    entries = ahead.entries ++ (pos n, f) ∷ [];
    listed = refl;
    counted = refl;
    given =
        All-append (IsGiven (suc n)) ahead.entries _ (IsGiven-later n ahead.entries ahead.given)
          (ground arith, tt);
  }

  -- The stream that the calls leave, and the id it gives next.
  record Kept (actions : List (Action F T)) (n : ℕ) (s : Stream F T) : Type 0 where
    next_id : ℕ
    kept : Stream F T
    reached : calls actions (some s) ≡ some kept
    ahead : IsAhead next_id kept
    bounded : next_id ≤ n + length actions

  keep_on :
      (a : Action F T) (actions : List (Action F T)) (n k : ℕ) (s s1 : Stream F T)
      → call a (some s) ≡ some s1
      → k ≤ suc n
      → Kept actions k s1
      → Kept (a ∷ actions) n s
  unfolding calls
  keep_on a actions n k s s1 e h rest = record {
    next_id = rest.next_id;
    kept = rest.kept;
    reached = rw e rest.reached;
    ahead = rest.ahead;
    bounded = omega (arith, h, rest.bounded);
  }

  stopped-IsAhead : (n : ℕ) (id : ℤ) (s : Stream F T) → IsAhead n s → IsAhead n (stop_listen id s)
  unfolding stop_listen
  stopped-IsAhead n id s ahead = record {
    entries = discard int_eq id ahead.entries;
    listed = ap (stop_in id) ahead.listed;
    counted = ahead.counted;
    given = discard-All n id ahead.entries ahead.given;
  }

  calls_keep :
      (actions : List (Action F T)) (n : ℕ) (s : Stream F T)
      → IsAhead n s
      → n + length actions < int_limit
      → Kept actions n s
  unfolding calls unsubscribe_all stream
  calls_keep [] n s ahead h = record {
    next_id = n;
    kept = s;
    reached = refl;
    ahead = ahead;
    bounded = omega arith;
  }
  calls_keep (listening f ∷ actions) n s ahead h =
      let s1 = listened ahead.entries f n s in
      keep_on (listening f) actions n (suc n) s s1
        (rw (listen_appends n f s ahead (omega (arith, h))) refl) (omega arith)
        (calls_keep actions (suc n) s1 (listened-IsAhead n f s ahead) (omega (arith, h)))
  calls_keep (stopping id ∷ actions) n s ahead h =
      keep_on (stopping id) actions n n s (stop_listen id s) refl (omega arith)
        (calls_keep actions n (stop_listen id s) (stopped-IsAhead n id s ahead) (omega (arith, h)))
  calls_keep (streaming item ∷ actions) n s ahead h =
      let s1 = (stream item s).2 in
      keep_on (streaming item) actions n n s s1 refl (omega arith) (
        calls_keep actions n s1
          (record {
            entries = ahead.entries;
            listed = ahead.listed;
            counted = ahead.counted;
            given = ahead.given;
          })
          (omega (arith, h)))
  calls_keep (stopping_all ∷ actions) n s ahead h =
      keep_on stopping_all actions n n s (unsubscribe_all s) refl (omega arith) (
        calls_keep actions n (unsubscribe_all s)
          (record { entries = []; listed = refl; counted = ahead.counted; given = tt })
          (omega (arith, h)))

  -- What `f` sees that listens after the calls: `id` is what Listen returns.
  pub record Subscribes (actions : List (Action F T)) (f : F) (item : T) : Type 0 where
    pub before : Stream F T
    pub reached : calls actions (some new_stream) ≡ some before
    pub id : ℤ
    pub after : Stream F T
    pub listens : listen f before ≡ some (id, after)
    pub streams : (stream item after).0 ≡ called before ++ f ∷ []
    pub stops : (stream item (stop_listen id after)).0 ≡ called before

  subscribed :
      (actions : List (Action F T)) (f : F) (item : T) (kept : Kept actions 0 new_stream)
      → suc (length actions) < int_limit
      → Subscribes actions f item
  unfolding stream stop_listen
  subscribed actions f item kept h = record {
    before = kept.kept;
    reached = kept.reached;
    id = pos kept.next_id;
    after = listened kept.ahead.entries f kept.next_id kept.kept;
    listens = listen_appends kept.next_id f kept.kept kept.ahead (omega (arith, h, kept.bounded));
    streams =
        rw kept.ahead.listed (functions-append kept.ahead.entries ((pos kept.next_id, f) ∷ []));
    stops =
        rw (kept.ahead.listed, discard_new kept.next_id f kept.ahead.entries kept.ahead.given) refl;
  }

  -- After any calls of a stream made by NewStream, fewer than 2 ^ 63 - 1 of Listen, StopListen, Stream and
  -- UnsubscribeAll, none of which is a panic: Listen succeeds, the next Stream calls the functions
  -- it would have called and the new one, and after StopListen with the returned id it calls the functions
  -- it would have called, and no other.
  pub calls_subscribe :
      (actions : List (Action F T)) (f : F) (item : T)
      → suc (length actions) < int_limit
      → Subscribes actions f item
  calls_subscribe actions f item h =
      subscribed actions f item
        (calls_keep actions 0 new_stream
          (record { entries = []; listed = refl; counted = refl; given = tt }) (omega (arith, h)))
        h
