-- ===== src/Policies/TextModifier/Stops.antt =====
-- Holding a block's stop back neither loses nor repeats an event.
use luthien_proxy.Base.{
  ℕ, suc, ◌+◌, ℤ, pos, ◌==ℤ◌, ◌≡◌, refl, String, Option, none, some, List, [], ◌∷◌, ◌++◌,
  if◌then◌else◌, is_some, length, length-append, arith,
}
use luthien_proxy.Stream.Event.{
  Event, message_start, content_block_start, content_block_delta, content_block_stop, message_delta,
  message_stop, other_event, text_block, tool_use_block, other_block, BlockHead, text_delta,
}
use luthien_proxy.Policies.TextModifier.{
  StreamState, initial, on_block_start, on_block_stop, release, on_text_event, on_text_complete,
  text_stream,
}

-- How many stops of block `i` there are
unfoldable pub count_stops : ℤ → List Event → ℕ
count_stops i [] = 0
count_stops i (content_block_stop j ∷ es) =
    let rest = count_stops i es in if i ==ℤ j then suc rest else rest
count_stops i (_ ∷ es) = count_stops i es

count_stops-append :
    (i : ℤ) (xs ys : List Event) → count_stops i (xs ++ ys) ≡ count_stops i xs + count_stops i ys
unfolding count_stops
count_stops-append i [] ys = omega arith
count_stops-append i (content_block_stop j ∷ xs) ys = ground (arith, count_stops-append i xs ys)
count_stops-append i (message_start m ∷ xs) ys = count_stops-append i xs ys
count_stops-append i (content_block_start j h ∷ xs) ys = count_stops-append i xs ys
count_stops-append i (content_block_delta j d ∷ xs) ys = count_stops-append i xs ys
count_stops-append i (message_delta d ∷ xs) ys = count_stops-append i xs ys
count_stops-append i (message_stop ∷ xs) ys = count_stops-append i xs ys
count_stops-append i (other_event t ∷ xs) ys = count_stops-append i xs ys

abbrev pub held_count : ℤ → Option ℤ → ℕ
held_count i none = 0
held_count i (some j) = if i ==ℤ j then 1 else 0

-- 1 for a suffix that has gone out
abbrev pub sent : StreamState → ℕ
sent state = if state.extra_text_emitted then 1 else 0

abbrev pub held_length : StreamState → ℕ
held_length state = if is_some state.held_stop then 1 else 0

-- What a step that takes `here` in and sends `out` keeps
record Balanced (i : ℤ) (here : List Event) (s : StreamState) (step : StreamState × List Event)
    : Type 0 where
  stops :
      count_stops i step.1 + held_count i step.0.held_stop
      ≡ count_stops i here + held_count i s.held_stop
  events : length step.1 + held_length step.0 + sent s ≡ length here + held_length s + sent step.0

start-Balanced :
    (i : ℤ) (extra : Option String) (j : ℤ) (head : BlockHead) (s : StreamState)
    → Balanced i (content_block_start j head ∷ []) s (on_block_start extra j head s)
unfolding on_block_start count_stops
start-Balanced i none j (text_block t) s = record { stops = ground arith; events = ground arith }
start-Balanced i none j (tool_use_block id n) s = record {
  stops = ground arith;
  events = ground arith;
}
start-Balanced i none j (other_block t) s = record { stops = ground arith; events = ground arith }
start-Balanced i (some x) j (text_block t) s = record {
  stops = ground arith;
  events = ground arith;
}
start-Balanced i (some x) j (tool_use_block id n) s = record {
  stops = ground arith;
  events = ground arith;
}
start-Balanced i (some x) j (other_block t) s = record {
  stops = ground arith;
  events = ground arith;
}

stop-Balanced :
    (i : ℤ) (extra : Option String) (j : ℤ) (s : StreamState)
    → Balanced i (content_block_stop j ∷ []) s (on_block_stop extra j s)
unfolding on_block_stop count_stops
stop-Balanced i extra j s = record { stops = ground arith; events = ground arith }

release-Balanced :
    (i : ℤ) (extra : Option String) (after : List Event) (s : StreamState)
    → Balanced i after s (release extra after s)
unfolding release count_stops
release-Balanced i none after s = record { stops = ground arith; events = ground arith }
release-Balanced i (some x) after s = record { stops = ground arith; events = ground arith }

release-empty :
    (extra : Option String) (after : List Event) (s : StreamState)
    → (release extra after s).0.held_stop ≡ none
unfolding release
release-empty extra after s = ground arith

event-Balanced :
    (i : ℤ) (modify : String → String) (extra : Option String) (e : Event) (s : StreamState)
    → Balanced i (e ∷ []) s (on_text_event modify extra e s)
unfolding on_text_event count_stops
event-Balanced i modify extra (content_block_start j head) s = start-Balanced i extra j head s
event-Balanced i modify extra (content_block_stop j) s = stop-Balanced i extra j s
event-Balanced i modify extra (message_delta d) s =
    release-Balanced i extra (message_delta d ∷ []) s
event-Balanced i modify extra (content_block_delta j (text_delta t)) s = record {
  stops = refl;
  events = refl;
}
event-Balanced i modify extra e s = record { stops = ground arith; events = ground arith }

text_stream-Balanced :
    (i : ℤ) (modify : String → String) (extra : Option String) (es : List Event) (s : StreamState)
    → Balanced i es s (text_stream modify extra es s)
unfolding text_stream on_text_complete count_stops
text_stream-Balanced i modify extra [] s = release-Balanced i extra [] s
text_stream-Balanced i modify extra (e ∷ es) s =
    let (s1, here) = on_text_event modify extra e s in
    let (s2, rest) = text_stream modify extra es s1 in
    let first = event-Balanced i modify extra e s in
    let later = text_stream-Balanced i modify extra es s1 in
    let both = count_stops-append i (e ∷ []) es in
    record {
      stops = omega (arith, count_stops-append i here rest, first.stops, later.stops, both);
      events = omega (arith, length-append here rest, first.events, later.events);
    }

text_stream-empty :
    (modify : String → String) (extra : Option String) (es : List Event) (s : StreamState)
    → (text_stream modify extra es s).0.held_stop ≡ none
unfolding text_stream on_text_complete
text_stream-empty modify extra [] s = release-empty extra [] s
text_stream-empty modify extra (e ∷ es) s =
    text_stream-empty modify extra es (on_text_event modify extra e s).0

Balanced-stops :
    (i : ℤ) (step : StreamState × List Event) (es : List Event)
    → step.0.held_stop ≡ none
    → Balanced i es initial step
    → count_stops i step.1 ≡ count_stops i es
Balanced-stops i step es h b = ground (arith, b.stops, h)

Balanced-length :
    (i : ℤ) (step : StreamState × List Event) (es : List Event)
    → step.0.held_stop ≡ none
    → Balanced i es initial step
    → length step.1 ≡ length es + sent step.0
Balanced-length i step es h b = ground (arith, b.events, h)

-- A whole stream with its completion, whatever its events: no stop is held in the end; of each block as
-- many stops go out as came in; and what goes out is as long as what came in, and one event longer
-- if the suffix has gone out.
pub text_stream-count_stops :
    (modify : String → String) (extra : Option String) (es : List Event)
    → ((text_stream modify extra es initial).0.held_stop ≡ none)
      × ((i : ℤ) → count_stops i (text_stream modify extra es initial).1 ≡ count_stops i es)
      × (length (text_stream modify extra es initial).1
          ≡ length es + sent (text_stream modify extra es initial).0)
text_stream-count_stops modify extra es =
    let none_held = text_stream-empty modify extra es initial in
    (
      none_held,
      λ i.
          Balanced-stops i (text_stream modify extra es initial) es none_held
            (text_stream-Balanced i modify extra es initial),
      Balanced-length (pos 0) (text_stream modify extra es initial) es none_held
          (text_stream-Balanced (pos 0) modify extra es initial),
    )
