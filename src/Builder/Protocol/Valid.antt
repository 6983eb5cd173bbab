-- ===== src/Builder/Protocol/Valid.antt =====
-- A stream that goes into `dispatch_tool_only` valid comes out valid.
use luthien_proxy.Base.{
  ◌≡◌, refl, sym, ◌∙◌, Bool, true, false, some, List, [], ◌∷◌, ◌++◌, map, inl, inr, difference,
  contains_of_difference-eq-nil, difference-eq-nil, arith,
}
use luthien_proxy.Stream.Event.{Event, EventView, message_start, message_stop, view}
use luthien_proxy.Stream.Validator.{Blocks, no_blocks, is_message_stop, last_of, validate}
use luthien_proxy.Stream.Validator.Verdict.{
  Follows, validate_sound, validate_complete, validate-nil-ne-nil,
}
use luthien_proxy.Builder
use luthien_proxy.Builder.Types.{Builder}
use luthien_proxy.Builder.Dispatch.{ToolStopHandler, dispatch_tool_only, run}
use luthien_proxy.Builder.Runs.{HooksDecide, events_of, run-cons}
use luthien_proxy.Builder.Protocol.Simulation.{initial}
use luthien_proxy.Builder.Protocol.Emit.{Sim}
use luthien_proxy.Builder.Protocol.Runs.{run-Ended}
use luthien_proxy.Builder.Protocol.Total.{single_delta, run-total}

abbrev stop_last : List EventView → Bool
stop_last [] = false
stop_last (e ∷ []) = is_message_stop e.type
stop_last (e ∷ e' ∷ es) = stop_last (e' ∷ es)

stop_last-last_of :
    (e : EventView) (es : List EventView) → stop_last (e ∷ es) ≡ is_message_stop (last_of e es).type
stop_last-last_of e [] = refl
stop_last-last_of e (e' ∷ es) = stop_last-last_of e' es

stop_last-append :
    (xs ys : List Event) → stop_last (map view ys) ≡ true → stop_last (map view (xs ++ ys)) ≡ true
stop_last-append [] ys h = h
stop_last-append (x ∷ []) [] h = cc
stop_last-append (x ∷ []) (y ∷ ys) h = h
stop_last-append (x ∷ x' ∷ xs) ys h = stop_last-append (x' ∷ xs) ys h

-- A message_stop at the end goes out at the end.
run-stop_last :
    (turns : List (Event × ToolStopHandler)) (b b' : Builder) (out : List Event)
    → stop_last (map view (events_of turns)) ≡ true
    → run turns b ≡ some (b', out)
    → stop_last (map view out) ≡ true
run-stop_last [] b b' out q r = cc
run-stop_last ((message_stop, h) ∷ []) b b' out q r =
    let e : message_stop ∷ [] ≡ out = unfold run dispatch_tool_only in ground arith in rw (← e)
run-stop_last ((e, h) ∷ []) b b' out q r = cc
run-stop_last ((e, h) ∷ t ∷ turns) b b' out q r =
    let (b1, here, later, first, rest, e1) = run-cons e h (t ∷ turns) b b' out r in
    rw e1 (stop_last-append here later (run-stop_last (t ∷ turns) b1 b' later q rest))

-- At the end of a valid upstream all that has gone out is closed.
closed_end :
    (u d : Blocks) (b : Builder)
    → Sim u d b
    → difference u.started_blocks u.stopped_blocks ≡ []
    → difference d.started_blocks d.stopped_blocks ≡ []
closed_end u d b s h = difference-eq-nil d.started_blocks d.stopped_blocks λ i opened.
    elim (s.answered i opened) [
      | inl closed ↦ closed
      | inr (j, k, found, e) ↦
          let m = s.mapped j k found in
          rw e (
            m.same_stop
            ∙ contains_of_difference-eq-nil u.started_blocks u.stopped_blocks j h m.source_started)
    ]

run-valid :
    (e : Event) (h : ToolStopHandler) (turns : List (Event × ToolStopHandler)) (b' : Builder)
    (out : List Event)
    → HooksDecide ((e, h) ∷ turns)
    → Follows (view e) (map view (events_of turns))
    → run ((e, h) ∷ turns) Builder.fresh ≡ some (b', out)
    → validate (map view out) ≡ []
run-valid (message_start m) h turns b' out by f r =
    let (b1, here, later, first, rest, e1) =
      run-cons (message_start m) h turns Builder.fresh b' out r in
    let e2 : message_start m ∷ [] ≡ here = unfold dispatch_tool_only in ground arith in
    let e3 : out ≡ message_start m ∷ later = rw (e1, ← e2) in
    let ended =
      run-Ended ((message_start m, h) ∷ turns) Builder.fresh b' out no_blocks f.blocks no_blocks by
        f.ordered f.accepted initial r in
    let stops =
      run-stop_last ((message_start m, h) ∷ turns) Builder.fresh b' out
        (stop_last-last_of _ (map view (events_of turns)) ∙ f.stops) r in
    rw e3 (
      validate_complete (view (message_start m)) (map view later) (record {
        starts = refl;
        stops =
            sym (stop_last-last_of (view (message_start m)) (map view later)) ∙ (rw e3 at stops);
        ordered = rw e3 at ended.ordered;
        blocks = ended.after;
        accepted = rw e3 at ended.accepted;
        closed = closed_end f.blocks ended.after b' ended.simulates f.closed;
      }))
run-valid e h turns b' out by f r = cc f.starts

-- A valid upstream with at most one message_delta, whatever the hooks decide by the primitives at
-- each tool: no call raises, and the events that come out pass the validator with no violation.
pub run-preserves_validity :
    (turns : List (Event × ToolStopHandler))
    → HooksDecide turns
    → validate (map view (events_of turns)) ≡ []
    → single_delta (events_of turns) ≡ true
    → (b' : Builder) × (out : List Event) × (run turns Builder.fresh ≡ some (b', out))
      × (validate (map view out) ≡ [])
run-preserves_validity [] by v q = absurd (validate-nil-ne-nil v)
run-preserves_validity ((e, h) ∷ turns) by v q =
    let (b', out, r) = run-total ((e, h) ∷ turns) Builder.fresh refl by q in
    let follows = validate_sound (view e) (map view (events_of turns)) v in
    (b', out, r, run-valid e h turns b' out by follows r)
