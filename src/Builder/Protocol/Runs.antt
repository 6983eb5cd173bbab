-- ===== src/Builder/Protocol/Runs.antt =====
-- A whole run keeps the simulation and the order of content before the message_delta.
use mathlib.Core.List.{append_assoc}
use luthien_proxy.Base.{
  ℤ, ◌≤ℤ◌, ◌≡◌, refl, ap, sym, ◌∙◌, true, false, Option, some, List, [], ◌∷◌, ◌++◌, map, inl, inr,
  contains, arith, is_nil, Option-cases,
}
use luthien_proxy.Stream.Event.{
  Event, EventView, content_block_start, content_block_delta, content_block_stop, message_delta,
  MessageDelta, view, BlockHead, Delta, message_start, message_stop, other_event,
}
use luthien_proxy.Stream.Validator.{Blocks, is_message_delta, is_content_block_event}
use luthien_proxy.Stream.Validator.Accept.{accept, accept_event, content_first, quiet}
use luthien_proxy.Builder.Types.{Builder}
use luthien_proxy.Builder.Dispatch.{
  ToolStopHandler, emit_tools, emit_optional, fallback_text, marker_text, flush,
  correct_stop_reason, dispatch_tool_only, run, dispatch_start, dispatch_delta, dispatch_stop,
}
use luthien_proxy.Builder.Runs.{
  returned, ByDecisions, HooksDecide, events_of, run-cons, run-quiet, finalize-some,
  finalized-flush,
}
use luthien_proxy.Builder.Protocol.Simulation.{with_start, with_stop}
use luthien_proxy.Builder.Protocol.Emit.{
  Sim, Keeps, Keeps-append, no_delta, accept-map-append, emit_optional-Keeps, emit_tools-Keeps,
}
use luthien_proxy.Builder.Protocol.Steps.{
  dispatch_start-Keeps, dispatch_delta-Keeps, dispatch_stop-Keeps,
}

-- What an accepted event says of the upstream's blocks
accepted_start :
    (i : ℤ) (head : BlockHead) (u u' : Blocks)
    → accept_event (view (content_block_start i head)) u ≡ some u'
    → ((i ≤ℤ u.highest_start_index) ≡ false) × (u' ≡ with_start i u)
unfolding accept_event
accepted_start i head u u' h = ground arith

accepted_delta :
    (i : ℤ) (delta : Delta) (u u' : Blocks)
    → accept_event (view (content_block_delta i delta)) u ≡ some u'
    → (contains i u.started_blocks ≡ true) × (contains i u.stopped_blocks ≡ false) × (u' ≡ u)
unfolding accept_event
accepted_delta i delta u u' h = ground arith

accepted_stop :
    (i : ℤ) (u u' : Blocks)
    → accept_event (view (content_block_stop i)) u ≡ some u'
    → (contains i u.started_blocks ≡ true)
      × (contains i u.stopped_blocks ≡ false)
      × (u' ≡ with_stop i u)
unfolding accept_event
accepted_stop i u u' h = ground arith

-- An event that is passed on as it is
passed-Keeps :
    (e : Event) (b b1 : Builder) (here : List Event) (u u' d : Blocks)
    → is_message_delta (view e).type ≡ false
    → is_content_block_event (view e).type ≡ false
    → accept_event (view e) u ≡ some u'
    → Sim u d b
    → ◌≡◌ {A = Option (Builder × List Event)} (some (b, e ∷ [])) (some (b1, here))
    → Keeps u' d b1 here
unfolding accept_event accept
passed-Keeps e b b1 here u u' d q c a s r =
    let e1 : b ≡ b1 = ground arith in
    let e2 : e ∷ [] ≡ here = ground arith in
    let e3 : u ≡ u' = ground arith in
    rw (← e1, ← e2, ← e3) (record { after = d; accepted = rw c; simulates = s; quiet_delta = rw q })

step-Keeps :
    (e : Event) (h : ToolStopHandler) (b b1 : Builder) (here : List Event) (u u' d : Blocks)
    → ByDecisions h
    → is_message_delta (view e).type ≡ false
    → accept_event (view e) u ≡ some u'
    → Sim u d b
    → dispatch_tool_only e h b ≡ some (b1, here)
    → Keeps u' d b1 here
unfolding dispatch_tool_only
step-Keeps (content_block_start i head) h b b1 here u u' d by q a s r =
    let (new, e1) = accepted_start i head u u' a in
    let (e2, e3) = returned (dispatch_start i head b) r in
    rw (e1, ← e2, ← e3) (dispatch_start-Keeps i head b new s)
step-Keeps (content_block_delta i delta) h b b1 here u u' d by q a s r =
    let (opened, running, e1) = accepted_delta i delta u u' a in
    let (e2, e3) = returned (dispatch_delta i delta b) r in
    rw (e1, ← e2, ← e3) (dispatch_delta-Keeps i delta b opened running s)
step-Keeps (content_block_stop i) h b b1 here u u' d by q a s r =
    let (opened, running, e1) = accepted_stop i u u' a in
    let (e2, e3) = returned (dispatch_stop i h b) r in
    rw (e1, ← e2, ← e3) (dispatch_stop-Keeps i h b by opened running s)
step-Keeps (message_delta m) h b b1 here u u' d by q a s r = cc
step-Keeps (message_start m) h b b1 here u u' d by q a s r =
    passed-Keeps (message_start m) b b1 here u u' d refl refl a s r
step-Keeps message_stop h b b1 here u u' d by q a s r =
    passed-Keeps message_stop b b1 here u u' d refl refl a s r
step-Keeps (other_event m) h b b1 here u u' d by q a s r =
    passed-Keeps (other_event m) b b1 here u u' d refl refl a s r

-- The blocks, all closed or the upstream's own, that the flush puts before the message_delta
flush_content : Builder → Builder × List Event
flush_content b =
    let (b1, fallback) = emit_optional (fallback_text b) b in
    let (b2, warning) = emit_optional b1.pending_warning_text b1 in
    let (b3, marker) = emit_optional (marker_text b2) b2 in
    let (b4, tools) = emit_tools b3.buffered_tools b3 in
    (b4, fallback ++ (warning ++ (marker ++ tools)))

flush_split :
    (m : MessageDelta) (b : Builder)
    → (m' : MessageDelta) × ((flush m b).0 ≡ (flush_content b).0)
      × ((flush m b).1 ≡ (flush_content b).1 ++ message_delta m' ∷ [])
unfolding flush flush_content
flush_split m b = (
  record m {
    stop_reason = correct_stop_reason (is_nil (flush_content b).0.buffered_tools) m.stop_reason;
  },
  refl,
  simp append_assoc,
)

flush_content-Keeps :
    (b : Builder) {u d : Blocks} → Sim u d b → Keeps u d (flush_content b).0 (flush_content b).1
unfolding flush_content
flush_content-Keeps b s =
    let (b1, fallback) = emit_optional (fallback_text b) b in
    let (b2, warning) = emit_optional b1.pending_warning_text b1 in
    let (b3, marker) = emit_optional (marker_text b2) b2 in
    let k1 = emit_optional-Keeps (fallback_text b) b s in
    let k2 = emit_optional-Keeps b1.pending_warning_text b1 k1.simulates in
    let k3 = emit_optional-Keeps (marker_text b2) b2 k2.simulates in
    let k4 = emit_tools-Keeps b3.buffered_tools b3 k3.simulates in
    Keeps-append fallback _ k1 (Keeps-append warning _ k2 (Keeps-append marker _ k3 k4))

accept-quiet : (es : List EventView) (d : Blocks) → quiet es ≡ true → accept es d ≡ some d
unfolding accept accept_event quiet
accept-quiet [] d h = refl
accept-quiet (e ∷ es) d h = ground (arith, accept-quiet es d)

content_first-append :
    (xs ys : List Event)
    → no_delta xs ≡ true
    → content_first (map view ys) ≡ true
    → content_first (map view (xs ++ ys)) ≡ true
unfolding content_first
content_first-append [] ys h k = k
content_first-append (x ∷ xs) ys h k = ground (arith, content_first-append xs ys)

-- What holds at the end of a run
pub record Ended (u d : Blocks) (b : Builder) (out : List Event) : Type 0 where
  pub after : Blocks
  pub accepted : accept (map view out) d ≡ some after
  pub simulates : Sim u after b
  pub ordered : content_first (map view out) ≡ true

Ended-nothing : {u d : Blocks} (b : Builder) → Sim u d b → Ended u d b []
unfolding accept content_first
Ended-nothing {u} {d} b s = record { after = d; accepted = refl; simulates = s; ordered = refl }

Ended-later :
    {u d : Blocks} {b1 : Builder} (here later : List Event) (b : Builder) (k : Keeps u d b1 here)
    → (u' : Blocks) → Ended u' k.after b later
    → Ended u' d b (here ++ later)
Ended-later {d = d} here later b k u' l = record {
  after = l.after;
  accepted = accept-map-append here later d k.after k.accepted ∙ l.accepted;
  simulates = l.simulates;
  ordered = content_first-append here later k.quiet_delta l.ordered;
}

-- The flush, and behind it events that are no content
Ended-flush :
    (m : MessageDelta) (b : Builder) (rest : List Event) (u d : Blocks)
    → quiet (map view rest) ≡ true
    → Sim u d b
    → Ended u d (flush m b).0 ((flush m b).1 ++ rest)
unfolding accept accept_event content_first
Ended-flush m b rest u d q s =
    let (m', e1, e2) = flush_split m b in
    let k = flush_content-Keeps b s in
    rw (e1, e2, append_assoc)
      (Ended-later (flush_content b).1 (message_delta m' ∷ rest) (flush_content b).0 k u (record {
        after = k.after;
        accepted = accept-quiet (map view rest) k.after q;
        simulates = k.simulates;
        ordered = q;
      }))

-- The upstream's first accepted event and the rest
accept-cons :
    (e : EventView) (es : List EventView) (u u' : Blocks)
    → accept (e ∷ es) u ≡ some u'
    → (u1 : Blocks) × (accept_event e u ≡ some u1) × (accept es u1 ≡ some u')
unfolding accept
accept-cons e es u u' h = elim (Option-cases (accept_event e u)) [
  | inl failed ↦ cc (rw (failed, accept) at h)
  | inr (u1, first) ↦ (u1, first, rw first at h)
]

run-delta :
    (m : MessageDelta) (h : ToolStopHandler) (turns : List (Event × ToolStopHandler))
    (b b' : Builder) (out : List Event) (u u' d : Blocks)
    → quiet (map view (events_of turns)) ≡ true
    → accept (map view (events_of ((message_delta m, h) ∷ turns))) u ≡ some u'
    → Sim u d b
    → run ((message_delta m, h) ∷ turns) b ≡ some (b', out)
    → Ended u' d b' out
run-delta m h turns b b' out u u' d q a s r =
    let (b1, here, later, first, rest, e1) = run-cons (message_delta m) h turns b b' out r in
    let (_, e2) = finalize-some m b b1 here (unfold dispatch_tool_only in first) in
    let (e3, e4) = run-quiet turns b1 b' later (finalized-flush m b b1 here e2) q rest in
    let e5 : some u ≡ some u' =
      sym (accept-quiet (map view (events_of ((message_delta m, h) ∷ turns))) u (unfold quiet in q))
      ∙ a in
    let e6 : u ≡ u' = cc e5 in
    let e7 : b1 ≡ (flush m (record b { finalized = true })).0 =
      ap (λ (p : Builder × List Event). p.0) e2 in
    let e8 : here ≡ (flush m (record b { finalized = true })).1 =
      ap (λ (p : Builder × List Event). p.1) e2 in
    rw (e3, e1, e4, e7, e8, ← e6)
      (Ended-flush m (record b { finalized = true }) (events_of turns) u d q s)

pub run-Ended :
    (turns : List (Event × ToolStopHandler)) (b b' : Builder) (out : List Event) (u u' d : Blocks)
    → HooksDecide turns
    → content_first (map view (events_of turns)) ≡ true
    → accept (map view (events_of turns)) u ≡ some u'
    → Sim u d b
    → run turns b ≡ some (b', out)
    → Ended u' d b' out
unfolding content_first
run-Ended [] b b' out u u' d by c a s r =
    let e1 : b ≡ b' = unfold run in ground arith in
    let e2 : [] ≡ out = unfold run in ground arith in
    let e3 : u ≡ u' = unfold accept in ground arith in rw (← e1, ← e2, ← e3) (Ended-nothing b s)
run-Ended ((message_delta m, h) ∷ turns) b b' out u u' d by c a s r =
    run-delta m h turns b b' out u u' d c a s r
run-Ended ((e, h) ∷ turns) b b' out u u' d by c a s r =
    let (b1, here, later, first, rest, e1) = run-cons e h turns b b' out r in
    let (u1, a1, a2) = accept-cons (view e) (map view (events_of turns)) u u' a in
    let k = step-Keeps e h b b1 here u u1 d by.0 refl a1 s first in
    rw e1 (
      Ended-later here later b' k u'
        (run-Ended turns b1 b' later u1 u' k.after by.1 c a2 k.simulates rest))
