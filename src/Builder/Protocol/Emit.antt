-- ===== src/Builder/Protocol/Emit.antt =====
-- What the builder puts out by itself, whole blocks, is accepted and keeps the simulation.
use mathlib.Core.List.{map-append}
use luthien_proxy.Base.{
  ℕ, pos, ◌≤ℤ◌, ◌≡◌, refl, ◌∙◌, String, Bool, true, false, not, ◌&&◌, Option, none, some, List, [],
  ◌∷◌, ◌++◌, map, inl, inr, contains, contains-add, ==ℤ_refl, arith, Bool-cases, str_eq,
}
use luthien_proxy.Stream.Event.{
  Event, content_block_start, content_block_delta, content_block_stop, BlockHead, text_block,
  tool_use_block, Delta, text_delta, input_json_delta, view,
}
use luthien_proxy.Stream.Validator.{Blocks, is_message_delta}
use luthien_proxy.Stream.Validator.Accept.{accept, accept_event, accept-append}
use luthien_proxy.Builder
use luthien_proxy.Builder.Types.{Builder, QueuedTool}
use luthien_proxy.Builder.Dispatch.{
  Decision, commit_text, buffer_tool, record_blocked_tool, decide, decide_all, emit_tools,
  emit_optional,
}
use luthien_proxy.Builder.Protocol.Simulation.{Simulates, whole_block, with_whole}

abbrev pub Sim : Blocks → Blocks → Builder → Type 0
Sim u d b = Simulates u d b.next_output_index b.passthrough_index_map b.tool_buffer

abbrev pub no_delta : List Event → Bool
no_delta [] = true
no_delta (e ∷ es) = not (is_message_delta (view e).type) && no_delta es

-- `out` is accepted behind `d`, holds no message_delta, and leads to a state that simulates.
pub record Keeps (u d : Blocks) (b : Builder) (out : List Event) : Type 0 where
  pub after : Blocks
  pub accepted : accept (map view out) d ≡ some after
  pub simulates : Sim u after b
  pub quiet_delta : no_delta out ≡ true

pub no_delta-append :
    (xs ys : List Event) → no_delta xs ≡ true → no_delta ys ≡ true → no_delta (xs ++ ys) ≡ true
no_delta-append [] ys h k = k
no_delta-append (x ∷ xs) ys h k = ground (arith, no_delta-append xs ys)

pub accept-map-append :
    (xs ys : List Event) (d d1 : Blocks)
    → accept (map view xs) d ≡ some d1
    → accept (map view (xs ++ ys)) d ≡ accept (map view ys) d1
accept-map-append xs ys d d1 h = rw (map-append, accept-append, h)

pub Keeps-nothing : {u d : Blocks} {b : Builder} → Sim u d b → Keeps u d b []
unfolding accept
Keeps-nothing {u} {d} s = record { after = d; accepted = refl; simulates = s; quiet_delta = refl }

pub Keeps-append :
    {u d : Blocks} {b1 b2 : Builder} (xs ys : List Event) (k : Keeps u d b1 xs)
    → Keeps u k.after b2 ys
    → Keeps u d b2 (xs ++ ys)
Keeps-append {u} {d} xs ys k l = record {
  after = l.after;
  accepted = accept-map-append xs ys d k.after k.accepted ∙ l.accepted;
  simulates = l.simulates;
  quiet_delta = no_delta-append xs ys k.quiet_delta l.quiet_delta;
}

accept_whole :
    (n : ℕ) (head : BlockHead) (delta : Delta) (d : Blocks)
    → (pos n ≤ℤ d.highest_start_index) ≡ false
    → contains (pos n) d.stopped_blocks ≡ false
    → accept
        (map view (
          content_block_start (pos n) head
          ∷ content_block_delta (pos n) delta
          ∷ content_block_stop (pos n)
          ∷ []))
        d
      ≡ some (with_whole n d)
unfolding accept accept_event
accept_whole n head delta d h k =
    rw h (rw (contains-add, ==ℤ_refl) (rw k (rw (contains-add, ==ℤ_refl) (rw k))))

not_stopped :
    (u d : Blocks) (b : Builder)
    → Sim u d b
    → contains (pos b.next_output_index) d.stopped_blocks ≡ false
not_stopped u d b s = elim (Bool-cases (contains (pos b.next_output_index) d.stopped_blocks)) [
  | inl closed ↦ absurd (omega (arith, s.d_below b.next_output_index closed))
  | inr opened ↦ opened
]

pub emit_text_now-Keeps :
    (text : String) (b : Builder) {u d : Blocks}
    → Sim u d b
    → Keeps u d (Builder.emit_text_now text b).0 (Builder.emit_text_now text b).1
unfolding Builder.emit_text_now
emit_text_now-Keeps text b {u} {d} s = record {
  after = with_whole b.next_output_index d;
  accepted =
      accept_whole b.next_output_index (text_block "") (text_delta text) d s.d_highest
        (not_stopped u d b s);
  simulates = whole_block s;
  quiet_delta = refl;
}

pub emit_tool_now-Keeps :
    (tool : QueuedTool) (b : Builder) {u d : Blocks}
    → Sim u d b
    → Keeps u d (Builder.emit_tool_now tool b).0 (Builder.emit_tool_now tool b).1
unfolding Builder.emit_tool_now
emit_tool_now-Keeps tool b {u} {d} s = record {
  after = with_whole b.next_output_index d;
  accepted =
      accept_whole b.next_output_index (tool_use_block tool.id tool.name)
        (input_json_delta (Builder.or_empty_object tool.input_json)) d s.d_highest
        (not_stopped u d b s);
  simulates = whole_block s;
  quiet_delta = refl;
}

pub emit_tools-Keeps :
    (tools : List QueuedTool) (b : Builder) {u d : Blocks}
    → Sim u d b
    → Keeps u d (emit_tools tools b).0 (emit_tools tools b).1
unfolding emit_tools
emit_tools-Keeps [] b s = Keeps-nothing s
emit_tools-Keeps (tool ∷ tools) b s =
    let k = emit_tool_now-Keeps tool b s in
    Keeps-append (Builder.emit_tool_now tool b).1 _ k (emit_tools-Keeps tools _ k.simulates)

pub emit_optional-Keeps :
    (o : Option String) (b : Builder) {u d : Blocks}
    → Sim u d b
    → Keeps u d (emit_optional o b).0 (emit_optional o b).1
unfolding emit_optional
emit_optional-Keeps none b s = Keeps-nothing s
emit_optional-Keeps (some text) b s = emit_text_now-Keeps text b s

decide-Keeps :
    (x : Decision) (b : Builder) {u d : Blocks}
    → Sim u d b
    → Keeps u d (decide x b).0 (decide x b).1
unfolding decide Builder.commit_text Builder.buffer_tool Builder.record_blocked_tool
decide-Keeps (commit_text text) b s = elim (Bool-cases (str_eq text "")) [
  | inl nothing ↦ rw nothing (Keeps-nothing s)
  | inr something ↦ rw something (emit_text_now-Keeps text b s)
]
decide-Keeps (buffer_tool i n j) b s = Keeps-nothing s
decide-Keeps (record_blocked_tool n f) b s = Keeps-nothing s

pub decide_all-Keeps :
    (ds : List Decision) (b : Builder) {u d : Blocks}
    → Sim u d b
    → Keeps u d (decide_all ds b).0 (decide_all ds b).1
unfolding decide_all
decide_all-Keeps [] b s = Keeps-nothing s
decide_all-Keeps (x ∷ ds) b s =
    let k = decide-Keeps x b s in
    Keeps-append (decide x b).1 _ k (decide_all-Keeps ds _ k.simulates)
