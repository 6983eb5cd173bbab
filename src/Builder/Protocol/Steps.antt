-- ===== src/Builder/Protocol/Steps.antt =====
-- Each event of the upstream keeps the simulation, and what it puts out is accepted.
use luthien_proxy.Base.{
  ℕ, ℤ, pos, ◌≤ℤ◌, ◌≡◌, refl, ◌∙◌, true, false, Option, none, some, [], ◌∷◌, map, inl, inr,
  contains, Option-cases,
}
use luthien_proxy.Base.Dict
use luthien_proxy.Stream.Event.{
  content_block_start, content_block_stop, BlockHead, text_block, tool_use_block, other_block,
  Delta, text_delta, input_json_delta, other_delta, view,
}
use luthien_proxy.Stream.Validator.{Blocks}
use luthien_proxy.Stream.Validator.Accept.{accept, accept_event}
use luthien_proxy.Builder
use luthien_proxy.Builder.Types.{Builder, BufferedTool}
use luthien_proxy.Builder.Dispatch.{
  ToolStopHandler, dispatch_start, dispatch_delta, dispatch_stop, stopped,
}
use luthien_proxy.Builder.Runs.{ByDecisions}
use luthien_proxy.Builder.Protocol.Simulation.{with_start, with_stop, refilled_tool}
use luthien_proxy.Builder.Protocol.Simulation.Start.{tool_block, passed_block}
use luthien_proxy.Builder.Protocol.Simulation.Stop.{swallowed_stop, passed_stop}
use luthien_proxy.Builder.Protocol.Emit.{Sim, Keeps, Keeps-nothing, decide_all-Keeps}

-- A start of the upstream
accept_start :
    (n : ℕ) (head : BlockHead) (d : Blocks)
    → (pos n ≤ℤ d.highest_start_index) ≡ false
    → accept (map view (content_block_start (pos n) head ∷ [])) d ≡ some (with_start (pos n) d)
unfolding accept accept_event
accept_start n head d h = rw h

passthrough_start-Keeps :
    (i : ℤ) (head : BlockHead) (b : Builder) {u d : Blocks}
    → (i ≤ℤ u.highest_start_index) ≡ false
    → Sim u d b
    → Keeps
        (with_start i u)
        d
        (Builder.passthrough_start i head b).0
        (Builder.passthrough_start i head b).1
unfolding Builder.passthrough_start
passthrough_start-Keeps i head b {d = d} fresh s = record {
  after = with_start (pos b.next_output_index) d;
  accepted = accept_start b.next_output_index head d s.d_highest;
  simulates = passed_block s i fresh;
  quiet_delta = refl;
}

pub dispatch_start-Keeps :
    (i : ℤ) (head : BlockHead) (b : Builder) {u d : Blocks}
    → (i ≤ℤ u.highest_start_index) ≡ false
    → Sim u d b
    → Keeps (with_start i u) d (dispatch_start i head b).0 (dispatch_start i head b).1
unfolding dispatch_start Builder.begin_tool_buffer
dispatch_start-Keeps i (tool_use_block id n) b fresh s = Keeps-nothing (tool_block s i fresh _)
dispatch_start-Keeps i (text_block t) b fresh s = passthrough_start-Keeps i (text_block t) b fresh s
dispatch_start-Keeps i (other_block t) b fresh s =
    passthrough_start-Keeps i (other_block t) b fresh s

-- A delta of the upstream to an open block
passthrough_delta-Keeps :
    (i : ℤ) (delta : Delta) (b : Builder) {u d : Blocks}
    → contains i u.started_blocks ≡ true
    → contains i u.stopped_blocks ≡ false
    → Sim u d b
    → Keeps u d b (Builder.passthrough_delta i delta b)
unfolding Builder.passthrough_delta accept accept_event
passthrough_delta-Keeps i delta b {u} {d} opened running s =
    elim (Option-cases (Dict.get b.passthrough_index_map i)) [
      | inl missing ↦ rw (missing, Builder.passthrough_delta) (Keeps-nothing s)
      | inr (k, found) ↦
          let m = s.mapped i k found in
          rw (found, Builder.passthrough_delta)
            (record {
              after = d;
              accepted = rw (m.image_started, m.same_stop, running);
              simulates = s;
              quiet_delta = refl;
            })
    ]

pub dispatch_delta-Keeps :
    (i : ℤ) (delta : Delta) (b : Builder) {u d : Blocks}
    → contains i u.started_blocks ≡ true
    → contains i u.stopped_blocks ≡ false
    → Sim u d b
    → Keeps u d (dispatch_delta i delta b).0 (dispatch_delta i delta b).1
unfolding dispatch_delta Builder.append_tool_delta
dispatch_delta-Keeps i (text_delta t) b opened running s =
    passthrough_delta-Keeps i (text_delta t) b opened running s
dispatch_delta-Keeps i (other_delta t p) b opened running s =
    passthrough_delta-Keeps i (other_delta t p) b opened running s
dispatch_delta-Keeps i (input_json_delta t) b opened running s =
    elim (Option-cases (Dict.get b.tool_buffer i)) [
      | inl missing ↦
          rw (missing, Builder.append_tool_delta)
            (passthrough_delta-Keeps i (input_json_delta t) b opened running s)
      | inr (tool, found) ↦
          rw (found, Builder.append_tool_delta) (Keeps-nothing (refilled_tool s i tool _ found))
    ]

-- A stop of the upstream for an open block
accept_stop :
    (k : ℕ) (d : Blocks)
    → contains (pos k) d.started_blocks ≡ true
    → contains (pos k) d.stopped_blocks ≡ false
    → accept (map view (content_block_stop (pos k) ∷ [])) d ≡ some (with_stop (pos k) d)
unfolding accept accept_event
accept_stop k d h h' = rw (h, h')

stopped-Keeps :
    (i : ℤ) (h : ToolStopHandler) (o : Option BufferedTool) (b : Builder) {u d : Blocks}
    → ByDecisions h
    → contains i u.started_blocks ≡ true
    → contains i u.stopped_blocks ≡ false
    → Dict.get b.tool_buffer i ≡ o
    → Sim u d b
    → Keeps
        (with_stop i u)
        d
        (stopped o i h (Builder.take_tool i b).0).0
        (stopped o i h (Builder.take_tool i b).0).1
unfolding stopped Builder.take_tool Builder.passthrough_stop Dict.remove
stopped-Keeps i h (some tool) b by opened running found s =
    let (ds, e) = by tool (Builder.take_tool i b).0 in
    rw e (decide_all-Keeps ds _ (swallowed_stop s i opened (s.tool_unmapped i tool found)))
stopped-Keeps i h none b {u} {d} by opened running found s =
    elim (Option-cases (Dict.get b.passthrough_index_map i)) [
      | inl missing ↦
          rw (missing, Builder.passthrough_stop) (Keeps-nothing (swallowed_stop s i opened missing))
      | inr (k, image) ↦
          let m = s.mapped i k image in
          rw (image, Builder.passthrough_stop)
            (record {
              after = with_stop (pos k) d;
              accepted = accept_stop k d m.image_started (m.same_stop ∙ running);
              simulates = passed_stop s i opened k image;
              quiet_delta = refl;
            })
    ]

pub dispatch_stop-Keeps :
    (i : ℤ) (h : ToolStopHandler) (b : Builder) {u d : Blocks}
    → ByDecisions h
    → contains i u.started_blocks ≡ true
    → contains i u.stopped_blocks ≡ false
    → Sim u d b
    → Keeps (with_stop i u) d (dispatch_stop i h b).0 (dispatch_stop i h b).1
unfolding dispatch_stop Builder.take_tool
dispatch_stop-Keeps i h b by opened running s =
    stopped-Keeps i h (Dict.get b.tool_buffer i) b by opened running refl s
