-- ===== src/Builder/Response/Blocks.antt =====
-- The blocks that the builder keeps for the response before the tools.
use luthien_proxy.Base.{◌≡◌, refl, Bool, true, false, not, ◌&&◌, List, [], ◌∷◌, ◌++◌, arith}
use luthien_proxy.Json.{JsonLib}
use luthien_proxy.Builder
use luthien_proxy.Builder.Types.{ContentBlock, BufferedTool, Builder}
use luthien_proxy.Builder.Dispatch.{
  Decision, decide, decide_all, commit_text, buffer_tool, record_blocked_tool,
}
use luthien_proxy.Builder.Response.{
  ToolBlockHandler, commit_block, commit_blocks, is_tool_block, input_text,
}

-- no tool_use block
abbrev pub no_tools : List ContentBlock → Bool
no_tools [] = true
no_tools (block ∷ blocks) = not (is_tool_block block) && no_tools blocks

pub no_tools-snoc :
    (xs : List ContentBlock) (x : ContentBlock)
    → no_tools xs ≡ true
    → is_tool_block x ≡ false
    → no_tools (xs ++ x ∷ []) ≡ true
no_tools-snoc [] x h k = ground arith
no_tools-snoc (y ∷ xs) x h k = ground (arith, no_tools-snoc xs x)

-- The hook records its decisions by the three primitives alone.
abbrev pub ByDecisions : ToolBlockHandler → Type 0
ByDecisions on_tool =
    (tool : BufferedTool) (b : Builder)
    → (ds : List Decision) × (on_tool tool b ≡ (decide_all ds b).0)

-- A builder that has not been finalized and keeps no tool among the other blocks
pub record Open (b : Builder) : Type 0 where
  pub running : b.finalized ≡ false
  pub clean : no_tools b.pre_tool_blocks ≡ true

decide-Open : (d : Decision) (b : Builder) → Open b → Open (decide d b).0
unfolding decide Builder.commit_text Builder.emit_text_now Builder.buffer_tool
    Builder.record_blocked_tool
decide-Open (commit_text text) b o = record {
  running = ground (arith, o.running);
  clean = ground (arith, o.clean, no_tools-snoc b.pre_tool_blocks (ContentBlock.text text));
}
decide-Open (buffer_tool id name input_json) b o = record { running = o.running; clean = o.clean }
decide-Open (record_blocked_tool name judge_failed) b o = record {
  running = o.running;
  clean = o.clean;
}

decide_all-Open : (ds : List Decision) (b : Builder) → Open b → Open (decide_all ds b).0
unfolding decide_all
decide_all-Open [] b o = o
decide_all-Open (d ∷ ds) b o = decide_all-Open ds (decide d b).0 (decide-Open d b o)

commit_block-Open :
    (lib : JsonLib) (block : ContentBlock) (on_tool : ToolBlockHandler) (b : Builder)
    → ByDecisions on_tool
    → Open b
    → Open (commit_block lib block on_tool b)
unfolding commit_block Builder.commit_raw_block
commit_block-Open lib (ContentBlock.text text) on_tool b by o =
    unfold decide in decide-Open (commit_text text) b o
commit_block-Open lib (ContentBlock.tool_use id name input) on_tool b by o =
    let (ds, e) = by (record { id = id; name = name; input_json = input_text lib input }) b in
    rw e (decide_all-Open ds b o)
commit_block-Open lib (ContentBlock.raw type payload) on_tool b by o = record {
  running = o.running;
  clean = no_tools-snoc b.pre_tool_blocks (ContentBlock.raw type payload) o.clean refl;
}

abbrev pub AllDecide : List (ContentBlock × ToolBlockHandler) → Type 0
AllDecide [] = Unit {0}
AllDecide ((_, on_tool) ∷ blocks) = ByDecisions on_tool × AllDecide blocks

pub commit_blocks-Open :
    (lib : JsonLib) (blocks : List (ContentBlock × ToolBlockHandler)) (b : Builder)
    → AllDecide blocks
    → Open b
    → Open (commit_blocks lib blocks b)
unfolding commit_blocks
commit_blocks-Open lib [] b by o = o
commit_blocks-Open lib ((block, on_tool) ∷ blocks) b by o =
    commit_blocks-Open lib blocks (commit_block lib block on_tool b) by.1
      (commit_block-Open lib block on_tool b by.0 o)
