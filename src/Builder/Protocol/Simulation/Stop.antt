-- ===== src/Builder/Protocol/Simulation/Stop.antt =====
-- The simulation when the upstream stops a block.
use luthien_proxy.Base.{
  ℕ, ℤ, pos, ==ℤ_iff, ◌≡◌, true, none, some, inl, inr, contains, contains-add, arith,
}
use luthien_proxy.Base.Dict
use luthien_proxy.Base.Dict.{Dict, get-put, get-remove, get-empty, put-cases, remove-some}
use luthien_proxy.Stream.Validator.{Blocks}
use luthien_proxy.Builder.Types.{BufferedTool}
use luthien_proxy.Builder.Protocol.Simulation.{Simulates, with_stop, contains-add_old, add-cases}

module _ {u d : Blocks} {n : ℕ} {pm : Dict ℕ} {tb : Dict BufferedTool}
    (s : Simulates u d n pm tb) where
  -- the upstream stops block `i`, which is open
  module _ (i : ℤ) (opened : contains i u.started_blocks ≡ true) where
    u_stopped_stop :
        (j : ℤ)
        → contains j (with_stop i u).stopped_blocks ≡ true
        → contains j u.started_blocks ≡ true
    u_stopped_stop j h = elim (add-cases i j u.stopped_blocks h) [
      | inl here ↦ rw here opened
      | inr old ↦ s.u_stopped j old
    ]

    -- it has no image: nothing goes out
    pub swallowed_stop : Dict.get pm i ≡ none → Simulates (with_stop i u) d n pm (Dict.remove tb i)
    swallowed_stop unmapped = record {
      u_below = s.u_below;
      u_stopped = u_stopped_stop;
      d_highest = s.d_highest;
      d_below = s.d_below;
      mapped = λ j k h.
          let m = s.mapped j k h in
          record {
            source_started = m.source_started;
            image_started = m.image_started;
            same_stop = ground (arith, contains-add i j u.stopped_blocks, m.same_stop, ==ℤ_iff i j);
            below = m.below;
          };
      injective = s.injective;
      tool_started = λ j t h. s.tool_started j t (remove-some tb i j t h);
      tool_unmapped = λ j t h. s.tool_unmapped j t (remove-some tb i j t h);
      answered = s.answered;
    }

    -- its image is stopped
    pub passed_stop :
        (k : ℕ)
        → Dict.get pm i ≡ some k
        → Simulates (with_stop i u) (with_stop (pos k) d) n pm (Dict.remove tb i)
    passed_stop k found = record {
      u_below = s.u_below;
      u_stopped = u_stopped_stop;
      d_highest = s.d_highest;
      d_below = λ l h. ground (
        arith,
        contains-add (pos k) (pos l) d.stopped_blocks,
        s.d_below l,
        (s.mapped i k found).below,
      );
      mapped = λ j l h.
          let m = s.mapped j l h in
          record {
            source_started = m.source_started;
            image_started = m.image_started;
            same_stop = ground (
              arith,
              contains-add i j u.stopped_blocks,
              contains-add (pos k) (pos l) d.stopped_blocks,
              m.same_stop,
              ==ℤ_iff i j,
              ==ℤ_iff (pos k) (pos l),
              s.injective i j k found,
            );
            below = m.below;
          };
      injective = s.injective;
      tool_started = λ j t h. s.tool_started j t (remove-some tb i j t h);
      tool_unmapped = λ j t h. s.tool_unmapped j t (remove-some tb i j t h);
      answered = λ j h. elim (s.answered j h) [
        | inl closed ↦ inl (contains-add_old (pos k) j d.stopped_blocks closed)
        | inr image ↦ inr image
      ];
    }
