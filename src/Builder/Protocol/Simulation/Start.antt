-- ===== src/Builder/Protocol/Simulation/Start.antt =====
-- The simulation when the upstream starts a block.
use luthien_proxy.Base.{
  ℕ, suc, ℤ, pos, ==ℤ_iff, ==ℤ_refl, ◌≤ℤ◌, ◌≡◌, true, false, none, some, inl, inr, contains,
  contains-add, arith, Option-cases, ≤ℤ_refl, ≤ℤ_trans_total,
}
use luthien_proxy.Base.Dict
use luthien_proxy.Base.Dict.{Dict, get-put, get-remove, get-empty, put-cases, remove-some}
use luthien_proxy.Stream.Validator.{Blocks}
use luthien_proxy.Builder.Types.{BufferedTool}
use luthien_proxy.Builder.Protocol.Simulation.{
  Answered, Mapped, Simulates, with_start, contains-add_old, contains-add_self, add-cases,
}

module _ {u d : Blocks} {n : ℕ} {pm : Dict ℕ} {tb : Dict BufferedTool}
    (s : Simulates u d n pm tb) where
  -- the upstream starts block `i`, which is new
  module _ (i : ℤ) (fresh : (i ≤ℤ u.highest_start_index) ≡ false) where
    not_started : contains i u.started_blocks ≡ false
    not_started = ground (arith, s.u_below i)

    unmapped : Dict.get pm i ≡ none
    unmapped = elim (Option-cases (Dict.get pm i)) [
      | inl missing ↦ missing
      | inr (k, found) ↦ absurd (cc (not_started, (s.mapped i k found).source_started))
    ]

    u_below_start : (j : ℤ) → contains j (with_start i u).started_blocks ≡ true → (j ≤ℤ i) ≡ true
    u_below_start j h = elim (add-cases i j u.started_blocks h) [
      | inl here ↦ rw here (≤ℤ_refl i)
      | inr old ↦ ≤ℤ_trans_total j u.highest_start_index i (s.u_below j old) fresh
    ]

    u_stopped_start :
        (j : ℤ)
        → contains j u.stopped_blocks ≡ true
        → contains j (with_start i u).started_blocks ≡ true
    u_stopped_start j h = contains-add_old i j u.started_blocks (s.u_stopped j h)

    -- a tool block is kept back
    pub tool_block : (t : BufferedTool) → Simulates (with_start i u) d n pm (Dict.put tb i t)
    tool_block t = record {
      u_below = u_below_start;
      u_stopped = u_stopped_start;
      d_highest = s.d_highest;
      d_below = s.d_below;
      mapped = λ j k h.
          let m = s.mapped j k h in
          record {
            source_started = contains-add_old i j u.started_blocks m.source_started;
            image_started = m.image_started;
            same_stop = m.same_stop;
            below = m.below;
          };
      injective = s.injective;
      tool_started = λ j t' h.
          ground (arith, contains-add i j u.started_blocks, get-put tb i j t, s.tool_started j t');
      tool_unmapped =
          λ j t' h. ground (arith, get-put tb i j t, s.tool_unmapped j t', unmapped, ==ℤ_iff i j);
      answered = s.answered;
    }

    Mapped-new : Mapped (with_start i u) (with_start (pos n) d) (suc n) i n
    Mapped-new = record {
      source_started = contains-add_self i u.started_blocks;
      image_started = contains-add_self (pos n) d.started_blocks;
      same_stop = ground (arith, s.d_below n, s.u_stopped i, not_started);
      below = omega arith;
    }

    Mapped-passed :
        (j : ℤ) (k : ℕ)
        → Dict.get (Dict.put pm i n) j ≡ some k
        → Mapped (with_start i u) (with_start (pos n) d) (suc n) j k
    Mapped-passed j k h = elim (put-cases pm i j n k h) [
      | inl (e1, e2) ↦ rw (e1, e2) Mapped-new
      | inr old ↦
          let m = s.mapped j k old in
          record {
            source_started = contains-add_old i j u.started_blocks m.source_started;
            image_started = contains-add_old (pos n) (pos k) d.started_blocks m.image_started;
            same_stop = m.same_stop;
            below = omega (arith, m.below);
          }
    ]

    injective_passed :
        (j l : ℤ) (k : ℕ)
        → Dict.get (Dict.put pm i n) j ≡ some k
        → Dict.get (Dict.put pm i n) l ≡ some k
        → j ≡ l
    injective_passed j l k h h' = elim (put-cases pm i j n k h) [
      | inl (e1, e2) ↦ elim (put-cases pm i l n k h') [
        | inl (e3, e4) ↦ cc
        | inr old ↦ absurd (omega (arith, e2, (s.mapped l k old).below))
      ]
      | inr old ↦ elim (put-cases pm i l n k h') [
        | inl (e3, e4) ↦ absurd (omega (arith, e4, (s.mapped j k old).below))
        | inr old' ↦ s.injective j l k old old'
      ]
    ]

    Answered-passed :
        (j : ℤ)
        → contains j (with_start (pos n) d).started_blocks ≡ true
        → Answered (Dict.put pm i n) (with_start (pos n) d) j
    Answered-passed j h = elim (add-cases (pos n) j d.started_blocks h) [
      | inl here ↦ inr (i, n, rw (get-put, ==ℤ_refl), here)
      | inr old ↦ elim (s.answered j old) [
        | inl closed ↦ inl closed
        | inr (l, k, found, e) ↦
            inr (l, k, ground (arith, get-put pm i l n, unmapped, ==ℤ_iff i l), e)
      ]
    ]

    -- any other block goes out under the next index
    pub passed_block :
        Simulates (with_start i u) (with_start (pos n) d) (suc n) (Dict.put pm i n) tb
    passed_block = record {
      u_below = u_below_start;
      u_stopped = u_stopped_start;
      d_highest = ground arith;
      d_below = λ k h. omega (arith, s.d_below k h);
      mapped = Mapped-passed;
      injective = injective_passed;
      tool_started = λ j t h. contains-add_old i j u.started_blocks (s.tool_started j t h);
      tool_unmapped = λ j t h. ground (
        arith,
        get-put pm i j n,
        s.tool_unmapped j t,
        s.tool_started j t,
        not_started,
        ==ℤ_iff i j,
      );
      answered = Answered-passed;
    }
