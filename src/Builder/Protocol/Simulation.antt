-- ===== src/Builder/Protocol/Simulation.antt =====
-- The relation between the upstream's blocks `u`, the blocks `d` of what has gone out, and the
-- builder's next index, index map and tool buffer.
pub mod Start
pub mod Stop
use luthien_proxy.Base.{
  ℕ, suc, ◌<◌, ℤ, pos, ◌==ℤ◌, ==ℤ_iff, ==ℤ_refl, ◌≤ℤ◌, is_negative, ◌≡◌, refl, Bool, true, false,
  Option, none, some, List, [], ◌∷◌, map, ◌⊎◌, inl, inr, contains, contains-add, contains-nil, add,
  arith, Option-cases, ≤ℤ_refl, ≤ℤ_trans_total,
}
use luthien_proxy.Base.Dict
use luthien_proxy.Base.Dict.{get-put, Dict, get-put, get-remove, get-empty, put-cases, remove-some}
use luthien_proxy.Stream.Validator.{Blocks, no_blocks}
use luthien_proxy.Builder.Types.{BufferedTool}

-- A block that has gone out and is not closed is the image of an upstream block.
abbrev pub Answered : Dict ℕ → Blocks → ℤ → Type 0
Answered pm d i =
    (contains i d.stopped_blocks ≡ true)
    ⊎ ((j : ℤ) × (k : ℕ) × (Dict.get pm j ≡ some k) × (i ≡ pos k))

pub record Mapped (u d : Blocks) (next : ℕ) (i : ℤ) (k : ℕ) : Type 0 where
  pub source_started : contains i u.started_blocks ≡ true
  pub image_started : contains (pos k) d.started_blocks ≡ true
  pub same_stop : contains (pos k) d.stopped_blocks ≡ contains i u.stopped_blocks
  pub below : k < next

pub record Simulates (u d : Blocks) (next : ℕ) (pm : Dict ℕ) (tb : Dict BufferedTool) : Type 0 where
  pub u_below : (i : ℤ) → contains i u.started_blocks ≡ true → (i ≤ℤ u.highest_start_index) ≡ true
  pub u_stopped : (i : ℤ) → contains i u.stopped_blocks ≡ true → contains i u.started_blocks ≡ true
  pub d_highest : (pos next ≤ℤ d.highest_start_index) ≡ false
  pub d_below : (k : ℕ) → contains (pos k) d.stopped_blocks ≡ true → k < next
  pub mapped : (i : ℤ) (k : ℕ) → Dict.get pm i ≡ some k → Mapped u d next i k
  pub injective : (i j : ℤ) (k : ℕ) → Dict.get pm i ≡ some k → Dict.get pm j ≡ some k → i ≡ j
  pub tool_started :
      (i : ℤ) (t : BufferedTool) → Dict.get tb i ≡ some t → contains i u.started_blocks ≡ true
  pub tool_unmapped : (i : ℤ) (t : BufferedTool) → Dict.get tb i ≡ some t → Dict.get pm i ≡ none
  pub answered : (i : ℤ) → contains i d.started_blocks ≡ true → Answered pm d i

pub initial : Simulates no_blocks no_blocks 0 Dict.empty Dict.empty
initial = record {
  u_below = λ i h. cc (contains-nil i);
  u_stopped = λ i h. h;
  d_highest = refl;
  d_below = λ k h. cc (contains-nil (pos k));
  mapped = λ i k h. absurd (cc (get-empty {V = ℕ} i));
  injective = λ i j k h. absurd (cc (get-empty {V = ℕ} i));
  tool_started = λ i t h. absurd (cc (get-empty {V = BufferedTool} i));
  tool_unmapped = λ i t h. absurd (cc (get-empty {V = BufferedTool} i));
  answered = λ i h. absurd (cc (contains-nil i));
}

-- `d` with one more block that has been started and stopped
abbrev pub with_whole : ℕ → Blocks → Blocks
with_whole n d = record {
  started_blocks = add (pos n) d.started_blocks;
  stopped_blocks = add (pos n) d.stopped_blocks;
  highest_start_index = pos n;
}

abbrev pub with_start : ℤ → Blocks → Blocks
with_start i u = record {
  started_blocks = add i u.started_blocks;
  stopped_blocks = u.stopped_blocks;
  highest_start_index = i;
}

abbrev pub with_stop : ℤ → Blocks → Blocks
with_stop i u = record u { stopped_blocks = add i u.stopped_blocks }

pub contains-add_old : (n i : ℤ) (s : List ℤ) → contains i s ≡ true → contains i (add n s) ≡ true
contains-add_old n i s h = ground (arith, contains-add n i s)

pub contains-add_self : (n : ℤ) (s : List ℤ) → contains n (add n s) ≡ true
contains-add_self n s = rw (contains-add, ==ℤ_refl)

-- A member of a set with one more element is that element or an old member.
pub add-cases :
    (n i : ℤ) (s : List ℤ) → contains i (add n s) ≡ true → (i ≡ n) ⊎ (contains i s ≡ true)
add-cases n i s h = ground (arith, contains-add n i s, ==ℤ_iff n i)

module _ {u d : Blocks} {n : ℕ} {pm : Dict ℕ} {tb : Dict BufferedTool}
    (s : Simulates u d n pm tb) where
  Mapped-whole : (i : ℤ) (k : ℕ) → Dict.get pm i ≡ some k → Mapped u (with_whole n d) (suc n) i k
  Mapped-whole i k h =
      let m = s.mapped i k h in
      record {
        source_started = m.source_started;
        image_started = contains-add_old (pos n) (pos k) d.started_blocks m.image_started;
        same_stop =
            ground (arith, contains-add (pos n) (pos k) d.stopped_blocks, m.same_stop, m.below);
        below = omega (arith, m.below);
      }

  Answered-whole :
      (i : ℤ) → contains i (with_whole n d).started_blocks ≡ true → Answered pm (with_whole n d) i
  Answered-whole i h = elim (add-cases (pos n) i d.started_blocks h) [
    | inl here ↦ inl (rw here (contains-add_self (pos n) d.stopped_blocks))
    | inr old ↦ elim (s.answered i old) [
      | inl closed ↦ inl (contains-add_old (pos n) i d.stopped_blocks closed)
      | inr image ↦ inr image
    ]
  ]

  -- a whole block of the builder's own
  pub whole_block : Simulates u (with_whole n d) (suc n) pm tb
  whole_block = record {
    u_below = s.u_below;
    u_stopped = s.u_stopped;
    d_highest = ground arith;
    d_below = λ k h. ground (arith, contains-add (pos n) (pos k) d.stopped_blocks, s.d_below k);
    mapped = Mapped-whole;
    injective = s.injective;
    tool_started = s.tool_started;
    tool_unmapped = s.tool_unmapped;
    answered = Answered-whole;
  }

  -- the buffer of a tool block grows
  pub refilled_tool :
      (i : ℤ) (t t' : BufferedTool) → Dict.get tb i ≡ some t → Simulates u d n pm (Dict.put tb i t')
  refilled_tool i t t' found = record {
    u_below = s.u_below;
    u_stopped = s.u_stopped;
    d_highest = s.d_highest;
    d_below = s.d_below;
    mapped = s.mapped;
    injective = s.injective;
    tool_started = λ j x h.
        ground
          (arith, get-put tb i j t', ==ℤ_iff i j, s.tool_started i t found, s.tool_started j x);
    tool_unmapped = λ j x h.
        ground
          (arith, get-put tb i j t', ==ℤ_iff i j, s.tool_unmapped i t found, s.tool_unmapped j x);
    answered = s.answered;
  }
