-- ===== src/Policies/StringReplacement/Requests.antt =====
-- The request hook does what its description says.
use luthien_proxy.Base.{
  ℕ, ◌+◌, ◌≤◌, ◌≡◌, refl, sym, ap, ◌∙◌, true, false, Option, none, some, List, [], ◌∷◌, arith,
  is_nil, ◌==◌, Bool-cases, inl, inr,
}
use luthien_proxy.Text.{Text}
use luthien_proxy.Policies.StringReplacement.{CaseLib, StringReplacement, replace_text}
use luthien_proxy.Policies.StringReplacement.Stream.{ModifiedEvent}
use luthien_proxy.Policies.StringReplacement.Sides.{
  InnerBlock, inner_text, inner_other, whole, parts, absent, Block, text_block, tool_result,
  other_block, Content, plain, blocks, other_content, Message, no_changes, Stats, change,
  if_changed, change_parts, apply_to_block, add_stats, apply_to_blocks, apply_to_content,
  apply_to_messages, replacement_request,
}
use luthien_proxy.Policies.StringReplacement.Everywhere.{
  map_inner, map_block, map_blocks, map_content, map_messages, replace_text-idle,
}

sum_zero : (s : Stats) (n : ℕ) → (if_changed s).count + n ≡ 0 → (s.count ≡ 0) × (n ≡ 0)
sum_zero s n h = elim (Bool-cases (s.count == 0)) [
  | inl e ↦ (ground (arith, e), omega (arith, h))
  | inr e ↦ absurd (ground (arith, e, rw e at h))
]

add_stats-grows :
    (o : Option Stats) (n : ModifiedEvent) → n.blocks_modified ≤ (add_stats o n).blocks_modified
add_stats-grows none n = omega arith
add_stats-grows (some s) n = elim (Bool-cases (s.count == 0)) [
  | inl e ↦ rw e (omega arith)
  | inr e ↦ rw e (omega arith)
]

add_stats-idle :
    (s : Stats) (n : ModifiedEvent)
    → (add_stats (some s) n).blocks_modified ≡ n.blocks_modified
    → s.count ≡ 0
add_stats-idle s n h = elim (Bool-cases (s.count == 0)) [
  | inl e ↦ ground (arith, e)
  | inr e ↦ absurd (omega (arith, rw e at h))
]

-- From a part of the messages to the new one and from the totals to the new ones: the part is as the
-- description says; and if no block is counted as modified, it is the same.
record Replaced {A : Type 0} (described old new : A) (before behind : ModifiedEvent) : Type 0 where
  mapped : new ≡ described
  grows : before.blocks_modified ≤ behind.blocks_modified
  idle : behind.blocks_modified ≡ before.blocks_modified → new ≡ old

-- A text under the replacements
abbrev pub new_text : CaseLib → StringReplacement → Text → Text
new_text lib policy t = (replace_text lib policy t).0

module _ (lib : CaseLib) (policy : StringReplacement)
    (same : (f : Text) (g : Text → Text) (t : Text)
      → (lib.subn f g t).1 ≡ 0
      → (lib.subn f g t).0 ≡ t) where
  change-new_text :
      (t : Text)
      → ((change lib policy t).0 ≡ (new_text lib policy) t)
        × ((change lib policy t).1.count ≡ 0 → (change lib policy t).0 ≡ t)
  unfolding change
  change-new_text t = elim (Bool-cases ((replace_text lib policy t).1 == 0)) [
    | inl e ↦
        let idle = replace_text-idle lib policy t same (ground (arith, e)) in
        rw (e, change) (sym idle, λ h. refl)
    | inr e ↦ rw (e, change) (refl, λ h. absurd (ground (arith, e, h)))
  ]

  change_parts-map_inner :
      (inner : List InnerBlock)
      → ((change_parts lib policy inner).0 ≡ map_inner (new_text lib policy) inner)
        × ((change_parts lib policy inner).1.count ≡ 0 → (change_parts lib policy inner).0 ≡ inner)
  unfolding change_parts
  change_parts-map_inner [] = (refl, λ h. refl)
  change_parts-map_inner (inner_other rest ∷ inner) =
      let (m, i) = change_parts-map_inner inner in
      (ap (λ x. inner_other rest ∷ x) m, λ h. ap (λ x. inner_other rest ∷ x) (i h))
  change_parts-map_inner (inner_text none rest ∷ inner) =
      let (m, i) = change_parts-map_inner inner in
      (ap (λ x. inner_text none rest ∷ x) m, λ h. ap (λ x. inner_text none rest ∷ x) (i h))
  change_parts-map_inner (inner_text (some t) rest ∷ inner) =
      let (m, i) = change_parts-map_inner inner in
      let (m1, i1) = change-new_text t in
      (
        rw (m, m1) refl,
        λ h.
            let (a, b) =
              sum_zero (change lib policy t).1 (change_parts lib policy inner).1.count h in
            rw (i1 a, i b) refl,
      )

  apply_to_block-Replaced :
      (b : Block) (n : ModifiedEvent)
      → Replaced
          (map_block (new_text lib policy) b)
          b
          (apply_to_block lib policy b).0
          n
          (add_stats (apply_to_block lib policy b).1 n)
  unfolding apply_to_block
  apply_to_block-Replaced (other_block rest) n = record {
    mapped = refl;
    grows = omega arith;
    idle = λ h. refl;
  }
  apply_to_block-Replaced (text_block none rest) n = record {
    mapped = refl;
    grows = omega arith;
    idle = λ h. refl;
  }
  apply_to_block-Replaced (tool_result absent rest) n = record {
    mapped = refl;
    grows = omega arith;
    idle = λ h. refl;
  }
  apply_to_block-Replaced (text_block (some t) rest) n =
      let (m, i) = change-new_text t in
      record {
        mapped = ap (λ x. text_block (some x) rest) m;
        grows = add_stats-grows (some (change lib policy t).1) n;
        idle = λ h.
            ap (λ x. text_block (some x) rest) (i (add_stats-idle (change lib policy t).1 n h));
      }
  apply_to_block-Replaced (tool_result (whole t) rest) n =
      let (m, i) = change-new_text t in
      record {
        mapped = ap (λ x. tool_result (whole x) rest) m;
        grows = add_stats-grows (some (change lib policy t).1) n;
        idle = λ h.
            ap (λ x. tool_result (whole x) rest) (i (add_stats-idle (change lib policy t).1 n h));
      }
  apply_to_block-Replaced (tool_result (parts inner) rest) n =
      let (m, i) = change_parts-map_inner inner in
      record {
        mapped = ap (λ x. tool_result (parts x) rest) m;
        grows = add_stats-grows (some (change_parts lib policy inner).1) n;
        idle = λ h.
            ap (λ x. tool_result (parts x) rest)
              (i (add_stats-idle (change_parts lib policy inner).1 n h));
      }

  apply_to_blocks-Replaced :
      (bs : List Block) (n : ModifiedEvent)
      → Replaced
          (map_blocks (new_text lib policy) bs)
          bs
          (apply_to_blocks lib policy bs n).0
          n
          (apply_to_blocks lib policy bs n).1
  unfolding apply_to_blocks
  apply_to_blocks-Replaced [] n = record { mapped = refl; grows = omega arith; idle = λ h. refl }
  apply_to_blocks-Replaced (b ∷ bs) n =
      let here = apply_to_block-Replaced b n in
      let later = apply_to_blocks-Replaced bs (add_stats (apply_to_block lib policy b).1 n) in
      record {
        mapped = rw (here.mapped, later.mapped) refl;
        grows = omega (arith, here.grows, later.grows);
        idle = λ h.
            let a = here.idle (omega (arith, h, here.grows, later.grows)) in
            let b = later.idle (omega (arith, h, here.grows, later.grows)) in rw (a, b) refl;
      }

  apply_to_content-Replaced :
      (c : Content) (n : ModifiedEvent)
      → Replaced
          (map_content (new_text lib policy) c)
          c
          (apply_to_content lib policy c n).0
          n
          (apply_to_content lib policy c n).1
  unfolding apply_to_content
  apply_to_content-Replaced (other_content c) n = record {
    mapped = refl;
    grows = omega arith;
    idle = λ h. refl;
  }
  apply_to_content-Replaced (plain t) n =
      let (m, i) = change-new_text t in
      record {
        mapped = ap plain m;
        grows = add_stats-grows (some (change lib policy t).1) n;
        idle = λ h. ap plain (i (add_stats-idle (change lib policy t).1 n h));
      }
  apply_to_content-Replaced (blocks bs) n =
      let r = apply_to_blocks-Replaced bs n in
      record { mapped = ap blocks r.mapped; grows = r.grows; idle = λ h. ap blocks (r.idle h) }

  apply_to_messages-Replaced :
      (ms : List Message) (n : ModifiedEvent)
      → Replaced
          (map_messages (new_text lib policy) ms)
          ms
          (apply_to_messages lib policy ms n).0
          n
          (apply_to_messages lib policy ms n).1
  unfolding apply_to_messages
  apply_to_messages-Replaced [] n = record { mapped = refl; grows = omega arith; idle = λ h. refl }
  apply_to_messages-Replaced (m ∷ ms) n =
      let here = apply_to_content-Replaced m.content n in
      let later = apply_to_messages-Replaced ms (apply_to_content lib policy m.content n).1 in
      record {
        mapped = rw (here.mapped, later.mapped) refl;
        grows = omega (arith, here.grows, later.grows);
        idle = λ h.
            let a = here.idle (omega (arith, h, here.grows, later.grows)) in
            let b = later.idle (omega (arith, h, here.grows, later.grows)) in rw (a, b) refl;
      }

  -- If a substitution that replaces nothing leaves its text, and the policy applies to requests and has
  -- replacements, then every text of a message, of its text blocks and in its tool results is replaced,
  -- and nothing else of the messages changes.
  pub replacement_request-map_messages :
      (ms : List Message)
      → policy.apply_to_request ≡ true
      → is_nil policy.replacements ≡ false
      → (replacement_request lib policy ms).0 ≡ map_messages (new_text lib policy) ms
  unfolding replacement_request
  replacement_request-map_messages [] a b = rw (a, b) refl
  replacement_request-map_messages (m ∷ ms) a b =
      let all = apply_to_messages-Replaced (m ∷ ms) no_changes in
      elim (Bool-cases
        ((apply_to_messages lib policy (m ∷ ms) no_changes).1.blocks_modified == 0)) [
          | inl e ↦ rw (a, b, e) (sym (all.idle (ground (arith, e))) ∙ all.mapped)
          | inr e ↦ rw (a, b, e) (all.mapped)
        ]
