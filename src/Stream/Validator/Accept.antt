-- ===== src/Stream/Validator/Accept.antt =====
-- The rules of the validator as an acceptor: it stops at the first block event that breaks one.
use mathlib.Core.Path.{fun_ext}
use luthien_proxy.Base.{
  ap, ◌∙◌, ℤ, is_negative, ◌≤ℤ◌, ◌≡◌, refl, Bool, true, not, ◌&&◌, ◌||◌, Option, none, some, List,
  [], ◌∷◌, ◌++◌, if◌then◌else◌, contains, add,
}
use luthien_proxy.Stream.Event.{EventType, EventView}
use luthien_proxy.Stream.Validator.{Blocks, is_content_block_event, is_message_delta}

unfoldable pub accept_indexed : Option EventType → ℤ → Blocks → Option Blocks
accept_indexed (some EventType.content_block_start) idx b =
    if is_negative idx || idx ≤ℤ b.highest_start_index
    then none
    else some (record {
      started_blocks = add idx b.started_blocks;
      stopped_blocks = b.stopped_blocks;
      highest_start_index = idx;
    })
accept_indexed (some EventType.content_block_delta) idx b =
    if contains idx b.started_blocks && not (contains idx b.stopped_blocks) then some b else none
accept_indexed (some EventType.content_block_stop) idx b =
    if contains idx b.started_blocks && not (contains idx b.stopped_blocks)
    then some (record b { stopped_blocks = add idx b.stopped_blocks })
    else none
accept_indexed _ idx b = some b

unfoldable pub accept_event : EventView → Blocks → Option Blocks
unfolding accept_indexed
accept_event e b =
    if is_content_block_event e.type
    then elim e.index [ none ↦ none | some idx ↦ accept_indexed e.type idx b ]
    else some b

infixl 5 ◌>>=◌
abbrev pub ◌>>=◌ {ℓ κ} : {A : Type ℓ} {B : Type κ} → Option A → (A → Option B) → Option B
none >>= f = none
some a >>= f = f a

unfoldable pub accept : List EventView → Blocks → Option Blocks
accept [] b = some b
accept (e ∷ es) b = do b' ← accept_event e b; accept es b'

pub bind-accept :
    (o : Option Blocks) (f g : Blocks → Option Blocks) → (o >>= λ b. f b >>= g) ≡ (o >>= f >>= g)
bind-accept none f g = refl
bind-accept (some b) f g = refl

pub accept-append :
    (xs ys : List EventView) (b : Blocks) → accept (xs ++ ys) b ≡ (accept xs b >>= accept ys)
unfolding accept
accept-append [] ys b = refl
accept-append (e ∷ xs) ys b =
    ap (λ f. accept_event e b >>= f) (fun_ext (accept-append xs ys))
    ∙ bind-accept (accept_event e b) (accept xs) (accept ys)

-- no content block event
unfoldable pub quiet : List EventView → Bool
quiet [] = true
quiet (e ∷ es) = not (is_content_block_event e.type) && quiet es

-- no content block event stands behind the first message_delta
unfoldable pub content_first : List EventView → Bool
unfolding quiet
content_first [] = true
content_first (e ∷ es) =
    let rest = content_first es in if is_message_delta e.type then quiet es else rest
