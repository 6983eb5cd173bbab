-- ===== src/Pipeline/PolicyContext.antt =====
-- The note on the active policies in the first user message
-- (src/luthien_proxy/pipeline/policy_context_injection.py).
pub mod Once
pub mod First
pub mod Tests
use luthien_proxy.Base.{
  ℕ, zero, suc, String, Bool, true, false, Option, none, some, List, [], ◌∷◌, ◌++◌, any_of,
}
use luthien_proxy.Json.{JsonObject, field, string, end}
use luthien_proxy.Text.{Text, codes, includes, text_eq, join}

-- A content block: its `text`, if it is there, and the other fields
pub record Block : Type 0 where
  pub text : Option Text
  pub rest : JsonObject

pub data Content : Type 0 where
  plain : Text → Content
  blocks : List Block → Content

pub record Message : Type 0 where
  pub role : Text
  pub content : Option Content

pub record Request : Type 0 where
  pub messages : List Message
  pub rest : JsonObject

abbrev pub context_open : Text
context_open = codes "<policy-context>"

abbrev pub context_close : Text
context_close = codes "</policy-context>"

-- `build_awareness_message`
unfoldable pub build_awareness_message : List Text → Text
build_awareness_message policy_names =
    context_open
    ++ (codes
          "Your responses may be modified by the following active policies before reaching the user: "
        ++ (join (codes ", ") policy_names
            ++ (codes
                  ". This is expected behavior — do not try to compensate for or reverse these modifications."
                ++ context_close)))

abbrev pub block_mentions : Block → Bool
block_mentions b = elim b.text [
  | none ↦ includes context_open []
  | some t ↦ includes context_open t
]

-- What the loop of `_already_injected` asks of a message
abbrev pub mentions : Option Content → Bool
mentions none = includes context_open []
mentions (some (plain t)) = includes context_open t
mentions (some (blocks bs)) = any_of block_mentions bs

-- `_already_injected`
unfoldable pub already_injected : List Message → Bool
unfolding includes
already_injected messages = any_of (λ m. mentions m.content) messages

abbrev pub is_user : Message → Bool
is_user m = text_eq m.role (codes "user")

-- `_find_first_user_message_index`, from the message at `i` on
unfoldable pub find_first_user_message_index : ℕ → List Message → Option ℕ
find_first_user_message_index i [] = none
find_first_user_message_index i (m ∷ ms) = elim (is_user m) [
  | true ↦ some i
  | false ↦ find_first_user_message_index (suc i) ms
]

-- The content of the message with the note before it
unfoldable pub injected_content : Text → Option Content → Content
injected_content awareness (some (blocks bs)) =
    blocks ((record { text = some awareness; rest = field "type" (string "text") end }) ∷ bs)
injected_content awareness (some (plain t)) = plain (awareness ++ (codes "\n\n" ++ t))
injected_content awareness none = plain (awareness ++ (codes "\n\n" ++ []))

-- `messages[i] = {**messages[i], "content": ...}`
unfoldable pub inject_at : Text → ℕ → List Message → List Message
unfolding injected_content
inject_at awareness i [] = []
inject_at awareness zero (m ∷ ms) =
    (record m { content = some (injected_content awareness m.content) }) ∷ ms
inject_at awareness (suc i) (m ∷ ms) = m ∷ inject_at awareness i ms

-- `inject_policy_awareness_anthropic`
unfoldable pub inject_policy_awareness : Request → List Text → Request
unfolding already_injected find_first_user_message_index inject_at build_awareness_message
inject_policy_awareness request [] = request
inject_policy_awareness request (n ∷ policy_names) = elim (already_injected request.messages) [
  | true ↦ request
  | false ↦ elim (find_first_user_message_index 0 request.messages) [
    | none ↦ request
    | some user_idx ↦ record request {
      messages = inject_at (build_awareness_message (n ∷ policy_names)) user_idx request.messages;
    }
  ]
]
