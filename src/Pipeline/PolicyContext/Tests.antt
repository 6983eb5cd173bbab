-- ===== src/Pipeline/PolicyContext/Tests.antt =====
-- A request with a system message and a message of a user.
use luthien_proxy.Base.{◌≡◌, refl, some, [], ◌∷◌}
use luthien_proxy.Json.{end}
use luthien_proxy.Text.{Text, codes, text_eq}
use luthien_proxy.Pipeline.PolicyContext.{
  Message, Request, Content, plain, already_injected, inject_policy_awareness,
}
use luthien_proxy.Pipeline.PolicyContext.Once.{inject_policy_awareness_idem}
use luthien_proxy.Pipeline.PolicyContext.First.{
  Announces, IsPrefixed, inject_policy_awareness_first,
}

abbrev reply_ex : Message
reply_ex = record { role = codes "assistant"; content = some (plain (codes "hello")) }

abbrev user_ex : Message
user_ex = record { role = codes "user"; content = some (plain (codes "hi")) }

abbrev request_ex : Request
request_ex = record { messages = reply_ex ∷ user_ex ∷ user_ex ∷ []; rest = end }

inject_policy_awareness_idem_example :
    inject_policy_awareness
      (inject_policy_awareness request_ex (codes "Judge" ∷ []))
      (codes "Caps" ∷ [])
    ≡ inject_policy_awareness request_ex (codes "Judge" ∷ [])
inject_policy_awareness_idem_example =
    inject_policy_awareness_idem request_ex (codes "Judge") [] (codes "Caps" ∷ [])

inject_policy_awareness_first_example :
    (note : Text) × (new : Content) × Announces note (codes "Judge" ∷ [])
    × IsPrefixed note (some (plain (codes "hi"))) new
    × ((inject_policy_awareness request_ex (codes "Judge" ∷ [])).messages
        ≡ reply_ex ∷ (record { role = codes "user"; content = some new }) ∷ user_ex ∷ [])
unfolding already_injected text_eq
inject_policy_awareness_first_example =
    inject_policy_awareness_first request_ex (codes "Judge") [] (reply_ex ∷ []) user_ex
      (user_ex ∷ []) refl refl refl refl
