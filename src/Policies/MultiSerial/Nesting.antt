-- ===== src/Policies/MultiSerial/Nesting.antt =====
-- A chain of policies inside a chain.
use mathlib.Core.Path.{fun_ext}
use mathlib.Core.List.{append-nil}
use luthien_proxy.Base.{◌≡◌, refl, ap, sym, ◌∙◌, true, List, [], ◌∷◌, ◌++◌, arith}
use luthien_proxy.Stream.Event.{Event}
use luthien_proxy.Policies.MultiSerial.{
  Outcome, returned, type_error, raised, ◌>>=◌, Gateway, Policy, validate_sub_policies_interface,
  chain_requests, feed, chain_events, serial_request, serial_stream_event, multi_serial,
}

bind_assoc :
    {A B C : Type 0} (o : Outcome A) (f : A → Outcome B) (h : B → Outcome C)
    → (o >>= f >>= h) ≡ (o >>= λ a. f a >>= h)
bind_assoc (returned a) f h = refl
bind_assoc (type_error n) f h = refl
bind_assoc (raised e) f h = refl

module _ (g : Gateway) where
  open g use {Request, Response, Context}

  -- Every policy of the list has the interface.
  abbrev pub Compatible : List (Policy g) → Type 0
  Compatible ps = validate_sub_policies_interface g ps ≡ returned tt

  Compatible-cons :
      (p : Policy g) (ps : List (Policy g))
      → Compatible (p ∷ ps)
      → (p.implements_interface ≡ true) × Compatible ps
  unfolding validate_sub_policies_interface
  Compatible-cons p ps h = ground (arith, h)

  Compatible-append :
      (ps qs : List (Policy g)) → Compatible ps → Compatible qs → Compatible (ps ++ qs)
  unfolding validate_sub_policies_interface
  Compatible-append [] qs hp hq = hq
  Compatible-append (p ∷ ps) qs hp hq =
      let (is, rest) = Compatible-cons p ps hp in rw is (Compatible-append ps qs rest hq)

  chain_requests-append :
      (ps qs : List (Policy g)) (r : Request) (c : Context)
      → chain_requests g (ps ++ qs) r c
        ≡ (chain_requests g ps r c >>= λ t. chain_requests g qs t.0 t.1)
  unfolding chain_requests
  chain_requests-append [] qs r c = refl
  chain_requests-append (p ∷ ps) qs r c =
      ap (λ f. p.on_anthropic_request r c >>= f)
        (fun_ext (λ t. chain_requests-append ps qs t.0 t.1))
      ∙ sym (bind_assoc (p.on_anthropic_request r c) _ _)

  serial_request-Compatible :
      (ps : List (Policy g)) (r : Request) (c : Context)
      → Compatible ps
      → serial_request g ps r c ≡ chain_requests g ps r c
  unfolding serial_request
  serial_request-Compatible ps r c h = rw h

  multi_serial-Compatible :
      (qs rs : List (Policy g)) → Compatible rs → Compatible (multi_serial g qs ∷ rs)
  unfolding validate_sub_policies_interface
  multi_serial-Compatible qs rs h = h

  chain_requests_inner :
      (qs rs : List (Policy g))
      → Compatible qs
      → (r : Request) (c : Context)
      → chain_requests g (multi_serial g qs ∷ rs) r c ≡ chain_requests g (qs ++ rs) r c
  unfolding chain_requests
  chain_requests_inner qs rs hq r c =
      ap (λ o. o >>= λ t. chain_requests g rs t.0 t.1) (serial_request-Compatible qs r c hq)
      ∙ sym (chain_requests-append qs rs r c)

  -- If every policy has the interface, a request that goes through a chain with a chain inside it,
  -- wherever that stands, has the same outcome as through the flat list of the policies.
  pub serial_request_nested :
      (ps qs rs : List (Policy g)) (r : Request) (c : Context)
      → Compatible ps
      → Compatible qs
      → Compatible rs
      → serial_request g (ps ++ multi_serial g qs ∷ rs) r c
        ≡ serial_request g (ps ++ (qs ++ rs)) r c
  serial_request_nested ps qs rs r c hp hq hr =
      let nested =
        Compatible-append ps (multi_serial g qs ∷ rs) hp (multi_serial-Compatible qs rs hr) in
      let flat = Compatible-append ps (qs ++ rs) hp (Compatible-append qs rs hq hr) in
      serial_request-Compatible (ps ++ multi_serial g qs ∷ rs) r c nested
      ∙ chain_requests-append ps (multi_serial g qs ∷ rs) r c
      ∙ ap (λ f. chain_requests g ps r c >>= f)
          (fun_ext (λ t. chain_requests_inner qs rs hq t.0 t.1))
      ∙ sym (chain_requests-append ps (qs ++ rs) r c)
      ∙ sym (serial_request-Compatible (ps ++ (qs ++ rs)) r c flat)

  feed_nil : (p : Policy g) (c : Context) → feed g p [] c ≡ returned ([], c)
  unfolding feed
  feed_nil p c = refl

  -- Without events the rest of the chain is not called, with or without the break.
  chain_events_nil :
      (ps : List (Policy g)) (c : Context) → chain_events g ps [] c ≡ returned ([], c)
  unfolding chain_events
  chain_events_nil [] c = refl
  chain_events_nil (p ∷ ps) c = rw (feed_nil p c) refl

  unbroken :
      (ps : List (Policy g)) (t : List Event × Context)
      → elim t.0 [ [] ↦ returned ([], t.1) | e ∷ es ↦ chain_events g ps (e ∷ es) t.1 ]
        ≡ chain_events g ps t.0 t.1
  unbroken ps ([], c) = sym (chain_events_nil ps c)
  unbroken ps (e ∷ out, c) = refl

  chain_events-cons :
      (p : Policy g) (ps : List (Policy g)) (es : List Event) (c : Context)
      → chain_events g (p ∷ ps) es c ≡ (feed g p es c >>= λ t. chain_events g ps t.0 t.1)
  unfolding chain_events
  chain_events-cons p ps es c = ap (λ f. feed g p es c >>= f) (fun_ext (unbroken ps))

  chain_events-append :
      (ps qs : List (Policy g)) (es : List Event) (c : Context)
      → chain_events g (ps ++ qs) es c ≡ (chain_events g ps es c >>= λ t. chain_events g qs t.0 t.1)
  chain_events-append [] qs es c = unfold chain_events in refl
  chain_events-append (p ∷ ps) qs es c =
      chain_events-cons p (ps ++ qs) es c
      ∙ ap (λ f. feed g p es c >>= f) (fun_ext (λ t. chain_events-append ps qs t.0 t.1))
      ∙ sym (bind_assoc (feed g p es c) _ _)
      ∙ ap (λ o. o >>= λ t. chain_events g qs t.0 t.1) (sym (chain_events-cons p ps es c))

  padded : (o : Outcome (List Event × Context)) → (o >>= λ t. returned (t.0 ++ [], t.1)) ≡ o
  padded (returned (out, c)) = ap (λ es. returned (es, c)) (append-nil out)
  padded (type_error n) = refl
  padded (raised x) = refl

  feed_one :
      (p : Policy g) (e : Event) (c : Context)
      → feed g p (e ∷ []) c ≡ p.on_anthropic_stream_event e c
  unfolding feed
  feed_one p e c = padded (p.on_anthropic_stream_event e c)

  serial_stream_event-Compatible :
      (ps : List (Policy g)) (e : Event) (c : Context)
      → Compatible ps
      → serial_stream_event g ps e c ≡ chain_events g ps (e ∷ []) c
  unfolding serial_stream_event
  serial_stream_event-Compatible ps e c h = rw h

  -- If every policy has the interface, a stream event that goes through a chain that begins with a
  -- chain has the same outcome as through the flat list of the policies.
  pub serial_stream_event_nested :
      (qs rs : List (Policy g)) (e : Event) (c : Context)
      → Compatible qs
      → Compatible rs
      → serial_stream_event g (multi_serial g qs ∷ rs) e c ≡ serial_stream_event g (qs ++ rs) e c
  serial_stream_event_nested qs rs e c hq hr =
      serial_stream_event-Compatible (multi_serial g qs ∷ rs) e c (multi_serial-Compatible qs rs hr)
      ∙ chain_events-cons (multi_serial g qs) rs (e ∷ []) c
      ∙ ap (λ o. o >>= λ t. chain_events g rs t.0 t.1)
          (feed_one (multi_serial g qs) e c ∙ serial_stream_event-Compatible qs e c hq)
      ∙ sym (chain_events-append qs rs (e ∷ []) c)
      ∙ sym (serial_stream_event-Compatible (qs ++ rs) e c (Compatible-append qs rs hq hr))
