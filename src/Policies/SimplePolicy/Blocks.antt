-- ===== src/Policies/SimplePolicy/Blocks.antt =====
-- A text block in a stream, against the same text in a response.
use luthien_proxy.Base.{ℤ, ==ℤ_refl, ◌≡◌, refl, ap, String, str_append, some, List, [], ◌∷◌}
use luthien_proxy.Base.Dict
use luthien_proxy.Base.Dict.{Dict, get-put}
use luthien_proxy.Json.{JsonLib}
use luthien_proxy.Stream.Event.{
  Event, content_block_start, content_block_delta, content_block_stop, text_block, text_delta,
}
use luthien_proxy.Builder.Types.{ContentBlock}
use luthien_proxy.Policies.SimplePolicy.{
  Simple, Buffers, simple_start, simple_delta, simple_stop, simple_stream_event, simple_stream,
  simple_response, after_step,
}

-- the text deltas of block `i`, and its stop
abbrev pub text_then_stop : ℤ → List String → List Event
text_then_stop i [] = content_block_stop i ∷ []
text_then_stop i (t ∷ ts) = content_block_delta i (text_delta t) ∷ text_then_stop i ts

-- what is collected behind `old`
abbrev pub collect : String → List String → String
collect old [] = old
collect old (t ∷ ts) = collect (str_append old t) ts

-- the block that goes out
abbrev pub changed : Simple → ℤ → String → List Event
changed p i t =
    content_block_delta i (text_delta (p.simple_on_response_content t)) ∷ content_block_stop i ∷ []

buffered :
    (lib : JsonLib) (p : Simple) (i : ℤ) (ts : List String) (old : String) (s : Buffers)
    → Dict.get s.text_buffer i ≡ some old
    → (s' : Buffers) × (simple_stream lib p (text_then_stop i ts) s
        ≡ some (s', changed p i (collect old ts)))
unfolding simple_stream simple_stream_event simple_stop simple_delta
buffered lib p i [] old s h =
    (record s { text_buffer = Dict.remove s.text_buffer i }, rw (h, simple_stop) refl)
buffered lib p i (t ∷ ts) old s h =
    let s1 : Buffers = record s { text_buffer = Dict.put s.text_buffer i (str_append old t) } in
    let (s', e) =
      buffered lib p i ts (str_append old t) s1
        (rw (get-put s.text_buffer i i (str_append old t), ==ℤ_refl i) refl) in
    (s', rw (h, simple_delta) (rw e refl))

start_buffers :
    (i : ℤ) (t : String) (s : Buffers)
    → Dict.get (simple_start i (text_block t) s).text_buffer i ≡ some ""
unfolding simple_start
start_buffers i t s = rw (get-put s.text_buffer i i "", ==ℤ_refl i) refl

-- A text block of any number of deltas, in any state of the buffers: no call raises; the client gets
-- the start, one delta and the stop; and the delta holds the text that the non-streaming hook makes of
-- the whole text.
pub simple_stream-simple_response :
    (lib : JsonLib) (p : Simple) (i : ℤ) (t : String) (ts : List String) (s : Buffers)
    → (s' : Buffers) × (t' : String) × (simple_stream lib p
          (content_block_start i (text_block t) ∷ text_then_stop i ts)
          s
        ≡ some (
          s',
          content_block_start i (text_block t)
              ∷ content_block_delta i (text_delta t')
              ∷ content_block_stop i
              ∷ [],
        ))
      × (simple_response p (ContentBlock.text (collect "" ts) ∷ []) ≡ ContentBlock.text t' ∷ [])
unfolding simple_stream simple_stream_event simple_response
simple_stream-simple_response lib p i t ts s =
    let (s', e) = buffered lib p i ts "" (simple_start i (text_block t) s) (start_buffers i t s) in
    (
      s',
      p.simple_on_response_content (collect "" ts),
      ap
          (λ o.
            after_step
              (some (simple_start i (text_block t) s, content_block_start i (text_block t) ∷ []))
              (λ _. o))
          e,
      refl,
    )
