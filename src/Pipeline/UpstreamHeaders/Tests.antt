-- ===== src/Pipeline/UpstreamHeaders/Tests.antt =====
-- A template with the session id, and a header that the client has set too.
use luthien_proxy.Base.{◌⊎◌, ◌≡◌, refl, false, none, some, [], ◌∷◌, is_nil, ◌==◌, if◌then◌else◌}
use luthien_proxy.Text.{Text, codes, has_char}
use luthien_proxy.Pipeline.UpstreamHeaders.{
  Headers, TemplateEnv, expand_template, expand_upstream_headers, lookup_header, headers_of,
  merge_forwarded_headers,
}
use luthien_proxy.Pipeline.UpstreamHeaders.Merge.{SharesName, merge_forwarded_headers-lookup_header}
use luthien_proxy.Pipeline.UpstreamHeaders.Clean.{expand_upstream_headers-clean}

abbrev env_ex : TemplateEnv
env_ex = record {
  session_id = some (49 ∷ 10 ∷ 50 ∷ []);
  request_path = codes "/v1/messages";
  environ = λ t. none;
}

abbrev templates_ex : Headers
templates_ex = (codes "Helicone-Session-Id", codes "s=${session_id}${other}") ∷ []

expanded : expand_template env_ex (codes "s=${session_id}${other}") ≡ codes "s=12${other}"
unfolding expand_template
expanded = refl

expand_upstream_headers-clean_example :
    (is_nil (codes "s=12${other}") ≡ false) × (has_char 10 (codes "s=12${other}") ≡ false)
unfolding expand_upstream_headers lookup_header
expand_upstream_headers-clean_example =
    expand_upstream_headers-clean env_ex templates_ex (codes "Helicone-Session-Id")
      (codes "s=12${other}") 10 refl refl

-- Lower case for "A" alone
abbrev lower_a : Text → Text
lower_a [] = []
lower_a (c ∷ s) = (if c == 65 then 97 else c) ∷ lower_a s

abbrev base_ex : Headers
base_ex = (codes "anthropic", codes "1") ∷ []

abbrev upstream_ex : Headers
upstream_ex = (codes "Anthropic", codes "2") ∷ (codes "x", codes "3") ∷ []

merge_forwarded_headers-lookup_header_example :
    (SharesName lower_a (codes "Anthropic") base_ex
      × (lookup_header
            (codes "Anthropic")
            (headers_of (merge_forwarded_headers lower_a (some base_ex) (some upstream_ex)))
          ≡ none))
    ⊎ ((¬ (SharesName lower_a (codes "Anthropic") base_ex))
        × (lookup_header
              (codes "Anthropic")
              (headers_of (merge_forwarded_headers lower_a (some base_ex) (some upstream_ex)))
            ≡ lookup_header (codes "Anthropic") upstream_ex))
unfolding lookup_header
merge_forwarded_headers-lookup_header_example =
    merge_forwarded_headers-lookup_header lower_a (some base_ex) (some upstream_ex)
      (codes "Anthropic")
