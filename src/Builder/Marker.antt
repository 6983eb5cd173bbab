-- ===== src/Builder/Marker.antt =====
-- The texts about blocked tools at the end of anthropic_message_builder.py.
use luthien_proxy.Base.{str_append, String, List, [], ◌∷◌, map, if◌then◌else◌, any_of}
use luthien_proxy.Builder.Types.{BlockedToolRecord}

-- `", ".join(names)`
unfoldable pub join_comma : List String → String
join_comma [] = ""
join_comma (s ∷ []) = s
join_comma (s ∷ t ∷ rest) = str_append s (str_append ", " (join_comma (t ∷ rest)))

unfoldable pub quoted : List String → String
unfolding join_comma
quoted names = join_comma (map (λ n. str_append "`" (str_append n "`")) names)

unfoldable pub blocked_tools_message : List String → String
unfolding quoted
blocked_tools_message (n ∷ []) =
    str_append "[Tool call " (str_append (quoted (n ∷ [])) " was blocked by policy]")
blocked_tools_message names =
    str_append "[Tool calls " (str_append (quoted names) " were blocked by policy]")

unfoldable pub blocked_tools_judge_failed_message : List String → String
unfolding quoted
blocked_tools_judge_failed_message (n ∷ []) =
    str_append "[Tool call "
      (str_append (quoted (n ∷ [])) " blocked: policy evaluation unavailable]")
blocked_tools_judge_failed_message names =
    str_append "[Tool calls " (str_append (quoted names) " blocked: policy evaluation unavailable]")

unfoldable pub blocked_tools_marker : List BlockedToolRecord → String
unfolding blocked_tools_message blocked_tools_judge_failed_message
blocked_tools_marker blocked =
    let names = map (λ (t : BlockedToolRecord). t.name) blocked in
    if any_of (λ (t : BlockedToolRecord). t.judge_failed) blocked
    then blocked_tools_judge_failed_message names
    else blocked_tools_message names
