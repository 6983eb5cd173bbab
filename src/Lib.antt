-- ===== src/Lib.antt =====
-- A model of the parts of the Luthien proxy that decide what an LLM client receives, and proofs
-- about it. The proxy stands between a client and the Anthropic API: a policy sees each event of the
-- response stream and decides what goes out.
--
-- Stream: the events of a stream, and the validator of their order,
-- src/luthien_proxy/pipeline/stream_protocol_validator.py (`validate` is
-- `validate_anthropic_event_ordering`, with a function for each rule). Stream/Validator/Accept
-- states the same rules as an automaton.
-- Builder: src/luthien_proxy/policy_core/anthropic_message_builder.py, the object that a policy uses
-- to rewrite a stream. The record `Builder` is `_BuilderState`; a method that mutates it returns the
-- new state beside its result. `run` drives a whole stream through `dispatch_tool_only`, each event
-- with the hook that the policy hands over. Builder/Response is its non-streaming side, where
-- `json.loads` and `json.dumps` are a parameter (`JsonLib` of Json).
-- Policies/ToolCallJudge: src/luthien_proxy/policies/tool_call_judge_policy.py, which asks a judge
-- about each tool call. The replies of the judge, exceptions included, are inputs; floats and
-- `str.format` are a parameter (`JudgeEnv`).
-- RateLimit: src/luthien_proxy/rate_limit.py, the token bucket per key with LRU eviction.
-- Policies/MultiSerial: src/luthien_proxy/policies/multi_serial_policy.py, a chain of policies,
-- which are records of hooks over the context of a request.
-- Policies/TextModifier: src/luthien_proxy/policy_core/text_modifier_policy.py, which changes texts
-- and appends a suffix; what a subclass supplies is a parameter.
-- Policies/SimplePolicy: src/luthien_proxy/policies/simple_policy.py, which buffers whole blocks for
-- a subclass.
-- Webhook: src/luthien_proxy/webhook/sender.py. `fire_and_forget` hands a payload to a task;
-- Webhook/Retry is what a task does, with the replies as inputs, and Webhook/Pool the steps of all
-- tasks, calls and a shutdown in any order. `stop` is two steps, before and after its wait.
-- Pipeline/PolicyContext: src/luthien_proxy/pipeline/policy_context_injection.py, and
-- Pipeline/UpstreamHeaders: src/luthien_proxy/pipeline/upstream_headers.py.
-- Session: src/luthien_proxy/session.py. Digests, `str`, `int` and `quote` are parameters
-- (`SessionLib`), and so are the clock and the random id.
-- Auth: src/luthien_proxy/auth.py, on top of Session.
-- Policies/StringReplacement: src/luthien_proxy/policies/string_replacement_policy.py, with its
-- buffer for matches across chunks (Stream) and the hooks on whole messages (Sides). Regular
-- expressions and the case of characters are a parameter (`CaseLib`).
-- CredentialManager: src/luthien_proxy/credential_manager.py, on top of CredentialCache; ServerKeys
-- is its cache of server credentials. The replies of Anthropic and of the credential store are
-- inputs, and so is what other calls do to a cache while a reply is awaited.
-- CredentialCache: src/luthien_proxy/utils/credential_cache.py, the in-process cache with expiry.
-- Text: the methods of `str` on lists of code points.
-- Base: Booleans, integers, lists as sets, and dictionaries.
--
-- Every loop is structural recursion over events, keys, characters or the rounds of a `range`;
-- nothing runs on fuel. A dictionary of the source is an association list, most recent first where
-- the order matters not, and in the order of the `OrderedDict` in RateLimit. Where a function of
-- Builder or Policies returns an Option of its new state, `none` is an exception that leaves the
-- call.
--
-- Not modelled: HTTP, the database, configuration, the administration, telemetry, the HTML of pages,
-- the loading of the header templates and the other policies; the wording of the validator's
-- messages; the rounding of floats in the rate limiter, where time counts nanoseconds and credit is
-- exact; the interleaving of two checks of one key, which the source serialises by a lock.
pub mod Base
pub mod Json
pub mod Stream
pub mod Builder
pub mod Policies
pub mod RateLimit
pub mod CredentialCache
pub mod Webhook
pub mod Text
pub mod Pipeline
pub mod Session
pub mod Auth
pub mod CredentialManager
