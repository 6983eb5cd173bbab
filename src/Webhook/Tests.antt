-- ===== src/Webhook/Tests.antt =====
-- A sender with room for one task.
use luthien_proxy.Base.{
  ℕ, zero, suc, ◌≤◌, ◌≡◌, refl, pos, true, false, none, some, [], ◌∷◌, arith, length,
}
use luthien_proxy.Webhook.{
  SenderConfig, Sender, Completion, init, made, check_config, fire_and_forget,
}
use luthien_proxy.Webhook.Url.{ParsedUrl, no_port, usable}
use luthien_proxy.Webhook.Retry.{
  Reply, status, network_error, gave_up, delivered, attempt_send, send_with_retries,
}
use luthien_proxy.Webhook.Outcome.{All, Ends, longest_sleep, send_with_retries-Ends}
use luthien_proxy.Webhook.Pool.{
  Pool, Reach, here, next, call, task_ends, stop_begins, Accounted, start, fire, finish, begin_stop,
  Reach-start-Accounted,
}

abbrev hook : ParsedUrl
hook = record {
  scheme = "https";
  userinfo = "user:pass";
  hostname = some "example.org";
  port = no_port;
  path = "/secret";
  params = "";
  query = "";
  fragment = "";
}

-- fails twice, then succeeds
abbrev replies : ℕ → Reply
replies zero = network_error
replies (suc zero) = status 503
replies _ = status 200

send_with_retries-Ends_example :
    Ends replies 0 4 (send_with_retries replies (λ n. 500) 3 1000)
    × All (λ s. s ≤ longest_sleep) (send_with_retries replies (λ n. 500) 3 1000).sleeps
    × (length (send_with_retries replies (λ n. 500) 3 1000).sleeps ≤ 3)
send_with_retries-Ends_example = send_with_retries-Ends replies (λ n. 500) 3 1000 (λ n. omega arith)

delivered_third :
    send_with_retries replies (λ n. 500) 3 1000
    ≡ record { ending = delivered; attempts = 3; sleeps = 1500000 ∷ 3000000 ∷ [] }
unfolding send_with_retries attempt_send
delivered_third = refl

abbrev config : SenderConfig
config = record {
  max_retries = pos 3;
  retry_delay = pos 1000;
  max_pending_tasks = pos 1;
  shutdown_drain = pos 5000;
  send_timeout = pos 10000;
}

abbrev sender : Sender
sender = record {
  enabled = true;
  max_retries = 3;
  retry_delay = 1000;
  max_pending_tasks = 1;
  pending_tasks = [];
  dropped_due_to_backpressure = 0;
  gave_up_after_retries = 0;
  permanent_failures = 0;
  payload_build_failures = 0;
  stopped = false;
}

sender_made : init (some hook) config ≡ made sender
unfolding init check_config usable
sender_made = refl

abbrev done : Completion
done = record {
  session_id = none;
  transaction_id = "t1";
  model = "m";
  input_tokens = 1;
  output_tokens = 2;
  duration_ms = 3;
  is_streaming = true;
  success = true;
  http_status = 200;
  cache_creation_input_tokens = 0;
  cache_read_input_tokens = 0;
}

-- two calls, of which the second is dropped, and the end of the first
abbrev after_two : Pool
after_two = fire done (fire done (start sender))

one_pending : length after_two.sender.pending_tasks ≡ 1
unfolding fire fire_and_forget
one_pending = refl

trace : Reach (start sender) (begin_stop (finish 0 gave_up after_two))
trace =
    next
      (next (next (next here (call done (start sender))) (call done (fire done (start sender))))
        (task_ends 0 gave_up after_two (omega (arith, one_pending))))
      (stop_begins (finish 0 gave_up after_two))

Reach-start-Accounted_example : Accounted 1 (begin_stop (finish 0 gave_up after_two))
Reach-start-Accounted_example =
    Reach-start-Accounted (some hook) config sender (begin_stop (finish 0 gave_up after_two))
      sender_made trace
