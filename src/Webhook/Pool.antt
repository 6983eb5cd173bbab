-- ===== src/Webhook/Pool.antt =====
-- The pool of deliveries under any interleaving of calls, ends of tasks and a shutdown. The tasks that
-- end in the drain window of `stop` are steps between its two halves.
use luthien_proxy.Base.{
  ℕ, zero, suc, ◌+◌, ◌≤◌, ◌<◌, ◌≡◌, refl, String, Bool, true, not, ◌||◌, Option, List, [], ◌∷◌,
  if◌then◌else◌, arith, length, Option-cases, inl, inr,
}
use luthien_proxy.Webhook.{
  Sender, Completion, fire_and_forget, record_payload_build_failure, SenderConfig, init, MadeSender,
  made, value_error, check_config, to_ℕ,
}
use luthien_proxy.Webhook.Url.{ParsedUrl}
use luthien_proxy.Webhook.Retry.{Ending, delivered, permanent_failure, gave_up}

-- A sender with what has become of the calls since it was made
pub record Pool : Type 0 where
  pub sender : Sender
  pub called : ℕ
  pub delivered_count : ℕ
  pub cancelled_count : ℕ

unfoldable pub remove_at : ℕ → List String → List String
remove_at i [] = []
remove_at zero (t ∷ ts) = ts
remove_at (suc i) (t ∷ ts) = t ∷ remove_at i ts

length-remove_at :
    (i : ℕ) (ts : List String) → i < length ts → length (remove_at i ts) + 1 ≡ length ts
unfolding remove_at
length-remove_at i [] h = absurd (omega arith)
length-remove_at zero (t ∷ ts) h = omega arith
length-remove_at (suc i) (t ∷ ts) h = omega (arith, length-remove_at i ts (omega arith))

-- The counters that `_send_with_retries` moves
unfoldable pub count_ending : Ending → Sender → Sender
count_ending delivered s = s
count_ending permanent_failure s = record s { permanent_failures = suc s.permanent_failures }
count_ending gave_up s = record s { gave_up_after_retries = suc s.gave_up_after_retries }

abbrev is_open : Sender → Bool
is_open s = not (not s.enabled || s.stopped)

unfoldable pub fire : Completion → Pool → Pool
fire c p = record p {
  sender = (fire_and_forget c p.sender).0;
  called = if is_open p.sender then suc p.called else p.called;
}

-- A task ends, and the callback takes it out of the set.
unfoldable pub finish : ℕ → Ending → Pool → Pool
finish i e p =
    let s = count_ending e p.sender in
    record p {
      sender = record s { pending_tasks = remove_at i p.sender.pending_tasks };
      delivered_count = elim e [ delivered ↦ suc p.delivered_count | _ ↦ p.delivered_count ];
    }

-- The first half of `stop`, up to the wait
unfoldable pub begin_stop : Pool → Pool
begin_stop p = record p { sender = record p.sender { stopped = true } }

-- Its second half: what is still pending is cancelled.
unfoldable pub end_stop : Pool → Pool
end_stop p = record p {
  sender = record p.sender { pending_tasks = [] };
  cancelled_count = p.cancelled_count + length p.sender.pending_tasks;
}

pub data Step : Pool → Pool → Type 0 where
  call : (c : Completion) (p : Pool) → Step p (fire c p)
  task_ends :
      (i : ℕ) (e : Ending) (p : Pool) → i < length p.sender.pending_tasks → Step p (finish i e p)
  build_fails : (p : Pool) → Step p (record p { sender = record_payload_build_failure p.sender })
  stop_begins : (p : Pool) → Step p (begin_stop p)
  stop_ends : (p : Pool) → p.sender.stopped ≡ true → Step p (end_stop p)

pub data Reach (p : Pool) : Pool → Type 0 where
  here : Reach p p
  next : {q r : Pool} → Reach p q → Step q r → Reach p r

-- No more tasks than the cap; and each call of an open sender is dropped, pending, delivered,
-- cancelled, given up or a permanent failure.
pub record Accounted (cap : ℕ) (p : Pool) : Type 0 where
  pub same_cap : p.sender.max_pending_tasks ≡ cap
  pub bounded : length p.sender.pending_tasks ≤ cap
  pub calls :
      p.called
      ≡ p.sender.dropped_due_to_backpressure
        + length p.sender.pending_tasks
        + p.delivered_count
        + p.cancelled_count
        + p.sender.gave_up_after_retries
        + p.sender.permanent_failures

fire-Accounted : (cap : ℕ) (c : Completion) (p : Pool) → Accounted cap p → Accounted cap (fire c p)
unfolding fire fire_and_forget
fire-Accounted cap c p a = ground arith

finish-Accounted :
    (cap i : ℕ) (e : Ending) (p : Pool)
    → i < length p.sender.pending_tasks
    → Accounted cap p
    → Accounted cap (finish i e p)
unfolding finish count_ending
finish-Accounted cap i delivered p h a = ground (arith, length-remove_at i p.sender.pending_tasks)
finish-Accounted cap i permanent_failure p h a =
    ground (arith, length-remove_at i p.sender.pending_tasks)
finish-Accounted cap i gave_up p h a = ground (arith, length-remove_at i p.sender.pending_tasks)

Step-Accounted : (cap : ℕ) {p q : Pool} → Step p q → Accounted cap p → Accounted cap q
unfolding begin_stop end_stop record_payload_build_failure
Step-Accounted cap (call c p) a = fire-Accounted cap c p a
Step-Accounted cap (task_ends i e p h) a = finish-Accounted cap i e p h a
Step-Accounted cap (build_fails p) a = ground arith
Step-Accounted cap (stop_begins p) a = ground arith
Step-Accounted cap (stop_ends p h) a = ground arith

Reach-Accounted : (cap : ℕ) {p q : Pool} → Reach p q → Accounted cap p → Accounted cap q
Reach-Accounted cap here a = a
Reach-Accounted cap (next r st) a = Step-Accounted cap st (Reach-Accounted cap r a)

-- a new pool
abbrev pub start : Sender → Pool
start s = record { sender = s; called = 0; delivered_count = 0; cancelled_count = 0 }

abbrev StartAccounted : SenderConfig → MadeSender → Type 0
StartAccounted c (made s) = Accounted (to_ℕ c.max_pending_tasks) (start s)
StartAccounted c (value_error e) = Unit {0}

init-StartAccounted : (url : Option ParsedUrl) (c : SenderConfig) → StartAccounted c (init url c)
unfolding init
init-StartAccounted url c = elim (Option-cases (check_config c)) [
  | inl fine ↦
      rw (fine, init) (record { same_cap = refl; bounded = omega arith; calls = omega arith })
  | inr (e, refused) ↦ rw (refused, init) tt
]

init-Accounted :
    (url : Option ParsedUrl) (c : SenderConfig) (s : Sender)
    → init url c ≡ made s
    → Accounted (to_ℕ c.max_pending_tasks) (start s)
init-Accounted url c s h = rw h at (init-StartAccounted url c)

-- Of a sender that the constructor makes, in any order of calls, ends of tasks and a shutdown: there are
-- never more pending tasks than `max_pending_tasks`, and the calls while it is enabled and not stopped are
-- exactly those dropped, pending, delivered, cancelled, given up and failed for good.
pub Reach-start-Accounted :
    (url : Option ParsedUrl) (c : SenderConfig) (s : Sender) (q : Pool)
    → init url c ≡ made s
    → Reach (start s) q
    → Accounted (to_ℕ c.max_pending_tasks) q
Reach-start-Accounted url c s q h r =
    Reach-Accounted (to_ℕ c.max_pending_tasks) r (init-Accounted url c s h)
