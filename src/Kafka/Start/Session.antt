-- ===== src/Kafka/Start/Session.antt =====
-- The sessions of the first consumer group (Start and Setup of
-- pkg/protocol/kafkadown/sarama_kafka_down.go).
use zingthings.Base.{ℕ, suc, ◌≡◌, ◌≢◌, refl, sym, ◌∙◌, Bool, true, List, ◌≤◌, ◌+◌, arith, subst}
use zingthings.Base.Text.{Text}
use zingthings.Kafka.Start.{
  Loop, calling, setting_up, consuming, returned, Main, awaiting, running, stopping, finished,
  Starting, Step, no_topics, joins, fails, group_closed, enters, announces, session_ends,
  context_ends, stops, finishes, Reach, here, later, starting,
}

-- How many sessions Start can still let in.
abbrev open_turns : Main → ℕ
open_turns awaiting = 1
open_turns running = 0
open_turns stopping = 0
open_turns finished = 0

record IsStarting (s : Starting) : Type 0 where
  once : s.sessions + open_turns s.main ≤ 1
  closed : s.main ≡ finished → s.loop ≡ returned

-- The bound on the sessions where Start is known to be at `m`.
once_at : (s : Starting) (m : Main) → s.main ≡ m → IsStarting s → s.sessions + open_turns m ≤ 1
once_at s m e h = subst (λ m. s.sessions + open_turns m ≤ 1) e h.once

-- A step of the loop that leaves Start where it is, from a place that is not the end.
moves :
    {l : Loop} {c : Bool} (s : Starting) (k : Loop)
    → s.loop ≡ k
    → k ≢ returned
    → IsStarting s
    → IsStarting (record s { loop = l; cancelled = c })
moves s k e ne h = record { once = h.once; closed = λ m. absurd (ne (sym e ∙ h.closed m)) }

hears :
    (s : Starting) (n : ℕ) (l : Loop)
    → s.main ≡ awaiting
    → n ≤ 1
    → IsStarting s
    → IsStarting (record s { main = running; loop = l; sessions = n })
hears s n l m le h = record { once = omega (arith, le); closed = λ e. cc }

Step-IsStarting :
    {topics : List Text} {s t : Starting} → Step topics s t → IsStarting s → IsStarting t
Step-IsStarting {topics} {s} (no_topics l e) h = moves s calling l (λ e. cc) h
Step-IsStarting {topics} {s} (joins l e) h = moves s calling l (λ e. cc) h
Step-IsStarting {topics} {s} (fails l e) h = moves s calling l (λ e. cc) h
Step-IsStarting {topics} {s} (group_closed l e) h = moves s calling l (λ e. cc) h
Step-IsStarting {topics} {s} (enters l m) h =
    let before = once_at s awaiting m h in
    hears s (suc s.sessions) consuming m (omega (arith, before)) h
Step-IsStarting {topics} {s} (announces l m) h =
    let before = once_at s awaiting m h in hears s s.sessions returned m (omega (arith, before)) h
Step-IsStarting {topics} {s} (session_ends l) h = moves s consuming l (λ e. cc) h
Step-IsStarting context_ends h = record { once = h.once; closed = h.closed }
Step-IsStarting {topics} {s} (stops m) h = record { once = once_at s running m h; closed = λ e. cc }
Step-IsStarting {topics} {s} (finishes m l) h = record {
  once = once_at s stopping m h;
  closed = λ e. l;
}

Reach-IsStarting :
    {topics : List Text} {s t : Starting} → Reach topics s t → IsStarting s → IsStarting t
Reach-IsStarting here h = h
Reach-IsStarting (later r step) h = Step-IsStarting step (Reach-IsStarting r h)

starting-IsStarting : IsStarting starting
starting-IsStarting = record { once = omega arith; closed = λ e. cc }

-- A second session waits in Setup: no receive from `ready` is left for it.
pub record IsWaiting (s : Starting) : Type 0 where
  pub in_setup : s.loop ≡ setting_up
  pub received : s.main ≢ awaiting
  pub unfinished : s.main ≢ finished
  pub once : s.sessions ≡ 1

Step-IsWaiting : {topics : List Text} {s t : Starting} → Step topics s t → IsWaiting s → IsWaiting t
Step-IsWaiting (no_topics l e) w = cc
Step-IsWaiting (joins l e) w = cc
Step-IsWaiting (fails l e) w = cc
Step-IsWaiting (group_closed l e) w = cc
Step-IsWaiting (enters l m) w = absurd (w.received m)
Step-IsWaiting (announces l m) w = absurd (w.received m)
Step-IsWaiting (session_ends l) w = cc
Step-IsWaiting context_ends w = record {
  in_setup = w.in_setup;
  received = w.received;
  unfinished = w.unfinished;
  once = w.once;
}
Step-IsWaiting (stops m) w = record {
  in_setup = w.in_setup;
  received = λ e. cc;
  unfinished = λ e. cc;
  once = w.once;
}
Step-IsWaiting (finishes m l) w = cc

Reach-IsWaiting :
    {topics : List Text} {s t : Starting} → Reach topics s t → IsWaiting s → IsWaiting t
Reach-IsWaiting here w = w
Reach-IsWaiting (later r step) w = Step-IsWaiting step (Reach-IsWaiting r w)

second_setup-IsWaiting :
    {s : Starting} → IsStarting s → s.loop ≡ setting_up → s.sessions ≡ 1 → IsWaiting s
second_setup-IsWaiting {s} h l e = record {
  in_setup = l;
  received = λ m. let before = once_at s awaiting m h in omega (arith, before, e);
  unfinished = λ m. let r = h.closed m in cc;
  once = e;
}

-- Let the topics stay as they are. When the group joins again after its first session, then Setup
-- waits for ever: no second session begins, and Start never comes to its end, whatever signals and
-- cancellations there are.
pub one_session :
    {topics : List Text} {s t : Starting}
    → Reach topics starting s
    → s.loop ≡ setting_up
    → s.sessions ≡ 1
    → Reach topics s t
    → IsWaiting t
one_session r l e more =
    Reach-IsWaiting more (second_setup-IsWaiting (Reach-IsStarting r starting-IsStarting) l e)

-- If Start is told to stop during the session, it can come to its end.
can_finish :
    {topics : List Text} (s : Starting)
    → s.loop ≡ consuming
    → s.main ≡ running
    → Reach topics s (record s { main = finished; loop = returned; cancelled = true })
can_finish s l m = later (later (later here (stops m)) (session_ends l)) (finishes refl refl)
