-- ===== src/Kafka/Start.antt =====
-- The start of the consumer (Start and Setup of pkg/protocol/kafkadown/sarama_kafka_down.go): the
-- goroutine that calls Consume, and the one that waits for its first session, up to the first
-- change of the topics.
pub mod Session
mod Tests
use zingthings.Base.{
  ℕ, suc, ◌≡◌, ◌≢◌, Bool, true, false, Option, none, some, List, [], ◌∷◌, Outcome, ok, panics,
}
use zingthings.Base.Text.{Text}
use zingthings.Kafka.{filter_topics}

-- The topics of the first call, by whether there is a client, and what its Topics answers. Neither
-- error is looked at: without a client the call panics, and without an answer there are no topics.
unfoldable pub first_topics : (Text → Bool) → Bool → Option (List Text) → Outcome (List Text)
first_topics matches false answer = panics
first_topics matches true none = ok []
first_topics matches true (some topics) = ok (filter_topics matches topics)

-- Where the goroutine with the loop is: before Consume, in Setup of a session at the send to
-- `ready`, in the session, at the send to `ready` that tells that there are no topics, or at its
-- end.
pub data Loop : Type 0 where
  calling setting_up consuming announcing returned : Loop

-- Where Start is: at the receive from `ready`, at the signals, at wg.Wait, or at its end.
pub data Main : Type 0 where
  awaiting running stopping finished : Main

-- `sessions` counts the calls of Setup that have returned.
pub record Starting : Type 0 where
  pub main : Main
  pub loop : Loop
  pub cancelled : Bool
  pub sessions : ℕ

-- The test of ctx.Err() after Consume.
abbrev pub after_consume : Bool → Loop
after_consume true = returned
after_consume false = calling

-- One step of either goroutine. `ready` has no buffer, so a send and the receive are one step. Kafka
-- decides whether a call of Consume begins a session, and when the session ends.
pub data Step (topics : List Text) (s : Starting) : Starting → Type 0 where
  no_topics : s.loop ≡ calling → topics ≡ [] → Step topics s (record s { loop = announcing })
  joins : s.loop ≡ calling → topics ≢ [] → Step topics s (record s { loop = setting_up })
  fails :
      s.loop ≡ calling → topics ≢ [] → Step topics s (record s { loop = after_consume s.cancelled })
  group_closed : s.loop ≡ calling → topics ≢ [] → Step topics s (record s { loop = returned })
  enters :
      s.loop ≡ setting_up
      → s.main ≡ awaiting
      → Step topics s (record s { main = running; loop = consuming; sessions = suc s.sessions })
  announces :
      s.loop ≡ announcing
      → s.main ≡ awaiting
      → Step topics s (record s { main = running; loop = returned })
  session_ends : s.loop ≡ consuming → Step topics s (record s { loop = after_consume s.cancelled })
  context_ends : Step topics s (record s { cancelled = true })
  stops : s.main ≡ running → Step topics s (record s { main = stopping; cancelled = true })
  finishes : s.main ≡ stopping → s.loop ≡ returned → Step topics s (record s { main = finished })

pub data Reach (topics : List Text) (s : Starting) : Starting → Type 0 where
  here : Reach topics s s
  later : {t u : Starting} → Reach topics s t → Step topics t u → Reach topics s u

abbrev pub starting : Starting
starting = record { main = awaiting; loop = calling; cancelled = false; sessions = 0 }
