-- ===== src/Kafka/Refresh.antt =====
-- The topics that are consumed and their refresh (EqualSlices and refreshTopics of
-- pkg/protocol/kafkadown/sarama_kafka_down.go).
pub mod Slices
pub mod Groups
mod Tests
use zingthings.Base.{
  ℕ, suc, Bool, true, false, ◌&&◌, ◌||◌, not, Option, none, some, List, [], ◌∷◌, length, is_some,
  if◌then◌else◌, ◌==◌, ltb,
}
use zingthings.Base.Text.{Text}
use zingthings.Base.Dict.{Dict, lookup, insert}
use zingthings.Kafka.{filter_topics}

-- for _, v := range s { m[v] = struct{}{} }
unfoldable pub set_of : List Text → Dict (Unit {0}) → Dict (Unit {0})
set_of [] m = m
set_of (v ∷ vs) m = set_of vs (insert v tt m)

all_found : Dict (Unit {0}) → Dict (Unit {0}) → Bool
all_found [] n = true
all_found ((k, v) ∷ m) n = is_some (lookup k n) && all_found m n

-- reflect.DeepEqual on two maps: as many keys, and each key of the first is one of the second.
unfoldable pub deep_equal : Dict (Unit {0}) → Dict (Unit {0}) → Bool
unfolding all_found
deep_equal m n = length m == length n && all_found m n

unfoldable pub equal_slices : List Text → List Text → Bool
unfolding set_of deep_equal
equal_slices s1 s2 =
    if length s1 == length s2 then deep_equal (set_of s1 []) (set_of s2 []) else false

-- The order of sort.Strings, by bytes, and its result.
unfoldable pub text_less : Text → Text → Bool
text_less [] [] = false
text_less [] (b ∷ t) = true
text_less (a ∷ s) [] = false
text_less (a ∷ s) (b ∷ t) = ltb a b || (a == b && text_less s t)

unfoldable pub insert_sorted : Text → List Text → List Text
unfolding text_less
insert_sorted t [] = t ∷ []
insert_sorted t (u ∷ us) = if text_less u t then u ∷ insert_sorted t us else t ∷ u ∷ us

unfoldable pub sort_strings : List Text → List Text
unfolding insert_sorted
sort_strings [] = []
sort_strings (t ∷ ts) = insert_sorted t (sort_strings ts)

-- What refreshTopics keeps: the topics of the last change, the consumer group of s.consumer, and
-- which groups are closed; groups are numbered, and `fresh` is the next. `consuming` has the topics
-- of each new group for which Consume was started, the last first.
pub record Refresher : Type 0 where
  pub topics_old : List Text
  pub group : ℕ
  pub fresh : ℕ
  pub closed : ℕ → Bool
  pub consuming : List (ℕ × List Text)

-- What the client answers on a tick: whether the metadata could be refreshed, the topics of the
-- cluster, and whether a new consumer group could be created.
pub record Tick : Type 0 where
  pub refreshed : Bool
  pub topics : Option (List Text)
  pub creates : Bool

unfoldable pub close : ℕ → (ℕ → Bool) → ℕ → Bool
close g closed h = g == h || closed h

-- The deferred Close of the new groups when the goroutine returns: all those that were started.
unfoldable pub close_deferred : List (ℕ × List Text) → (ℕ → Bool) → ℕ → Bool
unfolding close
close_deferred [] closed = closed
close_deferred ((g, topics) ∷ consuming) closed = close g (close_deferred consuming closed)

pub data Refreshed : Type 0 where
  goes_on : Refresher → Refreshed
  returns : Refresher → Refreshed

-- The turn on topics that have changed. `prev` is prevConsumerGroup, the first group, which is
-- closed on every change. (Neither it nor the group of s.consumer is nil in this program.)
unfoldable pub change_topics : ℕ → List Text → Bool → Refresher → Refreshed
unfolding close close_deferred
change_topics prev topics false s =
    returns
      (record s { topics_old = topics; closed = close_deferred s.consuming (close prev s.closed) })
change_topics prev topics true s = goes_on (record {
  topics_old = topics;
  group = s.fresh;
  fresh = suc s.fresh;
  closed = close s.group (close prev s.closed);
  consuming = (s.fresh, topics) ∷ s.consuming;
})

refresh_with : (Text → Bool) → ℕ → Bool → Option (List Text) → Refresher → Refreshed
unfolding change_topics equal_slices sort_strings
refresh_with matches prev creates none s = goes_on s
refresh_with matches prev creates (some topics) s =
    let now = sort_strings (filter_topics matches topics) in
    if not (equal_slices now s.topics_old) then change_topics prev now creates s else goes_on s

-- One tick. `matches` is the pattern of the configuration.
unfoldable pub refresh_topics : (Text → Bool) → ℕ → Tick → Refresher → Refreshed
unfolding refresh_with
refresh_topics matches prev tick s =
    if tick.refreshed then refresh_with matches prev tick.creates tick.topics s else goes_on s

-- The ticks one after the other, until the goroutine returns.
unfoldable pub refresh_loop : (Text → Bool) → ℕ → List Tick → Refresher → Refreshed
unfolding refresh_topics
refresh_loop matches prev [] s = goes_on s
refresh_loop matches prev (tick ∷ ticks) s = elim (refresh_topics matches prev tick s) [
  | goes_on s' ↦ refresh_loop matches prev ticks s'
  | returns s' ↦ returns s'
]
