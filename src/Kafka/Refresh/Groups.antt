-- ===== src/Kafka/Refresh/Groups.antt =====
-- Which consumer groups are open, and what they consume, as the topics are refreshed
-- (pkg/protocol/kafkadown/sarama_kafka_down.go).
use zingthings.Base.{
  ℕ, suc, ◌<◌, ◌≡◌, refl, sym, ◌∙◌, Bool, true, false, ◌||◌, not, Option, none, some, List, [], ◌∷◌,
  arith, if◌then◌else◌, ◌==◌,
}
use zingthings.Base.Text.{Text}
use zingthings.Kafka.{filter_topics}
use zingthings.Kafka.Refresh.{
  Refresher, Tick, Refreshed, goes_on, returns, close, close_deferred, change_topics, refresh_with,
  refresh_topics, refresh_loop, insert_sorted, sort_strings, equal_slices,
}
use zingthings.Kafka.Refresh.Slices.{is_member, equal_slices-members}

-- Whether a new group was started.
abbrev pub is_started : ℕ → List (ℕ × List Text) → Bool
is_started g [] = false
is_started g ((h, topics) ∷ consuming) = h == g || is_started g consuming

-- The last group consumes the topics of the last change; before the first change it is the first
-- group.
abbrev pub IsLatest : ℕ → ℕ → List Text → List (ℕ × List Text) → Type 0
IsLatest prev group topics [] = group ≡ prev
IsLatest prev group topics ((g, ts) ∷ consuming) = (g ≡ group) × (ts ≡ topics)

-- Of the groups so far exactly the last one is open, and it consumes the topics of the last change.
pub record IsConsuming (prev : ℕ) (s : Refresher) : Type 0 where
  pub first : prev < s.fresh
  pub last : s.group < s.fresh
  pub open_group : (g : ℕ) → g < s.fresh → s.closed g ≡ not (g == s.group)
  pub later : (g : ℕ) → s.fresh < suc g → s.closed g ≡ false
  pub started : (g : ℕ) → g < s.fresh → (g == prev || is_started g s.consuming) ≡ true
  pub latest : IsLatest prev s.group s.topics_old s.consuming

-- While the goroutine runs, one group is open; when it has returned, none is.
abbrev pub IsSettled : ℕ → Refreshed → Type 0
IsSettled prev (goes_on s) = IsConsuming prev s
IsSettled prev (returns s) = (g : ℕ) → g < s.fresh → s.closed g ≡ true

close_deferred-started :
    (consuming : List (ℕ × List Text)) (closed : ℕ → Bool) (g : ℕ)
    → close_deferred consuming closed g ≡ (is_started g consuming || closed g)
unfolding close_deferred close
close_deferred-started [] closed g = refl
close_deferred-started ((h, topics) ∷ consuming) closed g =
    ground (arith, close_deferred-started consuming closed g)

change_topics-IsSettled :
    (prev : ℕ) (topics : List Text) (creates : Bool) (s : Refresher)
    → IsConsuming prev s
    → IsSettled prev (change_topics prev topics creates s)
unfolding change_topics close
change_topics-IsSettled prev topics false s v = λ g below.
    close_deferred-started s.consuming (close prev s.closed) g ∙ ground (arith, v.started g below)
change_topics-IsSettled prev topics true s v = record {
  first = omega (arith, v.first);
  last = omega arith;
  open_group = λ g below. ground (arith, v.open_group g, v.later g, v.last);
  later = λ g above. ground (arith, v.later g, v.last);
  started = λ g below. ground (arith, v.started g);
  latest = (refl, refl);
}

refresh_topics-IsSettled :
    (matches : Text → Bool) (prev : ℕ) (tick : Tick) (s : Refresher)
    → IsConsuming prev s
    → IsSettled prev (refresh_topics matches prev tick s)
unfolding refresh_topics refresh_with
refresh_topics-IsSettled matches prev tick s v = by_refreshed (tick.refreshed) (tick.topics)
  where
    by_change :
        (topics : List Text) (same : Bool)
        → IsSettled prev (if not same then change_topics prev topics tick.creates s else goes_on s)
    by_change topics true = v
    by_change topics false = change_topics-IsSettled prev topics tick.creates s v

    by_refreshed :
        (b : Bool) (o : Option (List Text))
        → IsSettled prev (if b then refresh_with matches prev tick.creates o s else goes_on s)
    by_refreshed false o = v
    by_refreshed true none = v
    by_refreshed true (some topics) =
        by_change (sort_strings (filter_topics matches topics))
          (equal_slices (sort_strings (filter_topics matches topics)) s.topics_old)

pub refresh_loop-IsSettled :
    (matches : Text → Bool) (prev : ℕ) (ticks : List Tick) (s : Refresher)
    → IsConsuming prev s
    → IsSettled prev (refresh_loop matches prev ticks s)
unfolding refresh_loop
refresh_loop-IsSettled matches prev [] s v = v
refresh_loop-IsSettled matches prev (tick ∷ ticks) s v =
    by_turn (refresh_topics matches prev tick s) (refresh_topics-IsSettled matches prev tick s v)
      (λ s' v'. refresh_loop-IsSettled matches prev ticks s' v')
  where
    by_turn :
        (r : Refreshed)
        → IsSettled prev r
        → ((s' : Refresher)
            → IsConsuming prev s'
            → IsSettled prev (refresh_loop matches prev ticks s'))
        → IsSettled prev (elim r as (λ r. Refreshed) [
          | goes_on s' ↦ refresh_loop matches prev ticks s'
          | returns s' ↦ returns s'
        ])
    by_turn (goes_on s') h rest = rest s' h
    by_turn (returns s') h rest = h

is_member-insert_sorted :
    (t u : Text) (us : List Text) → is_member t (insert_sorted u us) ≡ is_member t (u ∷ us)
unfolding insert_sorted is_member
is_member-insert_sorted t u [] = refl
is_member-insert_sorted t u (v ∷ us) = ground (arith, is_member-insert_sorted t u us)

is_member-sort_strings :
    (t : Text) (us : List Text) → is_member t (sort_strings us) ≡ is_member t us
unfolding sort_strings is_member
is_member-sort_strings t [] = refl
is_member-sort_strings t (u ∷ us) =
    is_member-insert_sorted t u (sort_strings us) ∙ ground (arith, is_member-sort_strings t us)

-- The topics that are consumed are those that pass the filter.
abbrev pub IsCovering : List Text → Refreshed → Type 0
IsCovering topics (goes_on s) = (t : Text) → is_member t s.topics_old ≡ is_member t topics
IsCovering topics (returns s) = Unit {0}

-- After a tick on which the metadata was refreshed and the topics were read, if the goroutine still
-- runs, the topics of the last change have the same members as the topics of the cluster that pass
-- the filter.
pub refresh_topics-IsCovering :
    (matches : Text → Bool) (prev : ℕ) (tick : Tick) (topics : List Text) (s : Refresher)
    → tick.refreshed ≡ true
    → tick.topics ≡ some topics
    → IsCovering (filter_topics matches topics) (refresh_topics matches prev tick s)
unfolding refresh_topics refresh_with change_topics
refresh_topics-IsCovering matches prev tick topics s refreshed read =
    rw (refreshed, read)
      (by_change (equal_slices (sort_strings (filter_topics matches topics)) s.topics_old) refl
        tick.creates)
  where
    by_change :
        (same : Bool)
        → equal_slices (sort_strings (filter_topics matches topics)) s.topics_old ≡ same
        → (creates : Bool)
        → IsCovering (filter_topics matches topics) (
            if not same
            then change_topics prev (sort_strings (filter_topics matches topics)) creates s
            else goes_on s)
    by_change true e creates = λ t.
        sym (
          ((equal_slices-members (sort_strings (filter_topics matches topics)) s.topics_old).0 e).1
            t)
        ∙ is_member-sort_strings t (filter_topics matches topics)
    by_change false e true = λ t. is_member-sort_strings t (filter_topics matches topics)
    by_change false e false = tt
