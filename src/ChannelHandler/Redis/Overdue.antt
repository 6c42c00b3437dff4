-- ===== src/ChannelHandler/Redis/Overdue.antt =====
-- Which devices are taken to be offline by the record in Redis
-- (pkg/protocol/channelhandler/record_device_report_offline_up.go).
use zingthings.Base.{
  ℕ, ◌*◌, ◌≤◌, ◌≡◌, refl, ◌∙◌, ap, sym, Bool, true, false, ◌&&◌, Option, none, some, List, [], ◌∷◌,
  arith, if◌then◌else◌, Bool-cases, inl, inr,
}
use zingthings.Base.Text.{Text, text_eq, text_eq_iff, text_eq_refl}
use zingthings.Base.Int.{pos, itoa}
use zingthings.Base.Decimal.{IsInt64, atoi-itoa}
use zingthings.Core.Types.{Message}
use zingthings.Core.Protocol.{is_not_long_connection}
use zingthings.Util.{contains}
use zingthings.ChannelHandler.Redis.{
  Redis, is_overdue, is_gone, scan_fields, redis_save_record, redis_deal_record,
}

-- A Redis that can be reached: its hash has a value or none for each field, and reading leaves it
-- alone.
pub record IsHash (r : Redis) (find : r.State → Text → Option Text) : Type 0 where
  pub hget_ok : (k : Text) (s : r.State) → (r.hget k s).0 ≡ find s k
  pub find-hget : (k j : Text) (s : r.State) → find (r.hget k s).1 j ≡ find s j
  pub find-hdel :
      (k j : Text) (s : r.State) → find (r.hdel k s).1 j ≡ (if text_eq k j then none else find s j)
  pub find-hset :
      (k v j : Text) (s : r.State)
      → find (r.hset k v s).1 j ≡ (if text_eq k j then some v else find s j)

module _ (r : Redis) (find : r.State → Text → Option Text) (hash : IsHash r find) where
  open r use {State}

  abbrev pub gone_at : ℕ → State → Text → Bool
  gone_at current s k = is_gone current (find s k)

  -- What is published are the fields of the page whose time is too old, and they are deleted.
  pub record IsScanned (current : ℕ) (fields : List Text) (s : State) (o : List Text × State)
      : Type 0 where
    pub published : (k : Text) → contains o.0 k ≡ (contains fields k && gone_at current s k)
    pub left : (k : Text) → find o.1 k ≡ (if contains o.0 k then none else find s k)

  IsScanned-gone :
      (current : ℕ) (f : Text) (fields : List Text) (s s2 : State) (o : List Text × State)
      → gone_at current s f ≡ true
      → ((k : Text) → find s2 k ≡ (if text_eq f k then none else find s k))
      → IsScanned current fields s2 o
      → IsScanned current (f ∷ fields) s (f ∷ o.0, o.1)
  unfolding contains
  IsScanned-gone current f fields s s2 o gone without h = record {
    published = λ k. (by_key k (text_eq f k) refl).0;
    left = λ k. (by_key k (text_eq f k) refl).1;
  }
    where
      by_key :
          (k : Text) (b : Bool)
          → text_eq f k ≡ b
          → ((if text_eq f k then true else contains o.0 k)
              ≡ ((if text_eq f k then true else contains fields k) && gone_at current s k))
            × (find o.1 k
                ≡ (if (if text_eq f k then true else contains o.0 k) then none else find s k))
      by_key k true e =
          let at_k : find s2 k ≡ none = without k ∙ rw e refl in
          let same : gone_at current s k ≡ true =
            ap (gone_at current s) (sym ((text_eq_iff f k).0 e)) ∙ gone in
          rw e (sym same, ground (arith, h.left k, at_k))
      by_key k false e =
          let at_k : find s2 k ≡ find s k = without k ∙ rw e refl in
          rw e (
            h.published k ∙ ap (λ v. contains fields k && is_gone current v) at_k,
            h.left k ∙ ap (λ v. if contains o.0 k then none else v) at_k,
          )

  IsScanned-kept :
      (current : ℕ) (f : Text) (fields : List Text) (s s1 : State) (o : List Text × State)
      → gone_at current s f ≡ false
      → ((k : Text) → find s1 k ≡ find s k)
      → IsScanned current fields s1 o
      → IsScanned current (f ∷ fields) s o
  unfolding contains
  IsScanned-kept current f fields s s1 o kept same h = record {
    published = λ k.
        h.published k
        ∙ ap (λ v. contains fields k && is_gone current v) (same k)
        ∙ by_key k (text_eq f k) refl;
    left = λ k. h.left k ∙ ap (λ v. if contains o.0 k then none else v) (same k);
  }
    where
      by_key :
          (k : Text) (b : Bool)
          → text_eq f k ≡ b
          → (contains fields k && gone_at current s k)
            ≡ ((if b then true else contains fields k) && gone_at current s k)
      by_key k true e =
          let same_k : gone_at current s k ≡ false =
            ap (gone_at current s) (sym ((text_eq_iff f k).0 e)) ∙ kept in
          rw same_k (ground arith)
      by_key k false e = refl

  after_get : Text → State → State
  after_get f s = (r.hget f s).1

  after_delete : Text → State → State
  unfolding after_get
  after_delete f s = (r.hdel f (after_get f s)).1

  field_gone :
      (current : ℕ) (f : Text) (fields : List Text) (s : State)
      → gone_at current s f ≡ true
      → let (rest, s') = scan_fields r current fields (after_delete f s) in
        scan_fields r current (f ∷ fields) s ≡ (f ∷ rest, s')
  unfolding scan_fields after_delete after_get
  field_gone current f fields s e = rw (hash.hget_ok f s, e) refl

  field_kept :
      (current : ℕ) (f : Text) (fields : List Text) (s : State)
      → gone_at current s f ≡ false
      → scan_fields r current (f ∷ fields) s ≡ scan_fields r current fields (after_get f s)
  unfolding scan_fields after_get
  field_kept current f fields s e = rw (hash.hget_ok f s, e) refl

  find-after_delete :
      (f k : Text) (s : State)
      → find (after_delete f s) k ≡ (if text_eq f k then none else find s k)
  unfolding after_delete after_get
  find-after_delete f k s =
      hash.find-hdel f k (r.hget f s).1
      ∙ ap (λ v. if text_eq f k then none else v) (hash.find-hget f k s)

  -- Take a Redis that can be reached. On one page of a scan, DeviceOffline is published exactly for
  -- the fields of the page whose value is the text of a time that is too old, and exactly these
  -- fields are deleted.
  pub scan_fields-IsScanned :
      (current : ℕ) (fields : List Text) (s : State)
      → IsScanned current fields s (scan_fields r current fields s)
  unfolding scan_fields contains after_get
  scan_fields-IsScanned current [] s = record { published = λ k. refl; left = λ k. refl }
  scan_fields-IsScanned current (f ∷ fields) s = elim (Bool-cases (gone_at current s f)) [
    | inl gone ↦ rw (field_gone current f fields s gone) (
        IsScanned-gone current f fields s (after_delete f s) _ gone (λ k. find-after_delete f k s)
          (scan_fields-IsScanned current fields (after_delete f s)))
    | inr kept ↦ rw (field_kept current f fields s kept) (
        IsScanned-kept current f fields s (after_get f s) _ kept (λ k. hash.find-hget f k s)
          (scan_fields-IsScanned current fields (after_get f s)))
  ]

-- A time in microseconds of the clock's own time, or of a later one, is never too old for the clock in
-- milliseconds.
is_overdue-micro :
    (current milli : ℕ) → current ≤ 1000 * milli → is_overdue current (pos (1000 * milli)) ≡ false
unfolding is_overdue
is_overdue-micro current milli early = ground arith

recorded :
    (r : Redis) (milli : ℕ) (m : Message) (s : r.State)
    → text_eq m.header.protocol_type [] ≡ false
    → is_not_long_connection m.header.protocol_type ≡ true
    → redis_deal_record r (1000 * milli) m s
      ≡ r.hset m.header.device_id (itoa (pos (1000 * milli))) s
unfolding redis_deal_record redis_save_record
recorded r milli m s typed short = rw (typed, short) refl

not_gone :
    (current milli : ℕ)
    → IsInt64 (pos (1000 * milli))
    → current ≤ 1000 * milli
    → is_gone current (some (itoa (pos (1000 * milli)))) ≡ false
not_gone current milli fits early =
    ap (λ o. elim o as (λ o. Bool) [ none ↦ false | some t ↦ is_overdue current t ])
      (atoi-itoa (pos (1000 * milli)) fits)
    ∙ is_overdue-micro current milli early

-- Take a Redis that can be reached. After a message of a protocol without long connections is
-- recorded at 1000 * milli microseconds, no page of a scan publishes DeviceOffline for its device at
-- any clock value up to 1000 * milli milliseconds.
pub scan_fields-redis_deal_record :
    (r : Redis) (find : r.State → Text → Option Text) (milli current : ℕ) (m : Message)
    (fields : List Text) (s : r.State)
    → IsHash r find
    → text_eq m.header.protocol_type [] ≡ false
    → is_not_long_connection m.header.protocol_type ≡ true
    → IsInt64 (pos (1000 * milli))
    → current ≤ 1000 * milli
    → contains
        (scan_fields r current fields (redis_deal_record r (1000 * milli) m s).1).0
        m.header.device_id
      ≡ false
scan_fields-redis_deal_record r find milli current m fields s hash typed short fits early =
    let device = m.header.device_id in
    let s1 : r.State = (redis_deal_record r (1000 * milli) m s).1 in
    let there : find s1 device ≡ some (itoa (pos (1000 * milli))) =
      ap (λ o. find o.1 device) (recorded r milli m s typed short)
      ∙ hash.find-hset device (itoa (pos (1000 * milli))) device s
      ∙ rw (text_eq_refl device) refl in
    (scan_fields-IsScanned r find hash current fields s1).published device
    ∙ ap (λ v. contains fields device && is_gone current v) there
    ∙ rw (not_gone current milli fits early) (ground arith)
