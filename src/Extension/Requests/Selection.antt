-- ===== src/Extension/Requests/Selection.antt =====
-- Which requests Execute of the HTTP client starts
-- (pkg/protocol/extension/protocol/httpclient/httpclient.go).
use zingthings.Base.{
  ◌≡◌, refl, ◌∙◌, ap, Bool, true, false, Option, none, some, List, [], ◌∷◌, ◌++◌, map, arith,
  if◌then◌else◌, keep, ok, All,
}
use zingthings.Base.Text.{Text}
use zingthings.Base.Int.{ℤ}
use zingthings.Base.Dict.{Dict, lookup}
use zingthings.Core.Types.{Value, bytes, text, int, number, texts, object, DeviceInfo}
use zingthings.Core.Protocol.{IsDecoded}
use zingthings.Extension.Requests.{
  HttpRequest, execution_time_interval, interval_of, equals_int, has_interval, need_requests,
  requests_of, Executed, after_started, start_requests, start_devices, execute,
}

-- The properties of a device come from JSON, as far as the interval goes.
abbrev pub IsFromJson : DeviceInfo → Type 0
IsFromJson d = (v : Value) → lookup execution_time_interval d.properties ≡ some v → IsDecoded v

equals_int-decoded : (n : ℤ) (v : Value) → IsDecoded v → equals_int n v ≡ false
equals_int-decoded n (bytes t) d = refl
equals_int-decoded n (text t) d = refl
equals_int-decoded n (int k) d = absurd d
equals_int-decoded n (number k) d = refl
equals_int-decoded n (texts ts) d = refl
equals_int-decoded n (object k) d = refl

has_interval-decoded : (n : ℤ) (d : DeviceInfo) → IsFromJson d → has_interval n d ≡ false
unfolding has_interval
has_interval-decoded n d h = by_value (lookup execution_time_interval d.properties) h
  where
    by_value :
        (o : Option Value)
        → ((v : Value) → o ≡ some v → IsDecoded v)
        → elim o as (λ o. Bool) [ none ↦ false | some v ↦ equals_int n v ] ≡ false
    by_value none h = refl
    by_value (some v) h = equals_int-decoded n v (h v refl)

need_requests-decoded : (n : ℤ) (ds : List DeviceInfo) → All IsFromJson ds → need_requests n ds ≡ []
unfolding need_requests keep
need_requests-decoded n [] h = refl
need_requests-decoded n (d ∷ ds) h =
    rw (has_interval-decoded n d h.0, need_requests-decoded n ds h.1) refl

-- If the interval of the configuration is an int or missing, and the intervals of all devices come
-- from JSON, Execute starts no request and returns no error.
pub execute-decoded :
    (parse : Text → Option HttpRequest) (config : Dict Value) (ds : List DeviceInfo) (n : ℤ)
    → interval_of config ≡ ok n
    → All IsFromJson ds
    → execute parse config ds ≡ ok (record { failed = false; started = [] })
unfolding execute start_devices
execute-decoded parse config ds n e h = rw (e, need_requests-decoded n ds h) refl

-- A request of a device, before it is read.
abbrev pub Wanted : Type 0
Wanted = Text × DeviceInfo

abbrev pub IsRequestable : (DeviceInfo → List Text) → DeviceInfo → Type 0
IsRequestable wanted d = requests_of d ≡ ok (wanted d)

-- The requests of the devices, those of the first device first.
abbrev pub wanted_of : (DeviceInfo → List Text) → List DeviceInfo → List Wanted
wanted_of wanted [] = []
wanted_of wanted (d ∷ ds) = map (λ t. (t, d)) (wanted d) ++ wanted_of wanted ds

-- The requests up to the first that cannot be read, and whether there is one that cannot be read.
abbrev pub readable : (Text → Option HttpRequest) → List Wanted → List (HttpRequest × DeviceInfo)
readable parse [] = []
readable parse ((t, d) ∷ ws) = elim (parse t) [ none ↦ [] | some r ↦ (r, d) ∷ readable parse ws ]

abbrev pub has_unreadable : (Text → Option HttpRequest) → List Wanted → Bool
has_unreadable parse [] = false
has_unreadable parse ((t, d) ∷ ws) = elim (parse t) [
  | none ↦ true
  | some r ↦ has_unreadable parse ws
]

abbrev outcome_of : (Text → Option HttpRequest) → List Wanted → Executed
outcome_of parse ws = record { failed = has_unreadable parse ws; started = readable parse ws }

-- What the loop on one device leaves to the others.
abbrev before : Executed → Executed → Executed
before here rest = if here.failed then here else after_started here.started rest

before-started :
    (x : HttpRequest × DeviceInfo) (here rest : Executed)
    → before (after_started (x ∷ []) here) rest ≡ after_started (x ∷ []) (before here rest)
before-started x here rest = by_failed here.failed refl
  where
    by_failed :
        (b : Bool)
        → here.failed ≡ b
        → before (after_started (x ∷ []) here) rest ≡ after_started (x ∷ []) (before here rest)
    by_failed true e = rw e refl
    by_failed false e = rw e refl

start_requests-before :
    (parse : Text → Option HttpRequest) (d : DeviceInfo) (ts : List Text) (ws : List Wanted)
    → before (start_requests parse d ts) (outcome_of parse ws)
      ≡ outcome_of parse (map (λ t. (t, d)) ts ++ ws)
unfolding start_requests
start_requests-before parse d [] ws = refl
start_requests-before parse d (t ∷ ts) ws = by_read (parse t) (start_requests-before parse d ts ws)
  where
    later : List Wanted
    later = map (λ t. (t, d)) ts ++ ws

    by_read :
        (o : Option HttpRequest)
        → before (start_requests parse d ts) (outcome_of parse ws) ≡ outcome_of parse later
        → before
            (elim o as (λ o. Executed) [
              | none ↦ record { failed = true; started = [] }
              | some r ↦ after_started ((r, d) ∷ []) (start_requests parse d ts)
            ])
            (outcome_of parse ws)
          ≡ record {
            failed = elim o as (λ o. Bool) [ none ↦ true | some r ↦ has_unreadable parse later ];
            started = elim o as (λ o. List (HttpRequest × DeviceInfo)) [
              | none ↦ []
              | some r ↦ (r, d) ∷ readable parse later
            ];
          }
    by_read none e = refl
    by_read (some r) e =
        before-started (r, d) (start_requests parse d ts) (outcome_of parse ws)
        ∙ ap (after_started ((r, d) ∷ [])) e

start_devices-outcome :
    (parse : Text → Option HttpRequest) (wanted : DeviceInfo → List Text) (ds : List DeviceInfo)
    → All (IsRequestable wanted) ds
    → start_devices parse ds ≡ ok (outcome_of parse (wanted_of wanted ds))
unfolding start_devices
start_devices-outcome parse wanted [] h = refl
start_devices-outcome parse wanted (d ∷ ds) h =
    rw (h.0, start_devices-outcome parse wanted ds h.1)
      (by_failed (start_requests parse d (wanted d)))
    ∙ ap ok (start_requests-before parse d (wanted d) (wanted_of wanted ds))
  where
    by_failed :
        (here : Executed)
        → (if here.failed
            then ok here
            else ok (after_started here.started (outcome_of parse (wanted_of wanted ds))))
          ≡ ok (before here (outcome_of parse (wanted_of wanted ds)))
    by_failed here = ground arith

-- Let the interval of the configuration be an int or missing, and let each device with that
-- interval have a list of strings as its requests. Then Execute starts these requests, device by
-- device, up to the first that cannot be read as one, and returns an error exactly if there is one
-- that cannot be read.
pub execute-outcome :
    (parse : Text → Option HttpRequest) (config : Dict Value) (ds : List DeviceInfo) (n : ℤ)
    (wanted : DeviceInfo → List Text)
    → interval_of config ≡ ok n
    → All (IsRequestable wanted) (need_requests n ds)
    → execute parse config ds
      ≡ ok (record {
        failed = has_unreadable parse (wanted_of wanted (need_requests n ds));
        started = readable parse (wanted_of wanted (need_requests n ds));
      })
unfolding execute
execute-outcome parse config ds n wanted e h =
    rw e (start_devices-outcome parse wanted (need_requests n ds) h)
