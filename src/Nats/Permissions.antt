-- ===== src/Nats/Permissions.antt =====
-- `permissions` and `expected_authorization`: what each client may publish and subscribe to.
pub mod Streams
use clavenar_charts.Base.{Bool, true, false, String, ◌<>◌, none, some, List, [], ◌∷◌, ◌++◌}
use clavenar_charts.Base.{if◌then◌else◌}
use clavenar_charts.Base.Result.{
  Result, ok, raise, ◌>>=◌, stop_iteration, traverse, gather, find_of,
}
use clavenar_charts.Value.{Value, str, dict, end, list, num, ◌▸◌}
use clavenar_charts.Value.Equality.{py_eq, set_of}
use clavenar_charts.Value.Access.{truthy, item, is_in, each}
use clavenar_charts.Value.Print.{text_of}
use clavenar_charts.Value.Sort.{sort_by, value_leb}

-- One addition to the set of publications or of subscriptions.
pub data Grant : Type 0 where
  publish subscribe : Value → Grant

-- The publications of a consumer of the stream, by its durable name.
unfoldable pub consumer_grants : String → String → List Grant
consumer_grants stream durable =
    publish (str ("$JS.API.STREAM.INFO." <> stream))
    ∷ publish (str ("$JS.API.CONSUMER.INFO." <> stream <> "." <> durable))
    ∷ publish (str ("$JS.API.CONSUMER.CREATE." <> stream <> "." <> durable))
    ∷ publish (str ("$JS.API.CONSUMER.CREATE." <> stream <> "." <> durable <> ".>"))
    ∷ publish (str ("$JS.API.CONSUMER.MSG.NEXT." <> stream <> "." <> durable))
    ∷ publish (str ("$JS.ACK." <> stream <> "." <> durable <> ".>"))
    ∷ []

unfoldable pub manager_grants : String → List Grant
manager_grants stream =
    publish (str ("$JS.API.STREAM.INFO." <> stream))
    ∷ publish (str ("$JS.API.STREAM.CREATE." <> stream))
    ∷ publish (str ("$JS.API.STREAM.UPDATE." <> stream))
    ∷ []

unfoldable pub reader_grants : String → String → List Grant
reader_grants stream bucket =
    publish (str ("$JS.API.STREAM.INFO." <> stream))
    ∷ publish (str ("$JS.API.DIRECT.GET." <> stream <> ".>"))
    ∷ publish (str ("$JS.API.STREAM.MSG.GET." <> stream))
    ∷ publish (str ("$JS.API.CONSUMER.CREATE." <> stream))
    ∷ publish (str ("$JS.API.CONSUMER.CREATE." <> stream <> ".>"))
    ∷ publish (str ("$JS.API.CONSUMER.INFO." <> stream <> ".>"))
    ∷ publish (str ("$JS.API.CONSUMER.DELETE." <> stream <> ".>"))
    ∷ publish (str ("$JS.API.CONSUMER.MSG.NEXT." <> stream <> ".>"))
    ∷ publish (str ("$JS.ACK." <> stream <> ".>"))
    ∷ subscribe (str ("$KV." <> bucket <> ".>"))
    ∷ []

-- What one consumer of a subject's stream adds for the service.
unfoldable pub from_consumer : Value → String → Value → Result (List Grant)
from_consumer service stream consumer = do
  owner ← item consumer "service"
  if py_eq service owner
      then (do name ← item consumer "name"; ok (consumer_grants stream (text_of name)))
      else ok []

-- What a publisher of a subject may publish: the subject, and the look-up of its stream.
unfoldable pub publisher_grants : Bool → Value → Value → List Grant
publisher_grants publishes name stream =
    if publishes
    then publish name
      ∷ (if truthy stream
          then publish (str ("$JS.API.STREAM.INFO." <> text_of stream)) ∷ []
          else [])
    else []

unfoldable pub subscriber_grants : Bool → Value → List Grant
subscriber_grants subscribes name = if subscribes then subscribe name ∷ [] else []

-- What the manager of a subject's stream may publish; the manager is read only if there is a stream.
unfoldable pub managed_grants : Value → Value → Value → Result (List Grant)
managed_grants service subject stream =
    if truthy stream
    then (do
      manager ← item subject "streamManager"
      ok (if py_eq service manager then manager_grants (text_of stream) else []))
    else ok []

-- The round of the first loop for one subject.
unfoldable pub from_subject : Value → Value → Result (List Grant)
from_subject service subject = do
  name ← item subject "subject"
  stream ← item subject "stream"
  publishers ← item subject "publishers"
  publishes ← is_in service publishers
  subscribers ← item subject "subscribers"
  subscribes ← is_in service subscribers
  managed ← managed_grants service subject stream
  raw ← item subject "durableConsumers"
  consumers ← each raw
  consumed ← gather (from_consumer service (text_of stream)) consumers
  ok (
      publisher_grants publishes name stream
      ++ (subscriber_grants subscribes name ++ (managed ++ consumed)))

unfoldable pub writer_grants : Bool → String → List Grant
writer_grants writes bucket = if writes then publish (str ("$KV." <> bucket <> ".>")) ∷ [] else []

unfoldable pub bucket_manager_grants : Bool → String → List Grant
bucket_manager_grants manages stream =
    if manages
    then publish (str "$JS.API.INFO") ∷ publish (str ("$JS.API.STREAM.CREATE." <> stream)) ∷ []
    else []

-- The round of the second loop for one bucket.
unfoldable pub from_bucket : Value → Value → Result (List Grant)
from_bucket service bucket = do
  raw_name ← item bucket "bucket"
  let name = text_of raw_name
  let stream = "KV_" <> name
  readers ← item bucket "readers"
  reads ← is_in service readers
  writers ← item bucket "writers"
  writes ← is_in service writers
  manager ← item bucket "manager"
  ok (
      (if reads then reader_grants stream name else [])
      ++ (writer_grants writes name ++ bucket_manager_grants (py_eq service manager) stream))

unfoldable pub published : List Grant → List Value
published [] = []
published (publish v ∷ grants) = v ∷ published grants
published (subscribe v ∷ grants) = published grants

unfoldable pub subscribed : List Grant → List Value
subscribed [] = []
subscribed (publish v ∷ grants) = subscribed grants
subscribed (subscribe v ∷ grants) = v ∷ subscribed grants

-- `next(item for item in clients if item["service"] == service)`
unfoldable pub client_of : Value → List Value → Result Value
client_of service clients = do
  found ← find_of (λ client. item client "service" >>= λ s. ok (py_eq s service)) clients
  elim found [ none ↦ raise stop_iteration | some client ↦ ok client ]

-- All additions that `permissions` makes, in order.
unfoldable pub grants_of : Value → Value → Result (List Grant)
grants_of contract service = do
  raw_clients ← item contract "clients"
  clients ← each raw_clients
  client ← client_of service clients
  prefix ← item client "inboxPrefix"
  raw_subjects ← item contract "subjects"
  subjects ← each raw_subjects
  from_subjects ← gather (from_subject service) subjects
  raw_buckets ← item contract "kvBuckets"
  buckets ← each raw_buckets
  from_buckets ← gather (from_bucket service) buckets
  ok (subscribe (str (text_of prefix <> ".>")) ∷ (from_subjects ++ from_buckets))

-- The sets of publications and of subscriptions.
unfoldable pub permissions : Value → Value → Result (List Value × List Value)
permissions contract service = do
  grants ← grants_of contract service
  ok (set_of (published grants), set_of (subscribed grants))

-- The user entry of one client.
unfoldable pub user_of : Value → Value → Result Value
user_of contract client = do
  service ← item client "service"
  (publishes, subscribes) ← permissions contract service
  user ← item client "dnsSan"
  sorted_publishes ← sort_by value_leb publishes
  sorted_subscribes ← sort_by value_leb subscribes
  ok (
      dict (
        ("user", user)
        ▸ (
          "permissions",
          dict (
              ("publish", dict (("allow", list sorted_publishes) ▸ end))
              ▸ ("subscribe", dict (("allow", list sorted_subscribes) ▸ end))
              ▸ end),
        )
        ▸ end))

unfoldable pub expected_authorization : Value → Result Value
expected_authorization contract = do
  raw ← item contract "clients"
  clients ← each raw
  users ← traverse (user_of contract) clients
  ok (dict (("timeout", num 2) ▸ ("users", list users) ▸ end))
