-- ===== src/Nats/Permissions/Streams/Grants.antt =====
-- Which groups of grants have an update of a stream among their publications: none but the manager's.
use Prim.Native.Char.{code}
use Prim.Native.String.append
use clavenar_charts.Base.{
  String, ◌<>◌, ◌≡◌, refl, Bool, true, false, not, ◌||◌, List, [], ◌∷◌, ◌++◌, arith, nat_eq,
  Bool-cases, inl, inr,
}
use clavenar_charts.Base.Text.{has_prefix}
use clavenar_charts.Value.{Value, str}
use clavenar_charts.Value.Print.{text_of}
use clavenar_charts.Nats.Permissions.{
  Grant, publish, subscribe, consumer_grants, reader_grants, publisher_grants, subscriber_grants,
  writer_grants, bucket_manager_grants,
}

-- Two texts differ at a place that both have.
clash : String → String → Bool
clash String.[] t = false
clash (String.◌∷◌ c s) String.[] = false
clash (String.◌∷◌ c s) (String.◌∷◌ d t) = not (nat_eq (code c) (code d)) || clash s t

has_prefix-clash : (a x p : String) → clash a p ≡ true → has_prefix (a <> x) p ≡ false
unfolding clash
has_prefix-clash String.[] x p h = cc
has_prefix-clash (String.◌∷◌ c s) x String.[] h = cc
has_prefix-clash (String.◌∷◌ c s) x (String.◌∷◌ d t) h =
    rw (append.cons c s x) (elim (Bool-cases (nat_eq (code c) (code d))) [
      | inl e ↦ rw e (has_prefix-clash s x t (rw e at h))
      | inr e ↦ rw e
    ])

abbrev pub update_prefix : String
update_prefix = "$JS.API.STREAM.UPDATE."

-- The subject with which a client changes the configuration of a stream.
unfoldable pub is_update : Value → Bool
is_update (str s) = has_prefix s update_prefix
is_update _ = false

no_update : (a x : String) → clash a update_prefix ≡ true → is_update (str (a <> x)) ≡ false
unfolding is_update
no_update a x h = has_prefix-clash a x update_prefix h

-- Some publication among the grants is an update.
unfoldable pub updates : List Grant → Bool
updates [] = false
updates (publish v ∷ grants) = is_update v || updates grants
updates (subscribe v ∷ grants) = updates grants

pub updates-append : (gs hs : List Grant) → updates (gs ++ hs) ≡ (updates gs || updates hs)
unfolding updates
updates-append [] hs = refl
updates-append (publish v ∷ gs) hs = ground (arith, updates-append gs hs)
updates-append (subscribe v ∷ gs) hs = updates-append gs hs

pub updates-consumer_grants :
    (stream durable : String) → updates (consumer_grants stream durable) ≡ false
unfolding updates consumer_grants clash
updates-consumer_grants stream durable = simp (
  no_update "$JS.API.STREAM.INFO." stream refl,
  no_update "$JS.API.CONSUMER.INFO." (stream <> "." <> durable) refl,
  no_update "$JS.API.CONSUMER.CREATE." (stream <> "." <> durable) refl,
  no_update "$JS.API.CONSUMER.CREATE." (stream <> "." <> durable <> ".>") refl,
  no_update "$JS.API.CONSUMER.MSG.NEXT." (stream <> "." <> durable) refl,
  no_update "$JS.ACK." (stream <> "." <> durable <> ".>") refl,
)

pub updates-reader_grants : (stream bucket : String) → updates (reader_grants stream bucket) ≡ false
unfolding updates reader_grants clash
updates-reader_grants stream bucket = simp (
  no_update "$JS.API.STREAM.INFO." stream refl,
  no_update "$JS.API.DIRECT.GET." (stream <> ".>") refl,
  no_update "$JS.API.STREAM.MSG.GET." stream refl,
  no_update "$JS.API.CONSUMER.CREATE." stream refl,
  no_update "$JS.API.CONSUMER.CREATE." (stream <> ".>") refl,
  no_update "$JS.API.CONSUMER.INFO." (stream <> ".>") refl,
  no_update "$JS.API.CONSUMER.DELETE." (stream <> ".>") refl,
  no_update "$JS.API.CONSUMER.MSG.NEXT." (stream <> ".>") refl,
  no_update "$JS.ACK." (stream <> ".>") refl,
)

pub updates-publisher_grants :
    (publishes : Bool) (name stream : Value)
    → is_update name ≡ false
    → updates (publisher_grants publishes name stream) ≡ false
unfolding updates publisher_grants clash
updates-publisher_grants publishes name stream h =
    ground (arith, no_update "$JS.API.STREAM.INFO." (text_of stream) refl)

pub updates-subscriber_grants :
    (subscribes : Bool) (name : Value) → updates (subscriber_grants subscribes name) ≡ false
unfolding updates subscriber_grants
updates-subscriber_grants subscribes name = ground arith

pub updates-writer_grants :
    (writes : Bool) (bucket : String) → updates (writer_grants writes bucket) ≡ false
unfolding updates writer_grants clash
updates-writer_grants writes bucket = ground (arith, no_update "$KV." (bucket <> ".>") refl)

pub updates-bucket_manager_grants :
    (manages : Bool) (stream : String) → updates (bucket_manager_grants manages stream) ≡ false
unfolding updates bucket_manager_grants clash is_update
updates-bucket_manager_grants manages stream =
    ground (arith, no_update "$JS.API.STREAM.CREATE." stream refl)
