-- ===== src/Nats/Permissions/Streams.antt =====
-- Who may update a JetStream stream: only the service that the contract names as its manager.
pub mod Grants
use Prim.Native.Char.{code}
use Prim.Native.String.append
use mathlib.Core.Path.{subst}
use clavenar_charts.Base.{
  String, ◌<>◌, ◌≡◌, refl, sym, ap, ◌∙◌, Bool, true, false, not, ◌||◌, List, [], ◌∷◌, ◌++◌, arith,
  nat_eq, if◌then◌else◌, Bool-cases, inl, inr, ◌⊎◌,
}
use clavenar_charts.Base.Lists.{any}
use clavenar_charts.Base.Text.{has_prefix}
use clavenar_charts.Base.Result.{Result, ok, >>=-eq-ok, ok-injective, gather}
use clavenar_charts.Value.{Value, str}
use clavenar_charts.Value.Equality.{set_of, py_eq}
use clavenar_charts.Value.Access.{truthy, item, each, is_in}
use clavenar_charts.Value.Print.{text_of}
use clavenar_charts.Nats.Permissions.{
  Grant, publish, subscribe, consumer_grants, reader_grants, publisher_grants, subscriber_grants,
  managed_grants, writer_grants, bucket_manager_grants, from_consumer, from_subject, from_bucket,
  published, client_of, grants_of, permissions,
}
use clavenar_charts.Nats.Permissions.Streams.Grants.{
  is_update, updates, updates-append, updates-consumer_grants, updates-reader_grants,
  updates-publisher_grants, updates-subscriber_grants, updates-writer_grants,
  updates-bucket_manager_grants,
}

-- The subject's stream has the service as its manager.
abbrev pub Manages : Value → Value → Type 0
Manages service subject =
    (manager : Value) × (item subject "streamManager" ≡ ok manager) × (py_eq service manager ≡ true)

-- The subject itself is not one of the subjects with which streams are updated.
abbrev pub IsPlain : Value → Type 0
IsPlain subject = (name : Value) → item subject "subject" ≡ ok name → is_update name ≡ false

managed_grants-updates :
    (service subject stream : Value) {gs : List Grant}
    → managed_grants service subject stream ≡ ok gs
    → updates gs ≡ true
    → Manages service subject
unfolding managed_grants updates
managed_grants-updates service subject stream {gs} h u = elim (Bool-cases (truthy stream)) [
  | inr e ↦ cc (rw (← ok-injective (rw e at h)) at u)
  | inl e ↦
      let (manager, hm, h1) = >>=-eq-ok (item subject "streamManager") _ (rw e at h) in
      elim (Bool-cases (py_eq service manager)) [
        | inl same ↦ (manager, hm, same)
        | inr other ↦ cc (rw (← ok-injective (rw other at h1)) at u)
      ]
]

from_consumer-updates :
    (service : Value) (stream : String) (consumer : Value) {gs : List Grant}
    → from_consumer service stream consumer ≡ ok gs
    → updates gs ≡ false
unfolding from_consumer updates
from_consumer-updates service stream consumer h =
    let (owner, _, h1) = >>=-eq-ok (item consumer "service") _ h in
    elim (Bool-cases (py_eq service owner)) [
      | inl e ↦
          let (name, _, h2) = >>=-eq-ok (item consumer "name") _ (rw e at h1) in
          ap updates (sym (ok-injective h2)) ∙ updates-consumer_grants stream (text_of name)
      | inr e ↦ ap updates (sym (ok-injective (rw e at h1)))
    ]

-- A loop whose rounds add no update adds none.
gather-updates :
    (f : Value → Result (List Grant)) (xs : List Value) {gs : List Grant}
    → ((x : Value) (hs : List Grant) → f x ≡ ok hs → updates hs ≡ false)
    → gather f xs ≡ ok gs
    → updates gs ≡ false
unfolding updates
gather-updates f [] quiet h = ap updates (sym (ok-injective h))
gather-updates f (x ∷ xs) quiet h =
    let (hs, hx, h1) = >>=-eq-ok (f x) _ h in
    let (rest, hr, h2) = >>=-eq-ok (gather f xs) _ h1 in
    ap updates (sym (ok-injective h2))
    ∙ updates-append hs rest
    ∙ rw (quiet x hs hx) (gather-updates f xs quiet hr)

from_bucket-updates :
    (service bucket : Value) {gs : List Grant}
    → from_bucket service bucket ≡ ok gs
    → updates gs ≡ false
unfolding from_bucket updates
from_bucket-updates service bucket h =
    let (raw, _, h1) = >>=-eq-ok (item bucket "bucket") _ h in
    let (readers, _, h2) = >>=-eq-ok (item bucket "readers") _ h1 in
    let (reads, _, h3) = >>=-eq-ok (is_in service readers) _ h2 in
    let (writers, _, h4) = >>=-eq-ok (item bucket "writers") _ h3 in
    let (writes, _, h5) = >>=-eq-ok (is_in service writers) _ h4 in
    let (manager, _, h6) = >>=-eq-ok (item bucket "manager") _ h5 in
    ap updates (sym (ok-injective h6))
    ∙ updates-append (if reads then reader_grants ("KV_" <> text_of raw) (text_of raw) else []) _
    ∙ rw (updates-append, updates-writer_grants, updates-bucket_manager_grants)
        (ground (arith, updates-reader_grants ("KV_" <> text_of raw) (text_of raw)))

-- Only the third of the parts can have an update.
updates_within :
    (as' bs cs ds : List Grant)
    → updates as' ≡ false
    → updates bs ≡ false
    → updates ds ≡ false
    → updates (as' ++ (bs ++ (cs ++ ds))) ≡ updates cs
updates_within as' bs cs ds ha hb hd =
    rw updates-append (rw ha (rw updates-append (rw hb (rw updates-append (rw hd (ground arith))))))

from_subject-updates :
    (service subject : Value) {gs : List Grant}
    → IsPlain subject
    → from_subject service subject ≡ ok gs
    → updates gs ≡ true
    → Manages service subject
unfolding from_subject updates
from_subject-updates service subject {gs} plain h u =
    let (name, hname, h1) = >>=-eq-ok (item subject "subject") _ h in
    let (stream, hstream, h2) = >>=-eq-ok (item subject "stream") _ h1 in
    let (publishers, _, h3) = >>=-eq-ok (item subject "publishers") _ h2 in
    let (publishes, _, h4) = >>=-eq-ok (is_in service publishers) _ h3 in
    let (subscribers, _, h5) = >>=-eq-ok (item subject "subscribers") _ h4 in
    let (subscribes, _, h6) = >>=-eq-ok (is_in service subscribers) _ h5 in
    let (managed, hmanaged, h7) = >>=-eq-ok (managed_grants service subject stream) _ h6 in
    let (raw, _, h8) = >>=-eq-ok (item subject "durableConsumers") _ h7 in
    let (consumers, _, h9) = >>=-eq-ok (each raw) _ h8 in
    let (consumed, hconsumed, h10) =
      >>=-eq-ok (gather (from_consumer service (text_of stream)) consumers) _ h9 in
    let total : updates gs ≡ updates managed =
      ap updates (sym (ok-injective h10))
      ∙ updates_within (publisher_grants publishes name stream) (subscriber_grants subscribes name)
          managed consumed (updates-publisher_grants publishes name stream (plain name hname))
          (updates-subscriber_grants subscribes name)
          (gather-updates (from_consumer service (text_of stream)) consumers
            (λ x hs. from_consumer-updates service (text_of stream) x) hconsumed) in
    managed_grants-updates service subject stream hmanaged (sym total ∙ u)

-- Some subject, or every subject, of a list has a property.
abbrev pub AnyOf : (Value → Type 0) → List Value → Type 0
AnyOf P [] = ⊥
AnyOf P (x ∷ xs) = P x ⊎ AnyOf P xs

abbrev pub AllOf : (Value → Type 0) → List Value → Type 0
AllOf P [] = Unit
AllOf P (x ∷ xs) = P x × AllOf P xs

subjects-updates :
    (service : Value) (subjects : List Value) (gs : List Grant)
    → AllOf IsPlain subjects
    → gather (from_subject service) subjects ≡ ok gs
    → updates gs ≡ true
    → AnyOf (Manages service) subjects
unfolding updates
subjects-updates service [] gs plain h u = cc (rw (← ok-injective h) at u)
subjects-updates service (x ∷ xs) gs (px, plain) h u =
    let (hs, hx, h1) = >>=-eq-ok (from_subject service x) _ h in
    let (rest, hr, h2) = >>=-eq-ok (gather (from_subject service) xs) _ h1 in
    elim (Bool-cases (updates hs)) [
      | inl e ↦ inl (from_subject-updates service x px hx e)
      | inr e ↦ inr (
          subjects-updates service xs rest plain hr
            (rw e at (sym (updates-append hs rest) ∙ ap updates (ok-injective h2) ∙ u)))
    ]

-- A set has only what was added to it.
any-set_of : (p : Value → Bool) (xs : List Value) → any p (set_of xs) ≡ true → any p xs ≡ true
unfolding set_of
any-set_of p [] h = h
any-set_of p (x ∷ xs) h = ground (arith, any-set_of p xs)

any-published : (gs : List Grant) → any is_update (published gs) ≡ updates gs
unfolding published updates
any-published [] = refl
any-published (publish v ∷ gs) = ap (λ b. is_update v || b) (any-published gs)
any-published (subscribe v ∷ gs) = any-published gs

-- The updates among all grants are those of the subjects.
grants_of-updates :
    (contract service : Value) (gs : List Grant)
    → grants_of contract service ≡ ok gs
    → (raw : Value) × (subjects : List Value) × (fs : List Grant) × (item contract "subjects"
        ≡ ok raw)
      × (each raw ≡ ok subjects)
      × (gather (from_subject service) subjects ≡ ok fs)
      × (updates gs ≡ updates fs)
unfolding grants_of updates
grants_of-updates contract service gs h =
    let (c1, _, g1) = >>=-eq-ok (item contract "clients") _ h in
    let (c2, _, g2) = >>=-eq-ok (each c1) _ g1 in
    let (client, _, g3) = >>=-eq-ok (client_of service c2) _ g2 in
    let (prefix, _, g4) = >>=-eq-ok (item client "inboxPrefix") _ g3 in
    let (raw, hraw, g5) = >>=-eq-ok (item contract "subjects") _ g4 in
    let (subjects, heach, g6) = >>=-eq-ok (each raw) _ g5 in
    let (fs, hfs, g7) = >>=-eq-ok (gather (from_subject service) subjects) _ g6 in
    let (b1, _, g8) = >>=-eq-ok (item contract "kvBuckets") _ g7 in
    let (b2, _, g9) = >>=-eq-ok (each b1) _ g8 in
    let (bs, hbs, g10) = >>=-eq-ok (gather (from_bucket service) b2) _ g9 in
    let quiet =
      gather-updates (from_bucket service) b2 (λ x hs. from_bucket-updates service x) hbs in
    (
      raw,
      subjects,
      fs,
      hraw,
      heach,
      hfs,
      ap updates (sym (ok-injective g10)) ∙ updates-append fs bs ∙ or_false _ _ quiet,
    )
  where
    or_false : (a b : Bool) → b ≡ false → (a || b) ≡ a
    or_false a b e = ground arith

-- In a contract whose own subjects are not subjects of stream updates, a service whose publications
-- have an update of a JetStream stream is the stream manager of one of the contract's subjects.
pub permissions-update :
    (contract service : Value) {raw : Value} {subjects publishes subscribes : List Value}
    → item contract "subjects" ≡ ok raw
    → each raw ≡ ok subjects
    → AllOf IsPlain subjects
    → permissions contract service ≡ ok (publishes, subscribes)
    → any is_update publishes ≡ true
    → AnyOf (Manages service) subjects
unfolding permissions
permissions-update contract service {publishes} hraw heach plain h u =
    let (gs, hgs, h1) = >>=-eq-ok (grants_of contract service) _ h in
    let (raw', subjects', fs, hraw', heach', hfs, total) =
      grants_of-updates contract service gs hgs in
    let same_raw = ok-injective (sym hraw' ∙ hraw) in
    let same = ok-injective (sym heach' ∙ ap each same_raw ∙ heach) in
    let publishing : set_of (published gs) ≡ publishes = ap (λ p. p.0) (ok-injective h1) in
    subst (AnyOf (Manages service)) same (
      subjects-updates service subjects' fs (subst (AllOf IsPlain) (sym same) plain) hfs (
        sym total
        ∙ sym (any-published gs)
        ∙ any-set_of is_update (published gs) (ap (any is_update) publishing ∙ u)))
