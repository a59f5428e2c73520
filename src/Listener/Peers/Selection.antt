-- ===== src/Listener/Peers/Selection.antt =====
-- Which Pods an accepted peer can select.
use mathlib.Core.Path.{subst}
use mathlib.Core.Option.{some-injective}
use clavenar_charts.Base.{
  String, ◌≡◌, refl, sym, ap, ◌∙◌, Bool, true, false, not, Option, none, some, [], eq_iff, ◌==◌,
  if◌then◌else◌, Bool-cases, Option-cases, inl, inr, and-eq-true,
}
use clavenar_charts.Base.Result.{Result, ok, ◌>>=◌, >>=-eq-ok, ok-injective, all_of}
use clavenar_charts.Value.{Value, null, str, dict, list, Fields, end, field}
use clavenar_charts.Value.Dict.{lookup, or_null}
use clavenar_charts.Value.Equality.{py_eq}
use clavenar_charts.Value.Access.{get_or, each}
use clavenar_charts.Listener.Selectors.{
  name_label, labels_match, expression_matches, items_of_dict, pod_selector_matches,
}
use clavenar_charts.Listener.Peers.{selector_labels, dict_or_empty, labels_of, names_app}
use clavenar_charts.Listener.Profile.Production.{py_eq-str}

labels_match-lookup :
    (wanted labels : Fields) (k : String) (v : Value)
    → labels_match wanted labels ≡ true
    → lookup k wanted ≡ some v
    → py_eq (or_null (lookup k labels)) v ≡ true
unfolding labels_match
labels_match-lookup end labels k v h e = cc
labels_match-lookup (field j w wanted) labels k v h e =
    let (now, later) = and-eq-true _ _ h in
    elim (Bool-cases (j == k)) [
      | inl same ↦
          subst (λ x. py_eq (or_null (lookup k labels)) x ≡ true)
            (some-injective w v (rw same at e))
            (subst (λ x. py_eq (or_null (lookup x labels)) w ≡ true) ((eq_iff j k).0 same) now)
      | inr other ↦ labels_match-lookup wanted labels k v later (rw other at e)
    ]

-- A selector that matches has its labels matched.
matches_labels :
    (wanted labels selector : Fields)
    → lookup "matchLabels" selector ≡ some (dict wanted)
    → pod_selector_matches (dict selector) labels ≡ ok true
    → labels_match wanted labels ≡ true
unfolding pod_selector_matches
matches_labels wanted labels selector e h =
    let (w, hw, h1) = >>=-eq-ok (get_or (dict selector) "matchLabels" (dict end)) _ h in
    let same : w ≡ dict wanted = sym (ok-injective (rw (e, get_or) at hw)) in
    let h2 = subst (λ x. after x ≡ ok true) same h1 in
    elim (Bool-cases (labels_match wanted labels)) [
      | inl matched ↦ matched
      | inr differs ↦ cc (rw differs at h2)
    ]
  where
    after : Value → Result Bool
    after v = items_of_dict v >>= λ wanted_fields.
        (if not (labels_match wanted_fields labels)
          then ok false
          else get_or (dict selector) "matchExpressions" (list []) >>= λ expressions.
              (each expressions >>= λ conditions. all_of (expression_matches labels) conditions))

labelled :
    (app : String) (o : Option Value)
    → py_eq (or_null (lookup name_label (dict_or_empty o))) (str app) ≡ true
    → (labels : Fields) × (o ≡ some (dict labels)) × (or_null (lookup name_label labels) ≡ str app)
unfolding dict_or_empty
labelled app (some (dict labels)) h = (labels, refl, py_eq-str _ app h)
labelled app none h = cc (py_eq-str null app h)
labelled app (some null) h = cc (py_eq-str null app h)
labelled app (some _) h = cc (py_eq-str null app h)

some_label :
    (k s : String) (fs : Fields) → or_null (lookup k fs) ≡ str s → lookup k fs ≡ some (str s)
some_label k s fs h = elim (Option-cases (lookup k fs)) [
  | inl e ↦ cc (rw e at h)
  | inr (v, e) ↦ e ∙ ap some (rw e at h)
]

-- A selector of Pods that names an application matches only Pods with that name.
pub names_app-selects :
    (app : String) (configured selector labels : Fields)
    → names_app app configured ≡ true
    → lookup "podSelector" configured ≡ some (dict selector)
    → pod_selector_matches (dict selector) labels ≡ ok true
    → or_null (lookup name_label labels) ≡ str app
unfolding names_app labels_of
names_app-selects app configured selector labels h e m =
    let (wanted, chosen, named) =
      labelled app (lookup "matchLabels" selector) (rw (e, selector_labels) at h) in
    let matched = matches_labels wanted labels selector chosen m in
    py_eq-str _ app (
      labels_match-lookup wanted labels name_label (str app) matched
        (some_label name_label app wanted named))
