-- ===== src/Listener/Validate/Positive.antt =====
-- What a configured peer without errors is: exact positive selectors.
use clavenar_charts.Base.{
  ℕ, suc, String, ◌≡◌, refl, ap, ◌⊎◌, inl, inr, true, ◌||◌, List, [], ◌∷◌, ◌==◌, eq_iff, Bool-cases,
  and-eq-true, not-eq-false,
}
use clavenar_charts.Base.Lists.{append-eq-nil}
use clavenar_charts.Value.{Value, dict, Fields, end, field}
use clavenar_charts.Value.Dict.{lookup, or_null, has_key}
use clavenar_charts.Value.Access.{is_str}
use clavenar_charts.Listener.Errors.{All}
use clavenar_charts.Listener.Profile.Production.{complain-nil}
use clavenar_charts.Listener.Peers.{
  each_indexed, keys_are_selectors, labels_are_texts, is_exact_selector, exact_positive_peer,
}

-- A loop over the peers has no error only if none of them has one.
pub each_indexed-All :
    (check : ℕ → Value → List String) (P : Value → Type 0) (index : ℕ) (peers : List Value)
    → ((i : ℕ) (p : Value) → check i p ≡ [] → P p)
    → each_indexed check index peers ≡ []
    → All P peers
unfolding each_indexed
each_indexed-All check P index [] lem h = tt
each_indexed-All check P index (p ∷ peers) lem h =
    let (here, later) = append-eq-nil (check index p) _ h in
    (lem index p here, each_indexed-All check P (suc index) peers lem later)

-- The keys are those of the two selectors.
abbrev pub HasSelectors : Fields → Type 0
HasSelectors end = Unit
HasSelectors (field k v fs) = ((k ≡ "podSelector") ⊎ (k ≡ "namespaceSelector")) × HasSelectors fs

abbrev pub HasTexts : Fields → Type 0
HasTexts end = Unit
HasTexts (field k v fs) = (is_str v ≡ true) × HasTexts fs

-- The selector has labels to match, which are texts, at least one, and nothing else.
abbrev pub IsExactSelector : Value → Type 0
IsExactSelector selector =
    (label : String) × (value : Value) × (labels : Fields) × (selector
      ≡ dict (field "matchLabels" (dict (field label value labels)) end))
    × HasTexts (field label value labels)

-- A peer is a mapping of exact positive selectors, with one for the Pods.
pub record IsPositive (peer : Value) : Type 0 where
  pub configured : Fields
  pub is_dict : peer ≡ dict configured
  pub keys : HasSelectors configured
  pub pods : IsExactSelector (or_null (lookup "podSelector" configured))
  pub namespaces :
      has_key "namespaceSelector" configured ≡ true
      → IsExactSelector (or_null (lookup "namespaceSelector" configured))

keys_lem : (configured : Fields) → keys_are_selectors configured ≡ true → HasSelectors configured
unfolding keys_are_selectors
keys_lem end h = tt
keys_lem (field k v fs) h =
    let (key, keys) = and-eq-true (k == "podSelector" || k == "namespaceSelector") _ h in
    (
      elim (Bool-cases (k == "podSelector")) [
        | inl pods ↦ inl ((eq_iff k "podSelector").0 pods)
        | inr other ↦ inr ((eq_iff k "namespaceSelector").0 (rw other at key))
      ],
      keys_lem fs keys,
    )

texts_lem : (labels : Fields) → labels_are_texts labels ≡ true → HasTexts labels
unfolding labels_are_texts
texts_lem end h = tt
texts_lem (field k v fs) h =
    let (here, later) = and-eq-true (is_str v) _ h in (here, texts_lem fs later)

exact_lem : (selector : Value) → is_exact_selector selector ≡ true → IsExactSelector selector
unfolding is_exact_selector
exact_lem (dict (field k (dict (field l v ls)) end)) h =
    let (key, texts) = and-eq-true (k == "matchLabels") (labels_are_texts (field l v ls)) h in
    (
      l,
      v,
      ls,
      ap (λ key. dict (field key (dict (field l v ls)) end)) ((eq_iff k "matchLabels").0 key),
      texts_lem (field l v ls) texts,
    )
exact_lem _ h = cc

pub positive_lem :
    (path : String) (index : ℕ) (peer : Value)
    → exact_positive_peer path index peer ≡ []
    → IsPositive peer
unfolding exact_positive_peer
positive_lem path index (dict configured) h = elim (Bool-cases (keys_are_selectors configured)) [
  | inr others ↦ cc (rw others at h)
  | inl keys ↦
      let h1 = rw keys at h in
      elim (Bool-cases (is_exact_selector (or_null (lookup "podSelector" configured)))) [
        | inr drifted ↦ cc (rw drifted at h1)
        | inl pods ↦
            let h2 = rw pods at h1 in
            record {
              configured = configured;
              is_dict = refl;
              keys = keys_lem configured keys;
              pods = exact_lem (or_null (lookup "podSelector" configured)) pods;
              namespaces = λ has.
                  exact_lem (or_null (lookup "namespaceSelector" configured))
                    (not-eq-false (complain-nil _ _ (rw has at h2)));
            }
      ]
]
positive_lem path index _ h = cc
