-- ===== src/Listener/Condition/Terms.antt =====
-- Conditions of several terms, as the matrix writes them: `a and b and c`.
use Prim.Native.Char.{code}
use Prim.Native.String.append
use clavenar_charts.Base.{String, ◌<>◌, ◌≡◌, refl, ap, ◌∙◌, false, List, [], ◌∷◌, nat_eq}
use clavenar_charts.Base.Lists.{all}
use clavenar_charts.Base.Text.{split, join}
use clavenar_charts.Value.{Value}
use clavenar_charts.Listener.Condition.{term_enabled, text_enabled}

-- No character of the text is a space.
abbrev pub IsSpaceless : String → Type 0
IsSpaceless String.[] = Unit
IsSpaceless (String.◌∷◌ c s) = (nat_eq (code c) 32 ≡ false) × IsSpaceless s

abbrev pub AreSpaceless : List String → Type 0
AreSpaceless [] = Unit
AreSpaceless (w ∷ ws) = IsSpaceless w × AreSpaceless ws

split_word : (w : String) → IsSpaceless w → split w " and " ≡ w ∷ []
split_word String.[] h = refl
split_word (String.◌∷◌ c s) (hc, h) = rw hc (rw (split_word s h))

split_word_and :
    (w rest : String)
    → IsSpaceless w
    → split (w <> " and " <> rest) " and " ≡ w ∷ split rest " and "
split_word_and String.[] rest h =
    rw (append.nil, append.cons, append.cons, append.cons, append.cons, append.cons, append.nil)
split_word_and (String.◌∷◌ c s) rest (hc, h) =
    rw (append.cons) (rw hc (rw (split_word_and s rest h)))

-- `split` takes a joined condition apart again.
split-join :
    (w : String) (ws : List String)
    → AreSpaceless (w ∷ ws)
    → split (join " and " (w ∷ ws)) " and " ≡ w ∷ ws
split-join w [] (h, _) = split_word w h
split-join w (v ∷ ws) (h, hs) =
    split_word_and w (join " and " (v ∷ ws)) h ∙ ap (λ rest. w ∷ rest) (split-join v ws hs)

-- A condition of one or more terms without spaces, joined by ` and `, holds exactly when each of its
-- terms holds.
pub text_enabled-join :
    (values : Value) (w : String) (ws : List String)
    → AreSpaceless (w ∷ ws)
    → text_enabled (join " and " (w ∷ ws)) values ≡ all (term_enabled values) (w ∷ ws)
unfolding text_enabled
text_enabled-join values w ws h = ap (all (term_enabled values)) (split-join w ws h)
