-- ===== src/Listener/Condition.antt =====
-- `condition_enabled` and `contract_enabled`: the conditions of the matrix over the values.
pub mod Terms
use clavenar_charts.Base.{String, Bool, true, false, not, ◌&&◌, ◌||◌, List, ◌==◌, if◌then◌else◌}
use clavenar_charts.Base.Lists.{all}
use clavenar_charts.Base.Text.{has_infix, split, strip, partition}
use clavenar_charts.Base.Result.{Result, ok, ◌>>=◌}
use clavenar_charts.Value.{Value}
use clavenar_charts.Value.Access.{truthy, get, as_text}
use clavenar_charts.Value.Print.{text_of}
use clavenar_charts.Listener.Values.{value_at}

-- A term with `=` compares the printed value, another is the truth of its value.
unfoldable pub term_enabled : Value → String → Bool
term_enabled values raw =
    let term = strip raw in
    let (path, expected) = partition term "=" in
    if not (has_infix term "=")
    then truthy (value_at values term)
    else text_of (value_at values (strip path)) == strip expected

-- `condition_enabled` on a text.
unfoldable pub text_enabled : String → Value → Bool
unfolding term_enabled
text_enabled expression values = all (term_enabled values) (split expression " and ")

unfoldable pub condition_enabled : Value → Value → Result Bool
condition_enabled expression values = do text ← as_text expression; ok (text_enabled text values)

-- A missing or empty condition does not restrict; `disabledWhen` is read only if the item is enabled.
unfoldable pub contract_enabled : Value → Value → Result Bool
contract_enabled item values = do
  enabled ← get item "enabledWhen"
  disabled ← get item "disabledWhen"
  on ← (if truthy enabled then condition_enabled enabled values else ok true)
  off ← (if on && truthy disabled then condition_enabled disabled values else ok false)
  ok (on && not off)
