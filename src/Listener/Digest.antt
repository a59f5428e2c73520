-- ===== src/Listener/Digest.antt =====
-- `canonical` and `matrix_digest`: the JSON text of a document and the digest that reviews the
-- matrix. The hexadecimal SHA-256 of the UTF-8 text is a parameter.
pub mod Stamp
use clavenar_charts.Base.{String, Bool, true, false, List, map}
use clavenar_charts.Base.Result.{Result, ok, raise, attribute_error, type_error}
use clavenar_charts.Value.{Value, array, dict}
use clavenar_charts.Value.Dict.{erase}
use clavenar_charts.Value.Sort.{sort_texts}
use clavenar_charts.Value.Json.{Style, dumps}

-- `sort_keys=True, separators=(",", ":")`
abbrev pub compact : Bool → Style
compact ascii = record {
  item_separator = ",";
  key_separator = ":";
  sort_keys = true;
  ensure_ascii = ascii;
}

-- Nothing in the script calls it.
unfoldable pub canonical : List Value → List String
canonical items = sort_texts (map (dumps (compact true)) items)

abbrev pub reviewed_key : String
reviewed_key = "reviewedContractSha256"

-- The digest of the matrix without the field that states it.
unfoldable pub matrix_digest : (String → String) → Value → Result String
matrix_digest sha256 (dict fs) = ok (sha256 (dumps (compact false) (dict (erase reviewed_key fs))))
matrix_digest sha256 (array _) = raise type_error
matrix_digest sha256 _ = raise attribute_error
