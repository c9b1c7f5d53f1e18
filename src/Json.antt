-- ===== src/Json.antt =====
-- The part of the jsoncpp library that the code calls, as a parameter of the model; and
-- server/utils.cpp: `error_response`.
use web_library.Base.{List, [], ◌∷◌, Option, Bytes, codes}

-- `object` is a value to which string members were assigned, `write_string` is Json::writeString
-- with the default settings, and `parse` is CharReader::parse, with `none` where it fails.
pub record JsonLib : Type 1 where
  pub Value : Type 0
  pub object : List (Bytes × Bytes) → Value
  pub write_string : Value → Bytes
  pub parse : Bytes → Option Value

unfoldable pub error_response : (json : JsonLib) → Bytes → Bytes → json.Value
error_response json type message =
    json.object ((codes "type", type) ∷ (codes "message", message) ∷ [])
