-- ===== src/Store/Models.antt =====
-- _archive/store/models.go, and the documents that the store writes. A document stands for the
-- text that `json.Marshal` makes of it.
use mrmfactorytest.Prelude.{ℕ, String, Bool, true, false, ◌&&◌, Option, [], ◌∷◌, Map, if◌then◌else◌}
use mrmfactorytest.Value.{Value, Entries, text, bool, null, other, unencodable, object, end, entry}
use mrmfactorytest.Store.Decimal.{ℤ}
use mrmfactorytest.Errors.{Result, ok, err, bad_json}

pub data ExecutionStatus : Type 0 where
  pending in_progress completed failed skipped blocked : ExecutionStatus

pub record ExecutionHeader : Type 0 where
  pub sid : String
  pub eid : String
  pub status : ExecutionStatus
  pub initial_state : String
  pub target_state : String
  pub error : String
  pub start_time : ℕ
  pub end_time : Option ℕ

pub record TaskDetail : Type 0 where
  pub task_id : String
  pub status : ExecutionStatus
  pub iteration : ℤ
  pub start_time : Option ℕ
  pub end_time : Option ℕ
  pub result : Value
  pub error : String

pub data Document : Type 0 where
  -- a text that is no JSON document of the two kinds below
  plain : String → Document
  header_json : ExecutionHeader → Document
  details_json : Map TaskDetail → Document
  -- a JSON object of texts, as a key of secrets holds it
  secrets_json : Map String → Document

unfoldable mutual
  -- Whether `json.Marshal` accepts the value.
  pub is_encodable : Value → Bool
  is_encodable null = true
  is_encodable (text s) = true
  is_encodable (bool b) = true
  is_encodable (other n) = true
  is_encodable (unencodable n) = false
  is_encodable (object m) = are_encodable m

  pub are_encodable : Entries → Bool
  are_encodable end = true
  are_encodable (entry k v m) = is_encodable v && are_encodable m

unfoldable pub details_encodable : Map TaskDetail → Bool
details_encodable [] = true
details_encodable ((k, d) ∷ m) = is_encodable d.result && details_encodable m

-- `detailsJSON, _ := json.Marshal(details)`: where that fails, the text is empty.
unfoldable pub encode_details : Map TaskDetail → Document
encode_details m = if details_encodable m then details_json m else plain ""

unfoldable pub decode_details : Document → Result (Map TaskDetail)
decode_details (details_json m) = ok m
decode_details (plain s) = err bad_json
decode_details (header_json h) = err bad_json
decode_details (secrets_json m) = err bad_json

unfoldable pub decode_header : Document → Result ExecutionHeader
decode_header (header_json h) = ok h
decode_header (plain s) = err bad_json
decode_header (details_json m) = err bad_json
decode_header (secrets_json m) = err bad_json

-- string(resp.Kvs[0].Value); a key that holds a state, a counter or a configuration holds a text.
unfoldable pub as_string : Document → String
as_string (plain s) = s
as_string (header_json h) = ""
as_string (details_json m) = ""
as_string (secrets_json m) = ""

-- json.Unmarshal into a `map[string]string`; a key of secrets never holds a header or details.
unfoldable pub decode_secrets : Document → Result (Map String)
decode_secrets (secrets_json m) = ok m
decode_secrets (plain s) = err bad_json
decode_secrets (header_json h) = err bad_json
decode_secrets (details_json m) = err bad_json
