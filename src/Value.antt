-- ===== src/Value.antt =====
-- The dynamic values (Go's `interface{}`) that a YAML document, a plugin's context and a plugin's
-- output hold.
use mrmfactorytest.Prelude.{ℕ, Bool, String, Option, none, some, ◌==◌, if◌then◌else◌}

mutual
  pub data Value : Type 0 where
    null : Value
    text : String → Value
    bool : Bool → Value
    -- a number, a slice or any other type that the code never takes apart
    other : ℕ → Value
    -- a function, a channel, NaN or any other value that json.Marshal refuses
    unencodable : ℕ → Value
    -- map[string]interface{}
    object : Entries → Value

  pub data Entries : Type 0 where
    end : Entries
    entry : String → Value → Entries → Entries

-- v, ok := m[k]
unfoldable pub field : String → Entries → Option Value
field k end = none
field k (entry j v m) = if j == k then some v else field k m

-- m[k] = v
unfoldable pub set_field : String → Value → Entries → Entries
set_field k v end = entry k v end
set_field k v (entry j w m) = if j == k then entry k v m else entry j w (set_field k v m)

-- s, ok := v.(string)
unfoldable pub as_text : Value → Option String
as_text (text s) = some s
as_text v = none

-- m, ok := v.(map[string]interface{})
unfoldable pub as_object : Value → Option Entries
as_object (object m) = some m
as_object v = none

-- b, ok := v.(bool)
unfoldable pub as_bool : Value → Option Bool
as_bool (bool b) = some b
as_bool v = none
