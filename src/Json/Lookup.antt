-- ===== src/Json/Lookup.antt =====
-- A parsed JSON object as a Python dict: of equal keys the last one counts.
use silicon_valet.Prelude.{Option, none, some, Text, text_eq, if◌then◌else◌}
use silicon_valet.Json.{Json, Fields, no_fields, field}

abbrev kept : Option Json → Option Json → Option Json
kept (some w) v = some w
kept none v = v

-- `d.get(k)` with None for a missing key
unfoldable pub find_field : Text → Fields → Option Json
find_field k no_fields = none
find_field k (field j v fs) = kept (find_field k fs) (if text_eq j k then some v else none)
