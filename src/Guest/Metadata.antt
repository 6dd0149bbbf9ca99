-- ===== src/Guest/Metadata.antt =====
-- claims.go: the cloud-init metadata and the /1.0 object.
use incus_spire_attestor.Prelude.{
  ◌≡◌, refl, ◌∙◌, Bool, true, false, not, Option, none, some, List, [], ◌∷◌, arith, Bytes, codes,
  if◌then◌else◌, same, same_iff,
}
use incus_spire_attestor.Errors.{Result, ok, err, text, wrap, json, eof, ◌>>=◌}
use incus_spire_attestor.Golang.Json.{Json, is_field, store_string, store_struct}
use incus_spire_attestor.Golang.Text.{trim_space, split, cut}

-- guestMetadata.
pub record Metadata : Type 0 where
  pub instance_id : Bytes
  pub hostname : Bytes

-- The variables of parseMetadata.
record Scan : Type 0 where
  meta : Metadata
  saw_id : Bool
  saw_host : Bool

-- One line of the loop, behind the cut.
take_entry : Option (Bytes × Bytes) → Scan → Scan
take_entry none st = st
take_entry (some (key, value)) st =
    if same (trim_space key) (codes "instance-id")
    then (if not st.saw_id
        then record st { meta = record st.meta { instance_id = trim_space value }; saw_id = true }
        else st)
    else if same (trim_space key) (codes "local-hostname")
    then (if not st.saw_host
        then record st { meta = record st.meta { hostname = trim_space value }; saw_host = true }
        else st)
    else st

-- The cut of one line.
unfoldable pub entry_of : Bytes → Option (Bytes × Bytes)
entry_of line = cut b':' (trim_space line)

-- The loop.
scan_lines : List Bytes → Scan → Scan
scan_lines [] st = st
scan_lines (line ∷ lines) st = scan_lines lines (take_entry (entry_of line) st)

-- parseMetadata.
unfoldable pub parse_metadata : Bytes → Metadata
unfolding take_entry scan_lines
parse_metadata raw =
    (scan_lines (split b'\n' raw) (record {
      meta = record { instance_id = []; hostname = [] };
      saw_id = false;
      saw_host = false;
    })).meta

-- The value of the first line with this name, or else the given text.
abbrev value_in : Bytes → Bytes → Option (Bytes × Bytes) → Bytes
value_in name rest none = rest
value_in name rest (some (key, value)) =
    if same (trim_space key) name then trim_space value else rest

unfoldable pub first_value : Bytes → Bytes → List Bytes → Bytes
first_value name default [] = default
first_value name default (line ∷ lines) =
    value_in name (first_value name default lines) (entry_of line)

-- What the loop makes of a state, told apart by what is seen.
abbrev scanned : Bytes → Bytes → Scan → Metadata
scanned id host st = record {
  instance_id = if st.saw_id then st.meta.instance_id else id;
  hostname = if st.saw_host then st.meta.hostname else host;
}

take_entry_lem :
    (o : Option (Bytes × Bytes)) (id host : Bytes) (st : Scan)
    → scanned id host (take_entry o st)
      ≡ scanned (value_in (codes "instance-id") id o) (value_in (codes "local-hostname") host o) st
unfolding take_entry
take_entry_lem none id host st = refl
take_entry_lem (some (key, value)) id host st = ground (
  arith,
  same_iff (trim_space key) (codes "instance-id"),
  same_iff (trim_space key) (codes "local-hostname"),
)

-- A state in which what is not seen is empty.
record IsFresh (st : Scan) : Type 0 where
  no_id : st.saw_id ≡ false → st.meta.instance_id ≡ []
  no_host : st.saw_host ≡ false → st.meta.hostname ≡ []

take_entry-IsFresh :
    (o : Option (Bytes × Bytes)) (st : Scan) → IsFresh st → IsFresh (take_entry o st)
unfolding take_entry
take_entry-IsFresh none st f = f
take_entry-IsFresh (some (key, value)) st f = record {
  no_id = λ h. ground (arith, f.no_id, h);
  no_host = λ h. ground (arith, f.no_host, h);
}

scan_lines_lem :
    (lines : List Bytes) (st : Scan)
    → IsFresh st
    → (scan_lines lines st).meta
      ≡ scanned
          (first_value (codes "instance-id") [] lines)
          (first_value (codes "local-hostname") [] lines)
          st
unfolding scan_lines first_value
scan_lines_lem [] st f = ground (arith, f.no_id, f.no_host)
scan_lines_lem (line ∷ lines) st f =
    scan_lines_lem lines _ (take_entry-IsFresh (entry_of line) st f)
    ∙ take_entry_lem (entry_of line) (first_value (codes "instance-id") [] lines)
        (first_value (codes "local-hostname") [] lines) st

-- parseMetadata returns the trimmed values of the first lines whose trimmed names are `instance-id` and
-- `local-hostname`, and the empty text for a name that no line has.
pub parse_metadata_lem :
    (raw : Bytes)
    → parse_metadata raw ≡ record {
      instance_id = first_value (codes "instance-id") [] (split b'\n' raw);
      hostname = first_value (codes "local-hostname") [] (split b'\n' raw);
    }
unfolding parse_metadata
parse_metadata_lem raw =
    scan_lines_lem (split b'\n' raw) _ (record { no_id = λ h. refl; no_host = λ h. refl })

-- guestInfo, without the fields that are not used.
pub record Info : Type 0 where
  pub location : Bytes
  pub instance_type : Bytes
  pub api_version : Bytes
  pub state : Bytes

unfoldable pub store_info : Bytes → Json → Info → Result Info
store_info key v info =
    if is_field (codes "api_version") key
    then (do x ← store_string info.api_version v; ok (record info { api_version = x }))
    else if is_field (codes "location") key
    then (do x ← store_string info.location v; ok (record info { location = x }))
    else if is_field (codes "instance_type") key
    then (do x ← store_string info.instance_type v; ok (record info { instance_type = x }))
    else if is_field (codes "state") key
    then (do x ← store_string info.state v; ok (record info { state = x }))
    else ok info

-- json.Decoder: the next value of a text, and the text behind it; `eof` where only white space is left.
pub record Decoder : Type 0 where
  pub next : Bytes → Result (Json × Bytes)

-- Whether errors.Is finds io.EOF.
abbrev pub is_eof : {A : Type 0} → Result A → Bool
is_eof (err (json eof)) = true
is_eof _ = false

module _ (decoder : Decoder) where
  -- The first Decode, into guestInfo.
  unfoldable pub decode_first : Bytes → Result (Info × Bytes)
  decode_first raw = do
    value ← decoder.next raw
    info ←
        store_struct store_info
          (record { location = []; instance_type = []; api_version = []; state = [] }) (value.0)
    ok (info, value.1)

  unfoldable pub decode_rest : Result (Info × Bytes) → Result Info
  decode_rest (err e) = err (wrap "decode guest info" e)
  decode_rest (ok (info, rest)) =
      if not (is_eof (decoder.next rest))
      then err (text "decode guest info: trailing JSON data")
      else ok info

  -- decodeInfo.
  unfoldable pub decode_info : Bytes → Result Info
  decode_info raw = decode_rest (decode_first raw)
