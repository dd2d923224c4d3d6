-- ===== src/Newznab/Guid.antt =====
-- internal/newznab/nzb.go: the GUID of a release, and the NZB file that stands for one. Packages
-- encoding/base64 and net/url are a record of the functions that the code calls. A url.Values is the
-- list of its settings in the order of Encode, which sorts the keys.
pub mod RoundTrip
use iplayer_arr.Prelude.{
  ℕ, ◌==◌, Bool, true, false, ◌&&◌, not, Option, none, some, List, [], ◌∷◌, ◌++◌, Text, codes,
  text_eq, is_empty, if◌then◌else◌,
}

pub record Codec : Type 0 where
  pub base64_encode : Text → Text
  pub base64_decode : Text → Option Text
  pub query_encode : List (Text × Text) → Text
  pub query_parse : Text → Option (List (Text × Text))

pub record GrabInfo : Type 0 where
  pub pid : Text
  pub quality : Text
  pub version : Text

abbrev pub values : Text → Text → Text → List (Text × Text)
values pid quality version = (codes "p", pid) ∷ (codes "q", quality) ∷ (codes "v", version) ∷ []

unfoldable pub encode_guid : Codec → Text → Text → Text → Text
encode_guid c pid quality version = c.base64_encode (c.query_encode (values pid quality version))

-- Values.Get: the first value of a key, or the empty string
unfoldable pub get_value : Text → List (Text × Text) → Text
get_value key [] = []
get_value key ((k, v) ∷ rest) = let other = get_value key rest in if text_eq k key then v else other

-- strings.SplitN(s, ":", 2), `none` if there is no colon
abbrev extend : ℕ → Option (Text × Text) → Option (Text × Text)
extend c none = none
extend c (some (before, behind)) = some (c ∷ before, behind)

unfoldable pub cut_colon : Text → Option (Text × Text)
cut_colon [] = none
cut_colon (c ∷ s) = let rest = extend c (cut_colon s) in if c == b':' then some ([], s) else rest

abbrev pub three_parts : Text → Option (Text × Text) → Option GrabInfo
three_parts pid none = none
three_parts pid (some (quality, version)) =
    some (record { pid = pid; quality = quality; version = version })

abbrev pub colon_parts : Option (Text × Text) → Option GrabInfo
colon_parts none = none
colon_parts (some (pid, rest)) = three_parts pid (cut_colon rest)

-- The colon-separated payload of old GUIDs: strings.SplitN(raw, ":", 3) has three parts.
unfoldable pub decode_legacy : Text → Option GrabInfo
unfolding cut_colon
decode_legacy raw = colon_parts (cut_colon raw)

abbrev pub of_values : Text → Option (List (Text × Text)) → Option GrabInfo
of_values raw none = decode_legacy raw
of_values raw (some vs) =
    let pid = get_value (codes "p") vs in
    let quality = get_value (codes "q") vs in
    if not (is_empty pid) && not (is_empty quality)
    then some (record { pid = pid; quality = quality; version = get_value (codes "v") vs })
    else decode_legacy raw

abbrev pub of_raw : Codec → Option Text → Option GrabInfo
of_raw c none = none
of_raw c (some raw) = of_values raw (c.query_parse raw)

-- `none` is an error.
unfoldable pub decode_guid : Codec → Text → Option GrabInfo
unfolding get_value decode_legacy
decode_guid c guid = of_raw c (c.base64_decode guid)

abbrev nzb_head : Text
nzb_head =
    codes "<?xml version=\"1.0\" encoding=\"UTF-8\"?>"
    ++ 10
      ∷ codes
          "<!DOCTYPE nzb PUBLIC \"-//newzBin//DTD NZB 1.1//EN\" \"http://www.newzbin.com/DTD/nzb/nzb-1.1.dtd\">"
    ++ 10 ∷ codes "<nzb>"
    ++ 10 ∷ codes "  <head><meta type=\"name\">iParr Internal</meta></head>"
    ++ 10 ∷ codes "  <file subject=\"iParr download\">"
    ++ 10 ∷ codes "    <groups><group>iparr.internal</group></groups>"
    ++ 10 ∷ codes "    <segments><segment number=\"1\">"

abbrev nzb_tail : Text
nzb_tail = codes "</segment></segments>" ++ 10 ∷ codes "  </file>" ++ 10 ∷ codes "</nzb>"

abbrev pub nzb_of : GrabInfo → Text
nzb_of info = nzb_head ++ (info.pid ++ b':' ∷ info.quality) ++ nzb_tail

abbrev pub file_or_error : Option GrabInfo → Option Text
file_or_error none = none
file_or_error (some info) = some (nzb_of info)

-- t=get: the NZB file, or `none` for the answer "Item not found"
unfoldable pub handle_get : Codec → Text → Option Text
unfolding decode_guid
handle_get c id = file_or_error (decode_guid c id)
