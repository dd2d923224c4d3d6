-- ===== src/Sabnzbd/Requests.antt =====
-- What a request asks for: the operation, its parameters, and the programme that an NZB file or its
-- URL names. xml.Unmarshal and url.Parse are parameters.

use iplayer_arr.Prelude.{
  Option, none, some, List, [], ◌∷◌, Text, codes, text_eq, is_empty, trim_suffix, trim_space,
  if◌then◌else◌,
}
use iplayer_arr.Newznab.Guid.{Codec, GrabInfo, cut_colon, decode_guid}
use iplayer_arr.Access.{Credentials}

-- The uploaded file, with its content, or `none` where it cannot be read.
pub record Upload : Type 0 where
  pub filename : Text
  pub content : Option Text

-- `upload` is what FormFile("name") returns, `none` for an error.
pub record Request : Type 0 where
  pub mode : Text
  pub credentials : Credentials
  pub name : Text
  pub value : Text
  pub value2 : Text
  pub cat : Text
  pub nzbname : Text
  pub priority : Text
  pub upload : Option Upload

-- `nzb_segments` gives the texts of the segments of each file; `url_id` the id of a URL's query,
-- empty if it has none.
pub record Formats : Type 0 where
  pub codec : Codec
  pub nzb_segments : Text → Option (List (List Text))
  pub url_id : Text → Option Text

pub data Refusal : Type 0 where
  read_file read_data parse_nzb no_segment missing_name parse_url no_id bad_guid : Refusal

pub data Extracted : Type 0 where
  -- the PID, the quality and the name of the NZB file
  extracted : Text → Text → Text → Extracted
  refused : Refusal → Extracted

-- The two loops, which return at the first segment that has a colon.
abbrev or_next : Option (Text × Text) → Option (Text × Text) → Option (Text × Text)
or_next none next = next
or_next (some found) next = some found

unfoldable pub first_segment : List Text → Option (Text × Text)
unfolding cut_colon
first_segment [] = none
first_segment (text ∷ segments) = or_next (cut_colon text) (first_segment segments)

unfoldable pub first_of_files : List (List Text) → Option (Text × Text)
unfolding first_segment
first_of_files [] = none
first_of_files (segments ∷ files) = or_next (first_segment segments) (first_of_files files)

abbrev pub of_segment : Text → Option (Text × Text) → Extracted
of_segment filename none = refused no_segment
of_segment filename (some (pid, quality)) = extracted pid quality filename

abbrev pub of_files : Text → Option (List (List Text)) → Extracted
of_files filename none = refused parse_nzb
of_files filename (some files) = of_segment filename (first_of_files files)

unfoldable pub parse_nzb_segment : Formats → Text → Text → Extracted
unfolding first_of_files
parse_nzb_segment f filename bytes = of_files filename (f.nzb_segments bytes)

abbrev of_guid : Option GrabInfo → Extracted
of_guid none = refused bad_guid
of_guid (some info) = extracted info.pid info.quality []

abbrev of_url_id : Formats → Option Text → Extracted
of_url_id f none = refused parse_url
of_url_id f (some guid) =
    if is_empty guid then refused no_id else of_guid (decode_guid f.codec guid)

unfoldable parse_nzb_url : Formats → Text → Extracted
unfolding decode_guid
parse_nzb_url f url = of_url_id f (f.url_id url)

abbrev of_content : Formats → Text → Option Text → Extracted
of_content f filename none = refused read_data
of_content f filename (some bytes) = parse_nzb_segment f (trim_suffix filename (codes ".nzb")) bytes

abbrev of_upload : Formats → Option Upload → Extracted
of_upload f none = refused read_file
of_upload f (some file) = of_content f file.filename file.content

unfoldable pub extract_from_request : Formats → Request → Extracted
unfolding parse_nzb_segment parse_nzb_url trim_suffix
extract_from_request f r =
    if text_eq r.mode (codes "addfile")
    then of_upload f r.upload
    else if is_empty r.name
    then refused missing_name
    else parse_nzb_url f r.name

-- The operation of MoveDownload for a SABnzbd priority, or the empty string.
unfoldable pub sab_priority_to_move : Text → Text
unfolding trim_space
sab_priority_to_move raw =
    let value = trim_space raw in
    if text_eq value (codes "2")
    then codes "top"
    else if text_eq value (codes "1")
    then codes "top"
    else if text_eq value (codes "-1")
    then codes "bottom"
    else []
