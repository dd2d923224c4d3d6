-- ===== src/Sabnzbd/Grab.antt =====
-- A grab comes back from Sonarr as what its release was made of. An NZB document is written here by
-- its elements, so that what is asked of the XML decoder is what encoding/xml documents.
use iplayer_arr.Prelude.{
  ◌≡◌, refl, ap, ◌∙◌, ℕ, ◌==◌, leb, Bool, true, false, ◌&&◌, not, some, [], ◌∷◌, ◌++◌, Text, codes,
  is_empty, trim_suffix, text_cmp, All,
}
use iplayer_arr.Newznab.Guid.{GrabInfo, encode_guid, handle_get, nzb_of, file_or_error}
use iplayer_arr.Newznab.Guid.RoundTrip.{IsCodec, HasNoColon, cut_colon-append, modern_guid}
use iplayer_arr.Sabnzbd.Requests.{
  Request, Formats, extracted, extract_from_request, parse_nzb_segment, first_of_files,
  first_segment, of_segment, of_files,
}

-- A piece of a document, in front of the rest.
abbrev chars : Text → Text → Text
chars t rest = t ++ rest

abbrev newline : Text
newline = 10 ∷ []

abbrev no_attribute : Text → Text
no_attribute rest = rest

-- name="value"
abbrev attribute : Text → Text → Text → Text
attribute name value rest = codes " " ++ (name ++ (codes "=\"" ++ (value ++ (codes "\"" ++ rest))))

abbrev tag_close : Text → Text → Text
tag_close name rest = codes "</" ++ (name ++ (codes ">" ++ rest))

-- <name attributes>body</name>
abbrev element : Text → (Text → Text) → (Text → Text) → Text → Text
element name attributes body rest =
    codes "<" ++ (name ++ attributes (codes ">" ++ body (tag_close name rest)))

-- A document with one file, which has one group and one segment.
abbrev file_element : Text → Text → Text → Text → Text
file_element subject group segment =
    element (codes "file") (attribute (codes "subject") subject) (λ rest.
      newline
      ++ (codes "    "
          ++ element (codes "groups") no_attribute
              (element (codes "group") no_attribute (chars group))
              (newline
                ++ (codes "    "
                    ++ element (codes "segments") no_attribute
                        (element (codes "segment") (attribute (codes "number") (codes "1"))
                          (chars segment))
                        (newline ++ (codes "  " ++ rest))))))

abbrev pub document : Text → Text → Text → Text → Text
document title subject group segment =
    codes "<?xml version=\"1.0\" encoding=\"UTF-8\"?>"
    ++ (newline
        ++ (codes
              "<!DOCTYPE nzb PUBLIC \"-//newzBin//DTD NZB 1.1//EN\" \"http://www.newzbin.com/DTD/nzb/nzb-1.1.dtd\">"
            ++ (newline
                ++ element (codes "nzb") no_attribute
                    (λ rest.
                      newline
                      ++ (codes "  "
                          ++ element (codes "head") no_attribute
                              (element (codes "meta") (attribute (codes "type") (codes "name"))
                                (chars title))
                              (newline
                                ++ (codes "  "
                                    ++ file_element subject group segment (newline ++ rest)))))
                    [])))

-- A printable ASCII character that XML does not read as markup.
abbrev is_plain : ℕ → Bool
is_plain c =
    leb 32 c && leb c 126 && not (c == b'<') && not (c == b'>') && not (c == b'&') && not (c == 34)

abbrev pub IsPlain : Text → Type 0
IsPlain t = All (λ c. is_plain c ≡ true) t

-- What is relied on of encoding/xml: of a document that is written like this, with texts that need no
-- escaping, Unmarshal gives one file with one segment, whose character data is the segment's text.
pub record IsReader (f : Formats) : Type 0 where
  pub reads :
      (title subject group segment : Text)
      → IsPlain title
      → IsPlain subject
      → IsPlain group
      → IsPlain segment
      → f.nzb_segments (document title subject group segment) ≡ some ((segment ∷ []) ∷ [])

nzb_of-document :
    (info : GrabInfo)
    → nzb_of info
      ≡ document
          (codes "iParr Internal")
          (codes "iParr download")
          (codes "iparr.internal")
          (info.pid ++ b':' ∷ info.quality)
nzb_of-document info = refl

abbrev are_plain : Text → Bool
are_plain [] = true
are_plain (c ∷ s) = is_plain c && are_plain s

both : (a b : Bool) → (a && b) ≡ true → (a ≡ true) × (b ≡ true)
both true b h = (refl, h)
both false b h = absurd (cc h)

all-IsPlain : (s : Text) → are_plain s ≡ true → IsPlain s
all-IsPlain [] h = tt
all-IsPlain (c ∷ s) h = let (e, rest) = both (is_plain c) (are_plain s) h in (e, all-IsPlain s rest)

IsPlain-append : (s t : Text) → IsPlain s → IsPlain t → IsPlain (s ++ t)
IsPlain-append [] t h k = k
IsPlain-append (c ∷ s) t (e, h) k = (e, IsPlain-append s t h k)

only_segment :
    (pid quality : Text)
    → HasNoColon pid
    → first_of_files (((pid ++ b':' ∷ quality) ∷ []) ∷ []) ≡ some (pid, quality)
unfolding first_of_files first_segment
only_segment pid quality h = rw (cut_colon-append pid quality h) refl

-- The NZB file that t=get answers with for the GUID of a release, uploaded by Sonarr under any name,
-- is read as the PID and the quality that the GUID was made of. The PID and the quality are not
-- empty and hold no markup, and the PID has no colon. The hypotheses on the parameters are that
-- base64 and URL queries lose nothing, and that the XML decoder reads the one segment of a document
-- with one file, whatever its texts are.
pub extract-handle_get :
    (f : Formats) (pid quality version filename : Text) (r : Request)
    → IsCodec f.codec
    → IsReader f
    → is_empty pid ≡ false
    → is_empty quality ≡ false
    → HasNoColon pid
    → IsPlain pid
    → IsPlain quality
    → (nzb : Text) × (handle_get f.codec (encode_guid f.codec pid quality version) ≡ some nzb)
      × (extract_from_request f (record r {
        mode = codes "addfile";
        upload = some (record { filename = filename; content = some nzb });
      })
          ≡ extracted pid quality (trim_suffix filename (codes ".nzb")))
unfolding handle_get extract_from_request parse_nzb_segment text_cmp
extract-handle_get f pid quality version filename r laws xml named graded no_colon plain plain_too =
    let info : GrabInfo = record { pid = pid; quality = quality; version = version } in
    let name = trim_suffix filename (codes ".nzb") in
    let segment = pid ++ b':' ∷ quality in
    let read =
      xml.reads (codes "iParr Internal") (codes "iParr download") (codes "iparr.internal") segment
        (all-IsPlain (codes "iParr Internal") refl) (all-IsPlain (codes "iParr download") refl)
        (all-IsPlain (codes "iparr.internal") refl)
        (IsPlain-append pid (b':' ∷ quality) plain (refl, plain_too)) in
    (
      nzb_of info,
      ap file_or_error (modern_guid f.codec pid quality version laws named graded),
      ap (of_files name) (ap f.nzb_segments (nzb_of-document info) ∙ read)
          ∙ ap (of_segment name) (only_segment pid quality no_colon),
    )
