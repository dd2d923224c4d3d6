-- ===== src/Examples/Shim.antt =====
-- Examples of keys, routes, GUIDs and requests of the download client.
use iplayer_arr.Prelude.{
  ◌≡◌, ◌↔◌, arith, refl, ap, ◌∙◌, ◌&&◌, inl, inr, ℕ, zero, suc, ◌==◌, false, true, ◌||◌, not,
  Option, none, some, List, [], ◌∷◌, ◌++◌, Text, codes, In, take, drop, length, get_elem?, is_empty,
  text_eq, text_cmp, has_prefix, trim_suffix, if◌then◌else◌,
}
use iplayer_arr.Access.{
  Credentials, api_authenticate, newznab_authenticate, sabnzbd_authenticate, secrets_equal,
}
use iplayer_arr.Access.Agreement.{holds, authenticate_agreement}
use iplayer_arr.Api.Routes.{
  RouteSpec, routes, ApiRequest, pause, reached, api_serve, is_mutating_method,
  has_header_credential, same_origin_request, behind_scheme, before_slash, normalise_trailing_slash,
  csrf_check_passes,
}
use iplayer_arr.Api.Routes.Gate.{is_open, api_serve-reached}
use iplayer_arr.Store.Types.{Download, blank}
use iplayer_arr.Store.Bolt.{Cell, row, Db, ok}
use iplayer_arr.Store.Downloads.{delete_download}
use iplayer_arr.Store.History.{put_history}
use iplayer_arr.Newznab.Guid.{
  Codec, GrabInfo, values, encode_guid, decode_guid, get_value, handle_get,
}
use iplayer_arr.Newznab.Guid.RoundTrip.{IsCodec, HasNoColon, decode_guid-encode_guid}
use iplayer_arr.Sabnzbd.Requests.{Request, Formats, extracted, extract_from_request}
use iplayer_arr.Sabnzbd.Serve.{Server, Stored, wrong_key, serve_http, cancelled_row}
use iplayer_arr.Sabnzbd.Refusals.{has_key, serve_http-wrong_key_iff}
use iplayer_arr.Sabnzbd.Grab.{IsReader, IsPlain, document, extract-handle_get}
use iplayer_arr.Examples.Bucket.{Bucket, bucket, empty}
use iplayer_arr.Examples.Grabs.{host}

abbrev key : Text
key = codes "k1"

abbrev with_header : Credentials
with_header = record { apikey = []; authorization = codes "Bearer k1"; x_api_key = [] }

authenticate_agreement_example :
    (api_authenticate (some key) with_header ≡ (not (is_empty key) && holds key with_header))
    × (newznab_authenticate true (some key) with_header ≡ api_authenticate (some key) with_header)
    × (newznab_authenticate false (some key) with_header ≡ false)
    × (sabnzbd_authenticate true (some key) with_header
        ≡ (not (is_empty key) && text_eq with_header.apikey key))
    × (sabnzbd_authenticate false (some key) with_header ≡ false)
authenticate_agreement_example = authenticate_agreement (some key) with_header

-- A mux that picks the route of the pause button.
abbrev pick : List RouteSpec → ApiRequest → Option RouteSpec
pick rs q = get_elem? rs 12

get_elem?-In : (x : RouteSpec) (rs : List RouteSpec) (i : ℕ) → get_elem? rs i ≡ some x → In x rs
get_elem?-In x [] i e = cc
get_elem?-In x (y ∷ rs) zero e = inl cc
get_elem?-In x (y ∷ rs) (suc i) e = inr (get_elem?-In x rs i e)

abbrev pressed : ApiRequest
pressed = record {
  method = codes "POST";
  path = codes "/api/pause/";
  host = codes "h";
  origin = codes "http://h";
  credentials = with_header;
}

served : api_serve pick (some key) pressed ≡ reached pause
unfolding api_serve normalise_trailing_slash csrf_check_passes is_mutating_method
    same_origin_request behind_scheme before_slash has_prefix text_cmp api_authenticate
    secrets_equal trim_suffix
served = refl

api_serve-reached_example :
    ((api_authenticate (some key) with_header || is_open pause) ≡ true)
    × ((not (is_mutating_method (codes "POST"))
          || (if is_empty pressed.origin
              then has_header_credential with_header
              else same_origin_request pressed))
        ≡ true)
api_serve-reached_example =
    api_serve-reached pick (some key) pressed pause (λ q x e. get_elem?-In x routes 12 e) served

-- A codec that writes the lengths of the three values in front of them.
abbrev measured : List (Text × Text) → Text
measured [] = []
measured ((k, v) ∷ vs) = length v ∷ (v ++ measured vs)

abbrev next : Text → Text × Text
next [] = ([], [])
next (n ∷ s) = (take n s, drop n s)

abbrev three : Text → List (Text × Text)
three s = let (p, r) = next s in let (q, t) = next r in values p q (next t).0

abbrev read_back : Text → Option (List (Text × Text))
read_back [] = some []
read_back (c ∷ s) = if c == 1 then some (three s) else some []

abbrev codec : Codec
codec = record {
  base64_encode = λ s. s;
  base64_decode = λ s. some s;
  query_encode = λ vs. 1 ∷ measured vs;
  query_parse = read_back;
}

take-append : (s t : Text) → take (length s) (s ++ t) ≡ s
take-append [] t = refl
take-append (c ∷ s) t = ap (λ r. c ∷ r) (take-append s t)

drop-append : (s t : Text) → drop (length s) (s ++ t) ≡ t
drop-append [] t = refl
drop-append (c ∷ s) t = drop-append s t

next-append :
    (s t : Text) (f : Text → Text → List (Text × Text))
    → f (take (length s) (s ++ t)) (drop (length s) (s ++ t)) ≡ f s t
next-append s t f = rw (take-append s t, drop-append s t) refl

query_back_lem :
    (p q v : Text) → codec.query_parse (codec.query_encode (values p q v)) ≡ some (values p q v)
query_back_lem p q v =
    let behind = measured ((codes "v", v) ∷ []) in
    let whole = measured ((codes "q", q) ∷ (codes "v", v) ∷ []) in
    ap some (
      next-append p whole (λ a r. values a (next r).0 (next (next r).1).0)
      ∙ next-append q behind (λ a r. values p a (next r).0)
      ∙ next-append v [] (λ a r. values p q a))

codec-IsCodec : IsCodec codec
codec-IsCodec = record { base64_back = λ s. refl; query_back = query_back_lem }

abbrev pid : Text
pid = codes "b01"

abbrev quality : Text
quality = codes "720p"

abbrev version : Text
version = codes "original"

abbrev info : GrabInfo
info = record { pid = pid; quality = quality; version = version }

abbrev guid : Text
guid = encode_guid codec pid quality version

pid-HasNoColon : HasNoColon pid
pid-HasNoColon = (refl, (refl, (refl, tt)))

quality-HasNoColon : HasNoColon quality
quality-HasNoColon = (refl, (refl, (refl, (refl, tt))))

decode_guid-encode_guid_example :
    (decode_guid codec (encode_guid codec pid quality version) ≡ some info)
    × (decode_guid codec (codes "b01:720p:original") ≡ some info)
unfolding get_value
decode_guid-encode_guid_example =
    decode_guid-encode_guid codec pid quality version (codes "b01:720p:original") pid quality
      version [] codec-IsCodec refl refl refl refl refl pid-HasNoColon quality-HasNoColon

-- A reader of documents with one segment: the text between its tag and the next tag.
abbrev segment_tag : Text
segment_tag = codes "<segment number=\"1\">"

unfoldable behind_tag : Text → Text
unfolding has_prefix
behind_tag [] = []
behind_tag (c ∷ s) =
    let rest = behind_tag s in
    if has_prefix (c ∷ s) segment_tag then drop (length segment_tag) (c ∷ s) else rest

unfoldable before_tag : Text → Text
before_tag [] = []
before_tag (c ∷ s) = let rest = c ∷ before_tag s in if c == b'<' then [] else rest

abbrev scan_segments : Text → Option (List (List Text))
scan_segments s = some ((before_tag (behind_tag s) ∷ []) ∷ [])

behind_tag-plain : (t rest : Text) → IsPlain t → behind_tag (t ++ rest) ≡ behind_tag rest
unfolding behind_tag has_prefix
behind_tag-plain [] rest h = refl
behind_tag-plain (c ∷ t) rest (e, h) =
    let other : (c == b'<') ≡ false = ground arith in rw other (behind_tag-plain t rest h)

before_tag-plain : (t rest : Text) → IsPlain t → before_tag (t ++ b'<' ∷ rest) ≡ t
unfolding before_tag
before_tag-plain [] rest h = refl
before_tag-plain (c ∷ t) rest (e, h) =
    let other : (c == b'<') ≡ false = ground arith in
    rw other (ap (λ s. c ∷ s) (before_tag-plain t rest h))

read_document :
    (title subject group segment : Text)
    → IsPlain title
    → IsPlain subject
    → IsPlain group
    → IsPlain segment
    → scan_segments (document title subject group segment) ≡ some ((segment ∷ []) ∷ [])
unfolding behind_tag has_prefix
read_document title subject group segment h1 h2 h3 h4 =
    ap (λ (s : Text). some ((before_tag s ∷ []) ∷ []))
      (behind_tag-plain title _ h1 ∙ behind_tag-plain subject _ h2 ∙ behind_tag-plain group _ h3)
    ∙ ap (λ (s : Text). some ((s ∷ []) ∷ [])) (before_tag-plain segment _ h4)

abbrev formats : Formats
formats = record { codec = codec; nzb_segments = scan_segments; url_id = λ u. some u }

abbrev request : Request
request = record {
  mode = codes "queue";
  credentials = record with_header { apikey = codes "wrong" };
  name = codes "delete";
  value = codes "n1";
  value2 = [];
  cat = [];
  nzbname = [];
  priority = [];
  upload = none;
}

formats-IsReader : IsReader formats
formats-IsReader = record { reads = read_document }

extract-handle_get_example :
    (nzb : Text) × (handle_get codec guid ≡ some nzb)
    × (extract_from_request formats (record request {
      mode = codes "addfile";
      upload = some (record { filename = codes "Show.nzb"; content = some nzb });
    })
        ≡ extracted pid quality (trim_suffix (codes "Show.nzb") (codes ".nzb")))
extract-handle_get_example =
    extract-handle_get formats pid quality version (codes "Show.nzb") request codec-IsCodec
      formats-IsReader refl refl pid-HasNoColon (refl, (refl, (refl, tt)))
      (refl, (refl, (refl, (refl, tt))))

abbrev row1 : Download
row1 = record blank { id = codes "n1"; pid = pid }

abbrev db : Db (Bucket Cell)
db = record {
  downloads = record { pairs = (codes "n1", row row1) ∷ []; sorted = ((λ a i. absurd i), tt) };
  history = empty Cell;
}

abbrev server : Server (Bucket Cell)
server = record {
  host = host;
  formats = formats;
  has_starter = true;
  is_paused = false;
  download_dir = codes "/data";
  new_id = codes "n2";
  now = 9;
  worker = λ db. db;
  partial = blank;
}

abbrev stored : Stored (Bucket Cell) (Bucket Text)
stored = record {
  is_open = true;
  db = db;
  config = record { pairs = (codes "api_key", key) ∷ []; sorted = ((λ a i. absurd i), tt) };
}

serve_http-wrong_key_iff_example :
    (serve_http (bucket Cell) (bucket Text) server request (some stored) ≡ (some stored, wrong_key))
    ↔ ((text_eq request.mode (codes "version")
          || has_key (bucket Cell) (bucket Text) server (some stored) request.credentials)
        ≡ false)
serve_http-wrong_key_iff_example =
    serve_http-wrong_key_iff (bucket Cell) (bucket Text) server request (some stored)

-- The request above sends another key.
refused_key :
    (text_eq request.mode (codes "version")
      || has_key (bucket Cell) (bucket Text) server (some stored) request.credentials)
    ≡ false
unfolding text_cmp
refused_key = refl

abbrev gone : (b : Db (Bucket Cell)) × (delete_download (bucket Cell) (codes "n1") db ≡ ok b)
unfolding delete_download text_cmp
gone = (_, refl)

abbrev kept :
    (b : Db (Bucket Cell)) × (put_history
        (bucket Cell)
        (cancelled_row (bucket Cell) (bucket Text) server row1)
        gone.0
      ≡ ok b)
unfolding put_history
kept = (_, refl)
