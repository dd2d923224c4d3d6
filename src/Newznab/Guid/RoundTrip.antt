-- ===== src/Newznab/Guid/RoundTrip.antt =====
-- A GUID decodes to what it was made of.
use iplayer_arr.Prelude.{
  ◌≡◌, refl, ap, ◌∙◌, true, false, ◌==◌, some, List, [], ◌∷◌, ◌++◌, Text, codes, is_empty, text_cmp,
  All,
}
use iplayer_arr.Newznab.Guid.{
  Codec, values, encode_guid, decode_guid, get_value, cut_colon, decode_legacy, three_parts,
  colon_parts, of_values, of_raw,
}

-- Base64 and URL encoding lose nothing.
pub record IsCodec (c : Codec) : Type 0 where
  pub base64_back : (s : Text) → c.base64_decode (c.base64_encode s) ≡ some s
  pub query_back :
      (pid quality version : Text)
      → c.query_parse (c.query_encode (values pid quality version))
        ≡ some (values pid quality version)

abbrev pub HasNoColon : Text → Type 0
HasNoColon s = All (λ c. (c == b':') ≡ false) s

pub cut_colon-append :
    (before behind : Text)
    → HasNoColon before
    → cut_colon (before ++ b':' ∷ behind) ≡ some (before, behind)
unfolding cut_colon
cut_colon-append [] behind h = refl
cut_colon-append (c ∷ before) behind (e, h) = rw (cut_colon-append before behind h, e) refl

decode_legacy-parts :
    (p q v : Text)
    → HasNoColon p
    → HasNoColon q
    → decode_legacy (p ++ b':' ∷ (q ++ b':' ∷ v))
      ≡ some (record { pid = p; quality = q; version = v })
unfolding decode_legacy
decode_legacy-parts p q v no_p no_q =
    ap colon_parts (cut_colon-append p (q ++ b':' ∷ v) no_p)
    ∙ ap (three_parts p) (cut_colon-append q v no_q)

modern :
    (raw pid quality version : Text)
    → is_empty pid ≡ false
    → is_empty quality ≡ false
    → of_values raw (some (values pid quality version))
      ≡ some (record { pid = pid; quality = quality; version = version })
unfolding get_value text_cmp
modern raw pid quality version named graded = rw (named, graded) refl

no_pid :
    (raw : Text) (vs : List (Text × Text))
    → is_empty (get_value (codes "p") vs) ≡ true
    → of_values raw (some vs) ≡ decode_legacy raw
no_pid raw vs e = rw e refl

pub modern_guid :
    (c : Codec) (pid quality version : Text)
    → IsCodec c
    → is_empty pid ≡ false
    → is_empty quality ≡ false
    → decode_guid c (encode_guid c pid quality version)
      ≡ some (record { pid = pid; quality = quality; version = version })
unfolding decode_guid encode_guid
modern_guid c pid quality version laws named graded =
    let raw = c.query_encode (values pid quality version) in
    ap (of_raw c) (laws.base64_back raw)
    ∙ ap (of_values raw) (laws.query_back pid quality version)
    ∙ modern raw pid quality version named graded

-- A GUID that was made of a PID and a quality, neither of them empty, and any version, whatever
-- colons they hold, decodes to these three; and an old GUID, whose payload reads as a query without
-- a PID, decodes to the three parts that its first two colons separate. The hypothesis on the codec
-- is that base64 and the encoding of queries lose nothing.
pub decode_guid-encode_guid :
    (c : Codec) (pid quality version guid p q v : Text) (old : List (Text × Text))
    → IsCodec c
    → is_empty pid ≡ false
    → is_empty quality ≡ false
    → c.base64_decode guid ≡ some (p ++ b':' ∷ (q ++ b':' ∷ v))
    → c.query_parse (p ++ b':' ∷ (q ++ b':' ∷ v)) ≡ some old
    → is_empty (get_value (codes "p") old) ≡ true
    → HasNoColon p
    → HasNoColon q
    → (decode_guid c (encode_guid c pid quality version)
        ≡ some (record { pid = pid; quality = quality; version = version }))
      × (decode_guid c guid ≡ some (record { pid = p; quality = q; version = v }))
unfolding decode_guid encode_guid
decode_guid-encode_guid c pid quality version guid p q v old laws named graded legacy parsed no_p
      no_colon_p no_colon_q =
    let old_raw = p ++ b':' ∷ (q ++ b':' ∷ v) in
    (
      modern_guid c pid quality version laws named graded,
      ap (of_raw c) legacy
          ∙ ap (of_values old_raw) parsed
          ∙ no_pid old_raw old no_p
          ∙ decode_legacy-parts p q v no_colon_p no_colon_q,
    )
