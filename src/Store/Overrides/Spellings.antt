-- ===== src/Store/Overrides/Spellings.antt =====
-- The spellings of a show's name that lead to one override, and what a write leaves of the others.
use iplayer_arr.Prelude.{
  ◌≡◌, ◌≢◌, refl, sym, ap, ◌∙◌, false, Option, none, some, Text, text_eq, text_eq_refl,
  text_eq-false, trim_space, to_lower-to_lower, trim_space-to_lower, trim_space-trim_space,
}
use iplayer_arr.Store.Bolt.{Bolt, ok, attempt-eq-ok}
use iplayer_arr.Store.Catalogue.{ShowOverride}
use iplayer_arr.Store.Tables.{get_row, opened, put_row, delete_row}
use iplayer_arr.Store.Overrides.{normalise_show_name, put_override, get_override, delete_override}

normalise_idem :
    (name : Text) → normalise_show_name (normalise_show_name name) ≡ normalise_show_name name
unfolding normalise_show_name
normalise_idem name = rw (
  trim_space-to_lower (trim_space name),
  trim_space-trim_space name,
  to_lower-to_lower (trim_space name),
)

module _ {B : Type 0} (bolt : Bolt B (Option ShowOverride)) where
  -- An override that was stored is read back under every spelling of the show's name with the same
  -- normal form (the name in lower case without white space around it), and a show whose name has
  -- another normal form reads as before. A deletion under such a spelling removes it, again leaving
  -- the other shows.
  pub override_round_trip :
      (o : ShowOverride) (b b' b'' : B) (spelling other : Text)
      → put_override bolt o b ≡ ok b'
      → normalise_show_name spelling ≡ normalise_show_name o.show_name
      → normalise_show_name other ≢ normalise_show_name o.show_name
      → delete_override bolt spelling b' ≡ ok b''
      → (get_override bolt spelling b' ≡ ok (some o))
        × (get_override bolt other b' ≡ get_override bolt other b)
        × (get_override bolt spelling b'' ≡ ok none)
        × (get_override bolt other b'' ≡ get_override bolt other b)
  unfolding put_override get_override delete_override get_row put_row delete_row
  override_round_trip o b b' b'' spelling other stored same differs deleted =
      let key = normalise_show_name o.show_name in
      let mine = normalise_show_name spelling in
      let theirs = normalise_show_name other in
      let apart : text_eq key theirs ≡ false = text_eq-false key theirs (λ e. differs (sym e)) in
      let apart_too : text_eq mine theirs ≡ false = rw same apart in
      let put = λ (j : Text).
        bolt.get-put b key (some o) b' j (attempt-eq-ok (bolt.put b key (some o)) stored) in
      let del =
        λ (j : Text). bolt.get-delete b' mine b'' j (attempt-eq-ok (bolt.delete b' mine) deleted) in
      let found : bolt.get b' mine ≡ some (some o) =
        ap (bolt.get b') same ∙ put key ∙ rw (text_eq_refl key) refl in
      let kept : bolt.get b' theirs ≡ bolt.get b theirs = put theirs ∙ rw apart refl in
      let gone : bolt.get b'' mine ≡ none = del mine ∙ rw (text_eq_refl mine) refl in
      let kept_too : bolt.get b'' theirs ≡ bolt.get b' theirs = del theirs ∙ rw apart_too refl in
      (ap opened found, ap opened kept, ap opened gone, ap opened (kept_too ∙ kept))
