-- ===== src/Store/Settings/Seeded.antt =====
-- What opening the database leaves of the configuration.
use iplayer_arr.Prelude.{
  ◌≡◌, refl, sym, ap, ◌∙◌, Bool-cases, inl, inr, Option, none, some, Text, text_eq, text_eq_iff,
  text_eq_refl, text_cmp, codes, [], if◌then◌else◌,
}
use iplayer_arr.Store.Bolt.{Bolt, ok, attempt-eq-ok, >>=-eq-ok, ok-injective}
use iplayer_arr.Store.Settings.{seed_defaults, seed, get_config, set_config, seed_absent, or_empty}

abbrev or_else : Option Text → Option Text → Option Text
or_else none other = other
or_else (some value) other = some value

or_else-none : (o : Option Text) → or_else o none ≡ o
or_else-none none = refl
or_else-none (some value) = refl

module _ {B : Type 0} (bolt : Bolt B Text) where
  get-seed_absent :
      (k v : Text) (o : Option Text) (b b' : B) (j : Text)
      → bolt.get b k ≡ o
      → seed_absent bolt k v o b ≡ ok b'
      → bolt.get b' j ≡ or_else (bolt.get b j) (if text_eq k j then some v else none)
  get-seed_absent k v none b b' j absent h =
      let put = bolt.get-put b k v b' j (attempt-eq-ok (bolt.put b k v) h) in
      elim (Bool-cases (text_eq k j)) [
        | inl e ↦
            let unset : bolt.get b j ≡ none =
              ap (bolt.get b) (sym ((text_eq_iff k j).0 e)) ∙ absent in
            rw (unset, e) (put ∙ rw e refl)
        | inr e ↦ put ∙ rw (e, or_else-none (bolt.get b j)) refl
      ]
  get-seed_absent k v (some set) b b' j stored h =
      let same : bolt.get b' j ≡ bolt.get b j =
        ap (λ (c : B). bolt.get c j) (sym (ok-injective h)) in
      elim (Bool-cases (text_eq k j)) [
        | inl e ↦
            let held : bolt.get b j ≡ some set =
              ap (bolt.get b) (sym ((text_eq_iff k j).0 e)) ∙ stored in
            same ∙ rw held refl
        | inr e ↦ same ∙ rw (e, or_else-none (bolt.get b j)) refl
      ]

  -- Opening the database writes "true" for auto_cleanup where nothing is stored for it, and leaves
  -- every value that is stored, an auto_cleanup that was set to something else included.
  get-seed_defaults :
      (b b' : B) (key : Text)
      → seed_defaults bolt b ≡ ok b'
      → bolt.get b' key
        ≡ or_else
            (bolt.get b key)
            (if text_eq (codes "auto_cleanup") key then some (codes "true") else none)
  unfolding seed_defaults seed
  get-seed_defaults b b' key h =
      let cleanup = codes "auto_cleanup" in
      let (c, e, f) =
        >>=-eq-ok (seed_absent bolt cleanup (codes "true") (bolt.get b cleanup) b)
          (λ c. seed bolt [] c) h in
      ap (λ (x : B). bolt.get x key) (sym (ok-injective f))
      ∙ get-seed_absent cleanup (codes "true") (bolt.get b cleanup) b c key refl e

  -- A setting survives a restart: a value that was stored under a key is what the key reads as once
  -- the database is opened again, auto_cleanup included; and on a database where nothing is stored
  -- for auto_cleanup, opening it makes auto_cleanup read as "true".
  get_config-seed_defaults :
      (key value : Text) (b b1 b2 fresh opened : B)
      → set_config bolt key value b ≡ ok b1
      → seed_defaults bolt b1 ≡ ok b2
      → bolt.get fresh (codes "auto_cleanup") ≡ none
      → seed_defaults bolt fresh ≡ ok opened
      → (get_config bolt key b2 ≡ value)
        × (get_config bolt (codes "auto_cleanup") opened ≡ codes "true")
  unfolding get_config set_config text_cmp
  get_config-seed_defaults key value b b1 b2 fresh opened stored reopened unset first =
      let put : bolt.get b1 key ≡ some value =
        bolt.get-put b key value b1 key (attempt-eq-ok (bolt.put b key value) stored)
        ∙ rw (text_eq_refl key) refl in
      let kept : bolt.get b2 key ≡ some value =
        get-seed_defaults b1 b2 key reopened ∙ rw put refl in
      let seeded : bolt.get opened (codes "auto_cleanup") ≡ some (codes "true") =
        get-seed_defaults fresh opened (codes "auto_cleanup") first ∙ rw unset refl in
      (ap (or_empty bolt) kept, ap (or_empty bolt) seeded)
