-- ===== src/Download/Enqueue/Found.antt =====
-- A row that was just put in a bucket is found again, whatever else the bucket holds.
use iplayer_arr.Prelude.{
  ◌≡◌, ◌≢◌, ◌⊎◌, inl, inr, sym, ap, ◌∙◌, Bool, true, none, some, Bool-cases, Text, text_eq,
  text_eq_refl, In,
}
use iplayer_arr.Store.Types.{Download}
use iplayer_arr.Store.Bolt.{Bolt, Cell, row, malformed}
use iplayer_arr.Store.Downloads.{decode, last_such}
use iplayer_arr.Store.Downloads.Rows.{
  In-decode, decode-In, row-injective, decode_ends, decode_completes, last_such_from,
  last_such-some,
}

none-ne-some : (d : Download) → none ≢ some d
none-ne-some d h = cc

row-ne-malformed : (d : Download) → row d ≢ malformed
row-ne-malformed d h = cc

module _ {B : Type 0} (bolt : Bolt B Cell) where
  -- No value of the bucket is undecodable.
  abbrev pub IsReadable : B → Type 0
  IsReadable b = (decode (bolt.entries b)).1 ≡ none

  -- What a bucket holds after a put: the new row, or what it held.
  get-after_put :
      (b : B) (dl : Download) (b' : B) (k : Text) (c : Cell)
      → bolt.put b dl.id (row dl) ≡ some b'
      → bolt.get b' k ≡ some c
      → (row dl ≡ c) ⊎ (bolt.get b k ≡ some c)
  get-after_put b dl b' k c p held =
      let law = bolt.get-put b dl.id (row dl) b' k p in
      elim (Bool-cases (text_eq dl.id k)) [
        | inl y ↦ let here : bolt.get b' k ≡ some (row dl) = rw y at law in inl (cc (here, held))
        | inr n ↦ let there : bolt.get b' k ≡ bolt.get b k = rw n at law in inr (sym there ∙ held)
      ]

  -- A new row leaves a readable bucket readable.
  put-IsReadable :
      (b : B) (dl : Download) (b' : B)
      → IsReadable b
      → bolt.put b dl.id (row dl) ≡ some b'
      → IsReadable b'
  put-IsReadable b dl b' h p = decode_completes (bolt.entries b') (λ k i.
      let held : bolt.get b' k ≡ some malformed = (bolt.entries-get b' k malformed).0 i in
      elim (get-after_put b dl b' k malformed p held) [
        | inl e ↦ row-ne-malformed dl e
        | inr old ↦ decode_ends (bolt.entries b) k ((bolt.entries-get b k malformed).1 old) h
      ])

  -- The rows of the bucket after a put: the new one, and old ones.
  In-put :
      (b : B) (dl : Download) (b' : B) (e : Download)
      → bolt.put b dl.id (row dl) ≡ some b'
      → In e (decode (bolt.entries b')).0
      → IsReadable b
      → (dl ≡ e) ⊎ In e (decode (bolt.entries b)).0
  In-put b dl b' e p i h =
      let (k, j) = In-decode (bolt.entries b') e i in
      let held : bolt.get b' k ≡ some (row e) = (bolt.entries-get b' k (row e)).0 j in
      elim (get-after_put b dl b' k (row e) p held) [
        | inl y ↦ inl (row-injective y)
        | inr old ↦ inr (decode-In (bolt.entries b) k e h ((bolt.entries-get b k (row e)).1 old))
      ]

  dl-In-put :
      (b : B) (dl : Download) (b' : B)
      → bolt.put b dl.id (row dl) ≡ some b'
      → IsReadable b'
      → In dl (decode (bolt.entries b')).0
  dl-In-put b dl b' p h =
      let law = bolt.get-put b dl.id (row dl) b' dl.id p in
      let held : bolt.get b' dl.id ≡ some (row dl) = rw (text_eq_refl dl.id) at law in
      decode-In (bolt.entries b') dl.id dl h ((bolt.entries-get b' dl.id (row dl)).1 held)

  -- Where no row had the pid and the quality, the new row is found by them.
  pub found_after_put :
      (b : B) (dl : Download) (b' : B) (same : Download → Bool)
      → IsReadable b
      → bolt.put b dl.id (row dl) ≡ some b'
      → last_such same none (decode (bolt.entries b)).0 ≡ none
      → same dl ≡ true
      → last_such same none (decode (bolt.entries b')).0 ≡ some dl
  found_after_put b dl b' same h p fresh y =
      let h' = put-IsReadable b dl b' h p in
      let (e, found) =
        last_such-some same none (decode (bolt.entries b')).0 dl (dl-In-put b dl b' p h') y in
      elim (last_such_from same none (decode (bolt.entries b')).0 e found) [
        | inl absent ↦ absurd (none-ne-some e absent)
        | inr (i, ye) ↦ elim (In-put b dl b' e p i h) [
          | inl eq ↦ found ∙ ap some (sym eq)
          | inr old ↦
              let (o, hit) = last_such-some same none (decode (bolt.entries b)).0 e old ye in
              absurd (none-ne-some o (sym fresh ∙ hit))
        ]
      ]
