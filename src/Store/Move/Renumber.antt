-- ===== src/Store/Move/Renumber.antt =====
-- What numbering the rows again writes.
use iplayer_arr.Prelude.{
  ℕ, suc, ◌<◌, ◌≤◌, ◌≡◌, ◌≢◌, refl, sym, ap, ◌∙◌, subst, inl, inr, arith, true, Bool-cases, some,
  List, [], ◌∷◌, In, Text, text_eq_iff, text_eq_refl, length, ◌==◌, ==_iff,
}
use iplayer_arr.Prelude.Sort.{IsSorted}
use iplayer_arr.Store.Types.{Download}
use iplayer_arr.Store.Bolt.{
  Bolt, Cell, row, panic, ok, err, attempt, >>=-eq-ok, >>=-eq-err, attempt-eq-ok, attempt-ne-panic,
}
use iplayer_arr.Store.Queue.{queue_less}
use iplayer_arr.Store.Queue.Order.{HasDistinctIds}
use iplayer_arr.Store.Move.{renumber}

-- Row i of n with the priority n - i.
unfoldable pub renumbered : List Download → List Download
renumbered [] = []
renumbered (d ∷ ds) = record d { priority = suc (length ds) } ∷ renumbered ds

same_priority : (d : Download) (n : ℕ) → d.priority ≡ n → d ≡ record d { priority = n }
same_priority d n e = λ i. record d { priority = e i }

-- A row that was numbered again differs from the row before in its priority alone.
pub record IsRenumbered (ds : List Download) (e : Download) : Type 0 where
  pub source : Download
  pub source_in : In source ds
  pub changed : e ≡ record source { priority = e.priority }
  pub bound : e.priority ≤ length ds

pub In-renumbered : (ds : List Download) (e : Download) → In e (renumbered ds) → IsRenumbered ds e
unfolding renumbered
In-renumbered [] e m = absurd m
In-renumbered (d ∷ ds) e (inl p) = record {
  source = d;
  source_in = inl refl;
  changed = subst (λ (x : Download). x ≡ record d { priority = x.priority }) (sym p) refl;
  bound = omega (arith, ap (λ (x : Download). x.priority) p);
}
In-renumbered (d ∷ ds) e (inr m) =
    let r = In-renumbered ds e m in
    record {
      source = r.source;
      source_in = inr r.source_in;
      changed = r.changed;
      bound = omega (arith, r.bound);
    }

pub In-renumbered_inv :
    (ds : List Download) (d : Download)
    → In d ds
    → (n : ℕ) × In (record d { priority = n }) (renumbered ds)
unfolding renumbered
In-renumbered_inv (c ∷ ds) d (inl p) =
    (suc (length ds), inl (ap (λ (x : Download). record x { priority = suc (length ds) }) p))
In-renumbered_inv (c ∷ ds) d (inr m) = let (n, r) = In-renumbered_inv ds d m in (n, inr r)
In-renumbered_inv [] d m = absurd m

priority_first : (a b : Download) → b.priority < a.priority → queue_less a b ≡ true
unfolding queue_less
priority_first a b h = ground arith

-- Numbered rows stand in the claim order, whatever their other fields are.
pub renumbered-IsSorted : (ds : List Download) → IsSorted queue_less (renumbered ds)
unfolding renumbered
renumbered-IsSorted [] = tt
renumbered-IsSorted (d ∷ ds) = (
  (λ e m.
      let r = In-renumbered ds e m in
      priority_first (record d { priority = suc (length ds) }) e (omega (arith, r.bound))),
  renumbered-IsSorted ds,
)

module _ {B : Type 0} (bolt : Bolt B Cell) where
  -- One round of the loop, whether it writes the row or skips it.
  record Round (b : B) (d : Download) (n : ℕ) (c : B) : Type 0 where
    other : (k : Text) → d.id ≢ k → bolt.get c k ≡ bolt.get b k
    own : bolt.get b d.id ≡ some (row d) → bolt.get c d.id ≡ some (row (record d { priority = n }))

  record Rest (b : B) (d : Download) (ds : List Download) (b' : B) (q : List Download)
      : Type 0 where
    next : B
    tail : List Download
    round : Round b d (suc (length ds)) next
    run : renumber bolt next ds ≡ ok (b', tail)
    shape : q ≡ record d { priority = suc (length ds) } ∷ tail

  written-Round :
      (b : B) (d : Download) (n : ℕ) (c : B)
      → bolt.put b d.id (row (record d { priority = n })) ≡ some c
      → Round b d n c
  written-Round b d n c h = record {
    other = λ k ne. bolt.get-put b d.id _ c k h ∙ ground (arith, text_eq_iff d.id k);
    own = λ _. bolt.get-put b d.id _ c d.id h ∙ rw (text_eq_refl d.id);
  }

  skipped-Round : (b : B) (d : Download) (n : ℕ) → d.priority ≡ n → Round b d n b
  skipped-Round b d n e = record {
    other = λ k ne. refl;
    own = λ h. h ∙ ap (λ (x : Download). some (row x)) (same_priority d n e);
  }

  renumber-Rest :
      (b : B) (d : Download) (ds : List Download) (b' : B) (q : List Download)
      → renumber bolt b (d ∷ ds) ≡ ok (b', q)
      → Rest b d ds b' q
  unfolding renumber
  renumber-Rest b d ds b' q h = elim (Bool-cases (d.priority == suc (length ds))) [
    | inl same ↦
        let (r, run, e) = >>=-eq-ok (renumber bolt b ds) _ (rw same at h) in
        let equal : d.priority ≡ suc (length ds) = (==_iff d.priority (suc (length ds))).0 same in
        record {
          next = b;
          tail = r.1;
          round = skipped-Round b d (suc (length ds)) equal;
          run = run ∙ ap (λ (x : B). ok (x, r.1)) (cc);
          shape = ground (arith, same_priority d (suc (length ds)) equal);
        }
    | inr differs ↦
        let (c, put, more) = >>=-eq-ok (attempt (bolt.put b d.id _)) _ (rw differs at h) in
        let (r, run, e) = >>=-eq-ok (renumber bolt c ds) _ more in
        record {
          next = c;
          tail = r.1;
          round = written-Round b d (suc (length ds)) c (attempt-eq-ok _ put);
          run = run ∙ ap (λ (x : B). ok (x, r.1)) (cc);
          shape = sym (cc);
        }
  ]

  pub renumber-renumbered :
      (b : B) (ds : List Download) (b' : B) (q : List Download)
      → renumber bolt b ds ≡ ok (b', q)
      → q ≡ renumbered ds
  unfolding renumbered
  renumber-renumbered b [] b' q h = unfold renumber in ground arith
  renumber-renumbered b (d ∷ ds) b' q h =
      let r = renumber-Rest b d ds b' q h in
      r.shape
      ∙ ap (◌∷◌ (record d { priority = suc (length ds) }))
          (renumber-renumbered r.next ds b' r.tail r.run)

  -- The other keys of the bucket keep their values.
  pub get-renumber_other :
      (b : B) (ds : List Download) (b' : B) (q : List Download) (k : Text)
      → renumber bolt b ds ≡ ok (b', q)
      → ((d : Download) → In d ds → d.id ≢ k)
      → bolt.get b' k ≡ bolt.get b k
  get-renumber_other b [] b' q k h ne = unfold renumber in ground arith
  get-renumber_other b (d ∷ ds) b' q k h ne =
      let r = renumber-Rest b d ds b' q h in
      get-renumber_other r.next ds b' r.tail k r.run (λ e m. ne e (inr m))
      ∙ r.round.other k (ne d (inl refl))

  -- Every row of the queue is stored as it was numbered.
  pub get-renumber :
      (b : B) (ds : List Download) (b' : B) (q : List Download)
      → renumber bolt b ds ≡ ok (b', q)
      → HasDistinctIds ds
      → ((d : Download) → In d ds → bolt.get b d.id ≡ some (row d))
      → (e : Download) → In e q
      → bolt.get b' e.id ≡ some (row e)
  unfolding renumbered
  get-renumber b [] b' q h distinct held e m =
      absurd (subst (λ l. In e l) (renumber-renumbered b [] b' q h) m)
  get-renumber b (d ∷ ds) b' q h (first, distinct) held e m =
      let r = renumber-Rest b d ds b' q h in
      let d' : Download = record d { priority = suc (length ds) } in
      elim (subst (λ l. In e l) r.shape m) [
        | inl p ↦
            subst (λ (x : Download). bolt.get b' x.id ≡ some (row x)) (sym p)
              (get-renumber_other r.next ds b' r.tail d.id r.run (λ c n same. first c n (sym same))
                ∙ r.round.own (held d (inl refl)))
        | inr n ↦
            get-renumber r.next ds b' r.tail r.run distinct
              (λ c k. r.round.other c.id (first c k) ∙ held c (inr k)) e n
      ]

  -- Numbering fails only where Put does.
  pub renumber-ne-panic : (b : B) (ds : List Download) → renumber bolt b ds ≢ err panic
  unfolding renumber
  renumber-ne-panic b [] h = cc
  renumber-ne-panic b (d ∷ ds) h = elim (Bool-cases (d.priority == suc (length ds))) [
    | inl same ↦ elim (>>=-eq-err (renumber bolt b ds) _ (rw same at h)) [
      | inl e ↦ renumber-ne-panic b ds e
      | inr (r, _, e) ↦ cc
    ]
    | inr differs ↦ elim (>>=-eq-err (attempt (bolt.put b d.id _)) _ (rw differs at h)) [
      | inl e ↦ attempt-ne-panic _ e
      | inr (c, _, more) ↦ elim (>>=-eq-err (renumber bolt c ds) _ more) [
        | inl e ↦ renumber-ne-panic c ds e
        | inr (r, _, e) ↦ cc
      ]
    ]
  ]
