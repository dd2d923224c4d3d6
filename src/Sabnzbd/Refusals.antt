-- ===== src/Sabnzbd/Refusals.antt =====
-- Which requests the SABnzbd API answers with "API Key Incorrect".
use iplayer_arr.Prelude.{
  ◌≡◌, refl, sym, ap, subst, ◌↔◌, Bool, true, false, ◌&&◌, ◌||◌, not, Option, none, some, Text, [],
  ◌∷◌, codes, text_eq, is_empty, if◌then◌else◌,
}
use iplayer_arr.Access.{sabnzbd_authenticate, secrets_equal, Credentials}
use iplayer_arr.Store.Bolt.{Bolt, Cell, Db}
use iplayer_arr.Store.Settings.{get_config, or_empty}
use iplayer_arr.Download.Enqueue.{enqueue}
use iplayer_arr.Sabnzbd.Requests.{Request, Extracted, extracted, refused, extract_from_request}
use iplayer_arr.Sabnzbd.Serve.{
  Server, Stored, Reply, downloads_disabled, wrong_key, served, serve_http, read_key, with_db,
  version_reply, handle_queue, handle_history, handle_add, add_extracted, add_answer, grab_of,
}

abbrev is_wrong : Reply → Bool
is_wrong wrong_key = true
is_wrong _ = false

either :
    {A : Type 0} (b : Bool) (x y : A × Reply)
    → is_wrong x.1 ≡ false
    → is_wrong y.1 ≡ false
    → is_wrong (if b then x else y).1 ≡ false
either true x y h k = h
either false x y h k = k

within :
    {A D : Type 0} (f : A → D) (a b : Bool) (x y : A)
    → a ≡ b
    → f (if a then x else y) ≡ (if b then f x else f y)
within f a true x y e = rw e refl
within f a false x y e = rw e refl

abbrev reply_is_wrong : {A : Type 0} → A × Reply → Bool
reply_is_wrong a = is_wrong a.1

-- Three tests in turn give the wrong key exactly where the first two fail.
chain :
    {A : Type 0} (version key : Bool) (o : A) (x y : A × Reply)
    → is_wrong x.1 ≡ false
    → is_wrong y.1 ≡ false
    → ((if version then x else if key then y else (o, wrong_key)) ≡ (o, wrong_key))
      ↔ ((version || key) ≡ false)
chain true key o x y hx hy = ((λ h. absurd (cc (ap reply_is_wrong h, hx))), (λ h. absurd (cc h)))
chain false true o x y hx hy = ((λ h. absurd (cc (ap reply_is_wrong h, hy))), (λ h. absurd (cc h)))
chain false false o x y hx hy = ((λ h. refl), (λ h. refl))

module _ {B C : Type 0} (bolt : Bolt B Cell) (settings : Bolt C Text) (s : Server B) where
  -- The stored key, where it can be read and is not empty, is the request's apikey parameter.
  abbrev pub has_key : Option (Stored B C) → Credentials → Bool
  has_key none c = false
  has_key (some st) c = st.is_open && elim (settings.get st.config (codes "api_key")) [
    | none ↦ false
    | some key ↦ not (is_empty key) && text_eq c.apikey key
  ]

  answer-is_wrong :
      (r : Request) (a : Db B × Option Text) → is_wrong (add_answer bolt settings s r a).1 ≡ false
  answer-is_wrong r (db, none) = refl
  answer-is_wrong r (db, some id) = refl

  extracted-is_wrong :
      (r : Request) (e : Extracted) (db : Db B)
      → is_wrong (add_extracted bolt settings s r e db).1 ≡ false
  extracted-is_wrong r (refused why) db = refl
  extracted-is_wrong r (extracted pid quality filename) db =
      either s.has_starter
        (add_answer bolt settings s r
          (enqueue bolt s.host (grab_of bolt settings s r pid quality filename) db))
        (db, downloads_disabled)
        (answer-is_wrong r
          (enqueue bolt s.host (grab_of bolt settings s r pid quality filename) db))
        refl

  queue-is_wrong :
      (r : Request) (db : Db B) → is_wrong (handle_queue bolt settings s r db).1 ≡ false
  unfolding handle_queue
  queue-is_wrong r db =
      either (text_eq r.name (codes "delete")) _ _ refl
        (either (text_eq r.name (codes "priority")) _ _ refl refl)

  history-is_wrong :
      (r : Request) (db : Db B) → is_wrong (handle_history bolt settings s r db).1 ≡ false
  unfolding handle_history
  history-is_wrong r db = either (text_eq r.name (codes "delete")) _ _ refl refl

  add-is_wrong : (r : Request) (db : Db B) → is_wrong (handle_add bolt settings s r db).1 ≡ false
  unfolding handle_add
  add-is_wrong r db = extracted-is_wrong r (extract_from_request s.formats r) db

  served-is_wrong :
      (r : Request) (st : Stored B C) → is_wrong (served bolt settings s r st).1 ≡ false
  unfolding served
  served-is_wrong r st = either (text_eq r.mode (codes "get_cats")) _ _ refl (
      either (text_eq r.mode (codes "get_config")) _ _ refl (
        either (text_eq r.mode (codes "fullstatus")) _ _ refl (
          either (text_eq r.mode (codes "queue")) _ _ (queue-is_wrong r st.db) (
            either (text_eq r.mode (codes "history")) _ _ (history-is_wrong r st.db) (
              either (text_eq r.mode (codes "addurl") || text_eq r.mode (codes "addfile")) _ _
                (add-is_wrong r st.db) refl)))))

  authenticate_lem :
      (readable : Bool) (o : Option Text) (c : Credentials)
      → sabnzbd_authenticate true (if readable then some (or_empty settings o) else none) c ≡ (
          readable
          && elim o [ none ↦ false | some key ↦ not (is_empty key) && text_eq c.apikey key ])
  unfolding sabnzbd_authenticate secrets_equal
  authenticate_lem false o c = refl
  authenticate_lem true none c = refl
  authenticate_lem true (some []) c = refl
  authenticate_lem true (some (k ∷ key)) c = refl

  authenticate-has_key :
      (st : Stored B C) (c : Credentials)
      → sabnzbd_authenticate true (read_key bolt settings s st) c ≡ has_key (some st) c
  unfolding get_config
  authenticate-has_key st c =
      authenticate_lem st.is_open (settings.get st.config (codes "api_key")) c

  -- The answer in one chain of tests.
  abbrev answer : Request → Stored B C → Option (Stored B C) × Reply
  answer r st =
      if text_eq r.mode (codes "version")
      then (some st, version_reply)
      else if has_key (some st) r.credentials
      then with_db bolt settings s st (served bolt settings s r st)
      else (some st, wrong_key)

  serve_http-answer :
      (r : Request) (st : Stored B C) → serve_http bolt settings s r (some st) ≡ answer r st
  unfolding serve_http
  serve_http-answer r st =
      ap
        (λ (x : Option (Stored B C) × Reply).
          if◌then◌else◌ {A = Option (Stored B C) × Reply} (text_eq r.mode (codes "version"))
            (some st, version_reply) x)
        (within (with_db bolt settings s st)
          (sabnzbd_authenticate true (read_key bolt settings s st) r.credentials)
          (has_key (some st) r.credentials) (served bolt settings s r st) (st.db, wrong_key)
          (authenticate-has_key st r.credentials))

  -- The API answers "API Key Incorrect", and leaves the store as it was, exactly where the mode is not
  -- `version` and the request has not the key: there is no store, the database is closed, no key is
  -- stored, the stored key is empty, or the apikey parameter is not that key. No other answer of any
  -- mode is the same.
  pub serve_http-wrong_key_iff :
      (r : Request) (o : Option (Stored B C))
      → (serve_http bolt settings s r o ≡ (o, wrong_key))
        ↔ ((text_eq r.mode (codes "version") || has_key o r.credentials) ≡ false)
  unfolding serve_http
  serve_http-wrong_key_iff r none =
      chain (text_eq r.mode (codes "version")) false none (none, version_reply)
        (none, version_reply) refl refl
  serve_http-wrong_key_iff r (some st) =
      subst
        (λ (x : Option (Stored B C) × Reply).
          (x ≡ (some st, wrong_key))
          ↔ ((text_eq r.mode (codes "version") || has_key (some st) r.credentials) ≡ false))
        (sym (serve_http-answer r st))
        (chain (text_eq r.mode (codes "version")) (has_key (some st) r.credentials) (some st)
          (some st, version_reply) (with_db bolt settings s st (served bolt settings s r st)) refl
          (served-is_wrong r st))
