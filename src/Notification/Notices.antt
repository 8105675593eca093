-- ===== src/Notification/Notices.antt =====
-- The methods of `NotificationStore` on notices.
use Prim.Native.String
use persistent_harness.Prelude.{
  ℕ, ◌+◌, ◌*◌, String, Bool, true, false, not, ◌&&◌, ◌||◌, Option, none, some, List, [], ◌∷◌, ◌++◌,
  map, str_eq, ltb, leb, ◌==◌, is_none, if◌then◌else◌, first, select, count, update, order_by, take,
  length, Outcome, ok, err,
}
use persistent_harness.Cron.Text.{Text, trim}
use persistent_harness.Notification.Schema.{
  NoticeKind, attention, NoticeState, pending, resolved, cancelled, expired, superseded, Closer,
  agent, Notice, Family, Tables, NoticeError, invalid_transition, is_pending, is_attention,
  notice_is,
}

-- `clean`: control characters become spaces, and the text is trimmed and cut.
unfoldable clean : Text → ℕ → Text
unfolding trim
clean text max = take max (trim (map (λ c. if leb c 0x1f || c == 0x7f then 0x20 else c) text))

abbrev pub update_notices : (Notice → Bool) → (Notice → Notice) → Tables → Tables
update_notices p f t = record t { notices = update p f t.notices }

-- `UPDATE notifications SET state=?, updated_at=?` with the closer.
abbrev pub moved_to : NoticeState → ℕ → Notice → Notice
moved_to state now n = record n { state = state; updated_at = now }

abbrev pub has_lapsed : ℕ → Notice → Bool
has_lapsed now n = is_pending n.state && leb n.expires_at now

unfoldable pub expire : ℕ → Tables → Tables
expire now t = update_notices (has_lapsed now) (moved_to expired now) t

unfoldable pub get : String → ℕ → Tables → Option Notice × Tables
unfolding expire
get id now t = let t' = expire now t in (first (notice_is id) t'.notices, t')

-- The parameters of `create`; its title and its body are not cleaned yet.
pub record NewNotice : Type 0 where
  pub key : String
  pub root_id : String
  pub session_id : String
  pub episode_id : Option String
  pub kind : NoticeKind
  pub title : Text
  pub body : Text
  pub expires_at : ℕ
  pub source_type : String
  pub source_json : String

abbrev open_family : String → Family → Bool
open_family root_id f = str_eq f.root_id root_id && is_none f.closed_at

abbrev episode_in : Option Family → Option String
episode_in none = none
episode_in (some f) = f.episode_id

-- `episodeId ??= …`.
abbrev episode_of : NewNotice → Tables → Option String
episode_of p t = elim p.episode_id [
  | some e ↦ some e
  | none ↦ episode_in (first (open_family p.root_id) t.families)
]

pub notice_row : String → NewNotice → ℕ → Tables → Notice
unfolding clean
notice_row id p now t = record {
  id = id;
  seq = t.next_seq;
  source_key = p.key;
  root_id = p.root_id;
  session_id = p.session_id;
  episode_id = episode_of p t;
  kind = p.kind;
  title = clean p.title 120;
  body = clean p.body 1000;
  created_at = now;
  expires_at = p.expires_at;
  state = pending;
  read_at = none;
  updated_at = now;
  closed_by = none;
  source_type = p.source_type;
  source_json = p.source_json;
}

-- A row of the same id or of the same key.
abbrev pub clashes : String → String → Notice → Bool
clashes id key n = notice_is id n || str_eq n.source_key key

-- `INSERT OR IGNORE INTO notifications`.
unfoldable pub insert_notice : Notice → Tables → Tables
insert_notice n t = elim (first (clashes n.id n.source_key) t.notices) [
  | some other ↦ t
  | none ↦ record t { notices = t.notices ++ n ∷ []; next_seq = t.next_seq + 1 }
]

abbrev pub attention_key : String → String → String
attention_key session_id key =
    Prim.Native.String.◌++◌ "attention:"
      (Prim.Native.String.◌++◌ session_id (Prim.Native.String.◌++◌ ":" key))

abbrev family_of : String → Family → Bool
family_of root_id f = str_eq f.root_id root_id

abbrev pub may_close : NoticeState → Bool
may_close resolved = true
may_close cancelled = true
may_close superseded = true
may_close pending = false
may_close expired = false

abbrev pub pending_with : String → Notice → Bool
pending_with id n = notice_is id n && is_pending n.state

abbrev pub closed_row : NoticeState → Option Closer → ℕ → Notice → Notice
closed_row state closed_by now n = record n {
  state = state;
  closed_by = closed_by;
  updated_at = now;
}

unfoldable pub transition :
    String → NoticeState → ℕ → Option Closer → Tables → Outcome NoticeError (Option Notice × Tables)
unfolding expire get
transition id state now closed_by t =
    if may_close state
    then ok (
        get id now
          (update_notices (pending_with id) (closed_row state closed_by now) (expire now t)))
    else err invalid_transition

-- What `request` gives to `create`.
abbrev pub requested : String → String → Text → Text → ℕ → String → ℕ → Tables → NewNotice
requested session_id key title body expires_in source_json now t = record {
  key = attention_key session_id key;
  root_id = session_id;
  session_id = session_id;
  episode_id = episode_in (first (family_of session_id) t.families);
  kind = attention;
  title = title;
  body = body;
  expires_at = now + expires_in * 1000;
  source_type = "explicit";
  source_json = source_json;
}

-- `notification_id` is `notificationId`, a hash, and `notifies_root` the function of that name.
module _ (notification_id : String → String) (notifies_root : String → Bool) where
  unfoldable pub create : NewNotice → ℕ → Tables → Option Notice × Tables
  unfolding insert_notice notice_row get
  create p now t =
      let id = notification_id p.key in
      if notifies_root p.root_id
      then get id now (insert_notice (notice_row id p now t) t)
      else (none, t)

  unfoldable pub request :
      String → String → Text → Text → ℕ → String → ℕ → Tables → Option Notice × Tables
  unfolding create
  request session_id key title body expires_in source_json now t =
      create (requested session_id key title body expires_in source_json now t) now t

  unfoldable pub resolve_key :
      String → String → ℕ → Tables → Outcome NoticeError (Option Notice × Tables)
  unfolding transition
  resolve_key session_id key now t =
      transition (notification_id (attention_key session_id key)) resolved now (some agent) t

-- `coalesce(read_at, ?)`.
abbrev first_read : Option ℕ → ℕ → ℕ
first_read none now = now
first_read (some at) now = at

abbrev pub read_row : ℕ → Notice → Notice
read_row now n = record n { read_at = some (first_read n.read_at now); updated_at = now }

unfoldable pub read : String → ℕ → Tables → Option Notice × Tables
unfolding get
read id now t = get id now (update_notices (notice_is id) (read_row now) t)

abbrev pub pending_in : String → Notice → Bool
pending_in id n = (str_eq n.session_id id || str_eq n.root_id id) && is_pending n.state

unfoldable pub cancel_session : String → ℕ → Tables → Tables
cancel_session id now t = record (update_notices (pending_in id) (moved_to cancelled now) t) {
  families = update (open_family id) (λ f. record f { closed_at = some now }) t.families;
}

abbrev pub pending_dialog : Notice → Bool
pending_dialog n = is_pending n.state && str_eq n.source_type "extension_ui"

unfoldable pub cancel_dialogs : ℕ → Tables → Tables
cancel_dialogs now t = update_notices pending_dialog (moved_to cancelled now) t

pub data View : Type 0 where
  all inbox history : View

abbrev in_inbox : Notice → Bool
in_inbox n = is_pending n.state && (is_none n.read_at || is_attention n.kind)

abbrev in_view : View → Notice → Bool
in_view all n = true
in_view inbox n = in_inbox n
in_view history n = not (in_inbox n)

abbrev newest_first : Notice → Notice → Bool
newest_first a b = leb b.seq a.seq

abbrev is_unread : Notice → Bool
is_unread n = is_pending n.state && is_none n.read_at

last_seq : List Notice → Option ℕ
last_seq [] = none
last_seq (n ∷ []) = some n.seq
last_seq (n ∷ m ∷ ns) = last_seq (m ∷ ns)

-- A page of notices, the number where the next one starts, and how many notices are unread.
pub record Page : Type 0 where
  pub notifications : List Notice
  pub next_before : Option ℕ
  pub unread : ℕ

-- `list`, for one of its three views.
unfoldable pub list_notices : ℕ → ℕ → View → ℕ → Tables → Page × Tables
unfolding expire last_seq
list_notices limit before view now t =
    let t' = expire now t in
    let rows =
      take limit
        (order_by newest_first (select (λ n. ltb n.seq before && in_view view n) t'.notices)) in
    (
      record {
        notifications = rows;
        next_before = if length rows == limit then last_seq rows else none;
        unread = count is_unread t'.notices;
      },
      t',
    )
