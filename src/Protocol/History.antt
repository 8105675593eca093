-- ===== src/Protocol/History.antt =====
-- `sessionHistory` of src/protocol.mjs.
use persistent_harness.Prelude.{
  ℕ, String, Bool, true, false, not, ◌&&◌, ◌||◌, Option, none, some, List, [], ◌∷◌, ◌++◌, str_eq,
  ltb, leb, if◌then◌else◌, length, every, ok, ◌>>=◌,
}
use persistent_harness.Js.Values.{Json, null, boolean, text, array, Entry, get}
use persistent_harness.Js.Texts.{units}
use persistent_harness.Protocol.Reading.{
  Reading, ◌>>◌, check, taken, member, read_record, exact, string, utf8, bool, integer, read_array,
  optionally, or_else, one_of, default_text, each, entry, whole_number, as_text, as_items, texts,
}

abbrev common_keys : List String
common_keys = "operation" ∷ "sessionId" ∷ "kind" ∷ "includeDeleted" ∷ "includeCurrent" ∷ []

pub data Operation : Type 0 where
  listing searching opening : Operation

abbrev operation_of : String → Option Operation
operation_of s =
    if str_eq s "list"
    then some listing
    else if str_eq s "search"
    then some searching
    else if str_eq s "open"
    then some opening
    else none

abbrev allowed : Operation → List String
allowed listing = common_keys ++ "limit" ∷ []
allowed searching =
    common_keys ++ "query" ∷ "roles" ∷ "limit" ∷ "sort" ∷ "snippetChars" ∷ "refresh" ∷ []
allowed opening =
    "operation" ∷ "sessionId" ∷ "entryId" ∷ "includeDeleted" ∷ "includeCurrent" ∷ "before" ∷ "after"
    ∷ "maxChars" ∷ "refresh" ∷ []

-- What the three operations read alike.
pub record Common : Type 0 where
  pub include_deleted : Bool
  pub include_current : Bool
  pub refresh : Bool

unfoldable common_of : List Entry → Reading Common
common_of value = do
  deleted ← optionally (get value "includeDeleted") bool
  current ← optionally (get value "includeCurrent") bool
  refresh ← optionally (get value "refresh") bool
  ok (record {
    include_deleted = or_else deleted false;
    include_current = or_else current false;
    refresh = or_else refresh false;
  })

-- The place in a session that is opened.
pub record Opened : Type 0 where
  pub common : Common
  pub session_id : String
  pub entry_id : String
  pub before : ℕ
  pub after : ℕ
  pub max_chars : ℕ

-- The sessions that are listed.
pub record Listed : Type 0 where
  pub common : Common
  pub session_id : Option String
  pub kind : String
  pub limit : ℕ

-- The messages that are searched.
pub record Searched : Type 0 where
  pub listed : Listed
  pub roles : List String
  pub sort : String
  pub query : String
  pub snippet_chars : ℕ

pub data Lookup : Type 0 where
  opened : Opened → Lookup
  listed : Listed → Lookup
  searched : Searched → Lookup

unfoldable open_of : List Entry → Common → Reading Opened
unfolding string integer
open_of value common = do
  session_id ← string (get value "sessionId") 128
  entry_id ← string (get value "entryId") 128
  before ← optionally (get value "before") (λ v. integer v 0 8)
  after ← optionally (get value "after") (λ v. integer v 0 8)
  max_chars ← optionally (get value "maxChars") (λ v. integer v 256 16000)
  ok (record {
    common = common;
    session_id = session_id;
    entry_id = entry_id;
    before = or_else before 2;
    after = or_else after 2;
    max_chars = or_else max_chars 8000;
  })

unfoldable list_of : ℕ → List Entry → Common → Reading Listed
unfolding string integer member
list_of default_limit value common = do
  kind ← one_of ("any" ∷ "root" ∷ "child" ∷ []) (default_text "any" (get value "kind"))
  session_id ← optionally (get value "sessionId") (λ v. string v 128)
  limit ← optionally (get value "limit") (λ v. integer v 1 20)
  ok (record {
    common = common;
    session_id = session_id;
    kind = kind;
    limit = or_else limit default_limit;
  })

unfoldable distinct : List String → Bool
unfolding member
distinct [] = true
distinct (s ∷ ss) = not (member ss s) && distinct ss

abbrev role_names : List String
role_names = "user" ∷ "assistant" ∷ []

unfoldable roles_in : Option Json → Reading (List String)
unfolding string read_array each
roles_in v = do raw ← read_array v 2; each (λ r. string r 16) raw

abbrev is_query_control : ℕ → Bool
is_query_control c = ltb c 0x20 || leb 0x7f c && leb c 0x9f

unfoldable search_of : List Entry → Listed → Reading Searched
unfolding utf8 integer member distinct roles_in
search_of value base = do
  given_roles ← optionally (get value "roles") roles_in
  let roles = or_else given_roles role_names
  check (leb 1 (length roles) && distinct roles && every (member role_names) roles)
  sort ←
      one_of ("relevance" ∷ "newest" ∷ "oldest" ∷ []) (default_text "relevance" (get value "sort"))
  query ← utf8 (get value "query") 512
  check (every (λ c. not (is_query_control c)) (units query))
  snippet ← optionally (get value "snippetChars") (λ v. integer v 80 800)
  ok (record {
    listed = base;
    roles = roles;
    sort = sort;
    query = query;
    snippet_chars = or_else snippet 320;
  })

unfoldable pub session_history : Option Json → Reading Lookup
unfolding string common_of open_of list_of search_of member
session_history params = do
  value ← read_record params
  name ← string (get value "operation") 16
  operation ← taken (operation_of name)
  exact value (allowed operation)
  common ← common_of value
  elim operation [
    | opening ↦ open_of value common >>= λ o. ok (opened o)
    | listing ↦ list_of 20 value common >>= λ l. ok (listed l)
    | searching ↦ list_of 8 value common >>= λ l. search_of value l >>= λ s. ok (searched s)
  ]

abbrev common_entries : Common → List Entry
common_entries c =
    entry "includeDeleted" (boolean c.include_deleted)
    ∷ entry "includeCurrent" (boolean c.include_current)
    ∷ []

-- The entries of a list and of a search, up to the limit.
abbrev listed_entries : Listed → List Entry
listed_entries l =
    entry "sessionId" (or_else (as_text l.session_id) null)
    ∷ entry "kind" (text l.kind)
    ∷ common_entries l.common

unfoldable pub lookup_entries : Lookup → List Entry
unfolding as_items texts
lookup_entries (opened o) =
    entry "operation" (text "open")
      ∷ entry "refresh" (boolean o.common.refresh)
      ∷ entry "sessionId" (text o.session_id)
      ∷ entry "entryId" (text o.entry_id)
      ∷ common_entries o.common
    ++ entry "before" (whole_number o.before)
      ∷ entry "after" (whole_number o.after)
      ∷ entry "maxChars" (whole_number o.max_chars)
      ∷ []
lookup_entries (listed l) =
    entry "operation" (text "list") ∷ listed_entries l ++ entry "limit" (whole_number l.limit) ∷ []
lookup_entries (searched s) =
    entry "operation" (text "search")
      ∷ entry "refresh" (boolean s.listed.common.refresh)
      ∷ entry "query" (text s.query)
      ∷ listed_entries s.listed
    ++ entry "roles" (array (as_items (texts s.roles)))
      ∷ entry "limit" (whole_number s.listed.limit)
      ∷ entry "sort" (text s.sort)
      ∷ entry "snippetChars" (whole_number s.snippet_chars)
      ∷ []
