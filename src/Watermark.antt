-- ===== src/Watermark.antt =====
-- src/source-watermark.mjs: how far a session's file was read, and whether one mark follows another.
pub mod Order
use persistent_harness.Prelude.{
  ℕ, ◌≤◌, ◌<◌, ◌≡◌, String, Bool, true, false, ◌&&◌, ◌||◌, Option, none, some, List, str_eq, eq_iff,
  arith, ltb, leb, ◌==◌, is_some, length, every,
}
use persistent_harness.Retry.Values.{Value, undefined, other, truth, number, text, count}

-- The five parts, as the texts that `String` makes of them.
pub record Fingerprint : Type 0 where
  pub dev : String
  pub ino : String
  pub size : String
  pub mtime_ns : String
  pub ctime_ns : String

-- A mark as it comes from a worker; `fingerprint` is `none` where it is no object.
pub record RawMark : Type 0 where
  pub version : Value
  pub owner : Value
  pub epoch : Value
  pub revision : Value
  pub generation : Value
  pub sequence : Value
  pub session_id : Value
  pub session_file : Value
  pub bytes : Value
  pub digest : Value
  pub fingerprint : Option Fingerprint

pub record Mark : Type 0 where
  pub owner : String
  pub epoch : ℕ
  pub revision : ℕ
  pub generation : ℕ
  pub sequence : ℕ
  pub session_id : String
  pub session_file : String
  pub bytes : ℕ
  pub digest : String
  pub fingerprint : Fingerprint

-- The session that the mark should be of.
pub record Source : Type 0 where
  pub session_id : String
  pub session_file : String

abbrev is_digit : ℕ → Bool
is_digit c = leb b'0' c && leb c b'9'

abbrev is_hex : ℕ → Bool
is_hex c = is_digit c || leb b'a' c && leb c b'f'

abbrev text_in : Value → Option String
text_in (text s) = some s
text_in undefined = none
text_in other = none
text_in (truth b) = none
text_in (number m k) = none

infixl 5 ◌>>=◌
abbrev ◌>>=◌ : {A B : Type 0} → Option A → (A → Option B) → Option B
none >>= f = none
some a >>= f = f a

abbrev check : Bool → Option (Unit {0})
check true = some tt
check false = none

abbrev is_one : Option ℕ → Bool
is_one none = false
is_one (some n) = n == 1

-- `resolve` is `path.resolve`, `byte_length` is `Buffer.byteLength`, `units` gives the code units of a
-- text, and `show` the text of a number.
module _ (resolve : String → String) (byte_length : String → ℕ) (units : String → List ℕ)
    (show : ℕ → String) where
  abbrev is_part : String → Bool
  is_part s = leb 1 (length (units s)) && leb (length (units s)) 30 && every is_digit (units s)

  abbrev is_fingerprint : Fingerprint → Bool
  is_fingerprint f =
      is_part f.dev && is_part f.ino && is_part f.size && is_part f.mtime_ns && is_part f.ctime_ns

  abbrev is_of : Option Source → String → String → Bool
  is_of none session_id session_file = true
  is_of (some s) session_id session_file =
      str_eq s.session_id session_id && str_eq (resolve s.session_file) session_file

  -- The fields of a mark, each of its type and form.
  pub read_mark : RawMark → Option Mark
  read_mark v = do
    _ ← check (is_one (count v.version))
    owner ← text_in v.owner
    _ ← check (length (units owner) == 36 && every (λ c. is_hex c || c == b'-') (units owner))
    epoch ← count v.epoch
    revision ← count v.revision
    generation ← count v.generation
    sequence ← count v.sequence
    bytes ← count v.bytes
    session_id ← text_in v.session_id
    _ ← check (leb 1 (length (units session_id)) && leb (length (units session_id)) 128)
    file ← text_in v.session_file
    _ ← check (leb 1 (length (units file)) && leb (byte_length file) 4096)
    digest ← text_in v.digest
    _ ← check (length (units digest) == 64 && every is_hex (units digest))
    fingerprint ← v.fingerprint
    some (record {
      owner = owner;
      epoch = epoch;
      revision = revision;
      generation = generation;
      sequence = sequence;
      session_id = session_id;
      session_file = resolve file;
      bytes = bytes;
      digest = digest;
      fingerprint = fingerprint;
    })

  -- The mark, if it is of the source and its fingerprint is in order.
  pub accept : Option Source → Mark → Option Mark
  accept source m = do
    _ ← check (is_of source m.session_id m.session_file)
    _ ← check (is_fingerprint m.fingerprint)
    _ ← check (str_eq m.fingerprint.size (show m.bytes))
    some m

  -- `normalizeSourceWatermark`; `none` is a value that is no object.
  unfoldable pub normalize_source_watermark : Option RawMark → Option Source → Option Mark
  unfolding read_mark accept
  normalize_source_watermark none source = none
  normalize_source_watermark (some v) source = read_mark v >>= accept source

abbrev same_place : Mark → Mark → Bool
same_place base next =
    str_eq base.owner next.owner
    && base.epoch == next.epoch
    && base.generation == next.generation
    && str_eq base.session_id next.session_id
    && str_eq base.session_file next.session_file
    && str_eq base.fingerprint.dev next.fingerprint.dev
    && str_eq base.fingerprint.ino next.fingerprint.ino

-- `followsSourceWatermark`, for two marks.
unfoldable pub follows_source_watermark : Mark → Mark → Bool
follows_source_watermark base next =
    same_place base next
    && ltb base.bytes next.bytes
    && ltb base.sequence next.sequence
    && leb base.revision next.revision
