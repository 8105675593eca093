-- ===== src/Tests/WatermarkRuns.antt =====
-- The theorems on src/source-watermark.mjs at two reads of one file.
use persistent_harness.Prelude.{
  ℕ, zero, suc, ◌≡◌, refl, String, true, some, List, [], ◌∷◌, str_eq, if◌then◌else◌,
}
use persistent_harness.Retry.Values.{number, text}
use persistent_harness.Watermark.{
  Fingerprint, RawMark, Mark, normalize_source_watermark, follows_source_watermark,
}
use persistent_harness.Watermark.Order.{IsLater, follow_up-IsLater, normalize_source_watermark_lem}

abbrev fives : ℕ → List ℕ
fives zero = []
fives (suc n) = b'5' ∷ fives n

-- The code units of the texts below, as far as their number and their form go.
abbrev units : String → List ℕ
units s = if str_eq s "owner" then fives 36 else if str_eq s "digest" then fives 64 else fives 1

abbrev resolve : String → String
resolve s = s

abbrev byte_length : String → ℕ
byte_length s = 1

abbrev show : ℕ → String
show n = "5"

abbrev five : Fingerprint
five = record { dev = "1"; ino = "2"; size = "5"; mtime_ns = "3"; ctime_ns = "4" }

abbrev mark : ℕ → Mark
mark n = record {
  owner = "owner";
  epoch = 0;
  revision = 0;
  generation = 0;
  sequence = n;
  session_id = "s";
  session_file = "f";
  bytes = n;
  digest = "digest";
  fingerprint = five;
}

abbrev raw_mark : RawMark
raw_mark = record {
  version = number 1 0;
  owner = text "owner";
  epoch = number 0 0;
  revision = number 0 0;
  generation = number 0 0;
  sequence = number 5 0;
  session_id = text "s";
  session_file = text "f";
  bytes = number 5 0;
  digest = text "digest";
  fingerprint = some five;
}

follow_up-IsLater_example : IsLater 2 (mark 1) (mark 3)
unfolding follows_source_watermark
follow_up-IsLater_example = follow_up-IsLater (mark 1) (mark 2 ∷ mark 3 ∷ []) refl

normalize_source_watermark_lem_example :
    (str_eq "s" "s" ≡ true) × (str_eq (resolve "f") "f" ≡ true) × (str_eq "5" (show 5) ≡ true)
unfolding normalize_source_watermark
normalize_source_watermark_lem_example =
    normalize_source_watermark_lem resolve byte_length units show raw_mark
      (record { session_id = "s"; session_file = "f" }) (mark 5) refl
