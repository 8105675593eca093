-- ===== src/Protocol/Checked.antt =====
-- What a value that passes a check of src/protocol.mjs is.
use persistent_harness.Prelude.{
  ℕ, ◌≤◌, ◌≡◌, refl, sym, subst, arith, String, Bool, true, false, ◌&&◌, Option, none, some, List,
  leb, length, every, ok, >>=-elim, ok_inj, ◌⊎◌, inl, inr,
}
use persistent_harness.Js.Texts.{utf16_length}
use persistent_harness.Js.Values.{
  Json, null, infinite, boolean, number, minus, text, array, object, Entry, text_in, fields_in,
  list_in,
}
use persistent_harness.Protocol.Reading.{
  Code, Reading, check, require, taken, exact_record, has_key_in, string, integer, read_array,
  whole_in, optionally,
}

pub require-inv : (b : Bool) (c : Code) (u : Unit {0}) → require b c ≡ ok u → b ≡ true
require-inv true c u h = refl
require-inv false c u h = cc

taken-inv : {A : Type 0} (o : Option A) (a : A) → taken o ≡ ok a → o ≡ some a
taken-inv none a h = cc
taken-inv (some b) a h = cc

text_in-inv : (v : Option Json) (s : String) → text_in v ≡ some s → v ≡ some (text s)
text_in-inv none s h = cc
text_in-inv (some (text t)) s h = cc
text_in-inv (some null) s h = cc
text_in-inv (some infinite) s h = cc
text_in-inv (some (boolean b)) s h = cc
text_in-inv (some (number m k)) s h = cc
text_in-inv (some (minus m k)) s h = cc
text_in-inv (some (array vs)) s h = cc
text_in-inv (some (object fs)) s h = cc

-- A text of 1 to so many units.
abbrev pub IsFit : ℕ → String → Type 0
IsFit max s = (1 ≤ utf16_length s) × (utf16_length s ≤ max)

pub string-inv :
    (v : Option Json) (max : ℕ) (s : String)
    → string v max ≡ ok s
    → (v ≡ some (text s)) × IsFit max s
unfolding string
string-inv v max s h = >>=-elim (taken (text_in v)) _ s h λ t e h1.
    >>=-elim (check (leb 1 (utf16_length t) && leb (utf16_length t) max)) _ s h1 λ u g h2.
      subst (λ x. (v ≡ some (text x)) × IsFit max x) (ok_inj h2)
        (text_in-inv v t (taken-inv _ t e), bounds t (require-inv _ _ u g))
  where
    bounds : (t : String) → leb 1 (utf16_length t) && leb (utf16_length t) max ≡ true → IsFit max t
    bounds t g = (ground arith, ground arith)

-- A text that fits is accepted.
pub string-fit : (max : ℕ) (s : String) → IsFit max s → string (some (text s)) max ≡ ok s
unfolding string
string-fit max s (a, b) = ground arith

text_inj : (s t : String) → ◌≡◌ {A = Option Json} (some (text s)) (some (text t)) → s ≡ t
text_inj s t h = cc

pub string-IsFit : (max : ℕ) (s t : String) → string (some (text s)) max ≡ ok t → IsFit max s
string-IsFit max s t h =
    let (e, fit) = string-inv (some (text s)) max t h in
    subst (IsFit max) (sym (text_inj s t e)) fit

pub integer-inv :
    (v : Option Json) (min max n : ℕ)
    → integer v min max ≡ ok n
    → (whole_in v ≡ some n) × (min ≤ n) × (n ≤ max)
unfolding integer
integer-inv v min max n h = >>=-elim (taken (whole_in v)) _ n h λ m e h1.
    >>=-elim (check (leb min m && leb m max)) _ n h1 λ u g h2.
      subst (λ x. (whole_in v ≡ some x) × (min ≤ x) × (x ≤ max)) (ok_inj h2)
        (taken-inv _ m e, above m (require-inv _ _ u g), below m (require-inv _ _ u g))
  where
    above : (m : ℕ) → leb min m && leb m max ≡ true → min ≤ m
    above m g = ground arith

    below : (m : ℕ) → leb min m && leb m max ≡ true → m ≤ max
    below m g = ground arith

pub exact_record-inv :
    (v : Option Json) (keys : List String) (fields : List Entry)
    → exact_record v keys ≡ ok fields
    → (fields_in v ≡ some fields) × (every (has_key_in keys) fields ≡ true)
unfolding exact_record
exact_record-inv v keys fields h = >>=-elim (taken (fields_in v)) _ fields h λ fs e h1.
    >>=-elim (check (every (has_key_in keys) fs)) _ fields h1 λ u g h2.
      subst (λ x. (fields_in v ≡ some x) × (every (has_key_in keys) x ≡ true)) (ok_inj h2)
        (taken-inv _ fs e, require-inv _ _ u g)

-- What is optional is not there, or was read.
pub optionally-inv :
    {A : Type 0} (v : Option Json) (read : Option Json → Reading A) (a : Option A)
    → optionally v read ≡ ok a
    → ((v ≡ none) × (a ≡ none)) ⊎ ((b : A) × (read v ≡ ok b) × (a ≡ some b))
optionally-inv none read a h = inl (refl, sym (ok_inj h))
optionally-inv (some v) read a h =
    >>=-elim (read (some v)) _ a h λ b e h1. inr (b, e, sym (ok_inj h1))

pub read_array-short :
    (v : Option Json) (max : ℕ) (vs : List Json) → read_array v max ≡ ok vs → length vs ≤ max
unfolding read_array
read_array-short v max vs h = >>=-elim (taken (list_in v)) _ vs h λ raw _ h1.
    >>=-elim (check (leb (length raw) max)) _ vs h1
      λ u g h2. subst (λ x. length x ≤ max) (ok_inj h2) (few raw (require-inv _ _ u g))
  where
    few : (raw : List Json) → leb (length raw) max ≡ true → length raw ≤ max
    few raw g = ground arith
