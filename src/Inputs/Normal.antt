-- ===== src/Inputs/Normal.antt =====
-- Locations that src/input-location.mjs returns, read again.
use persistent_harness.Prelude.{
  ℕ, ◌≡◌, refl, ap, ◌∙◌, subst, arith, true, Option, none, some, List, leb, ◌==◌, length, ok,
  >>=-elim, ok_inj, none≢some, some_inj,
}
use mathlib.Core.Bool.{false≢true}
use persistent_harness.Js.Values.{
  Json, number, minus, null, infinite, boolean, text, array, object, Fields, field, end, Entry, get,
  entries_of, fields_in,
}
use persistent_harness.Conversation.{safe_integer}
use persistent_harness.Inputs.Locations.{
  InputError, Location, require, or_throw, is_between, is_positive, or_zero, location_of,
  normalize_input_location,
}
use persistent_harness.Inputs.Attached.{require-inv}

-- A location as an object.
abbrev pub location_fields : Location → Fields
location_fields l = field "latitude" l.latitude (
    field "longitude" l.longitude
      (field "accuracy" l.accuracy (field "timestamp" (number l.timestamp 0) end)))

or_zero-between : (a b : ℕ) (v : Json) → is_between a b v ≡ true → is_between a b (or_zero v) ≡ true
or_zero-between a b (number m k) h = h
or_zero-between a b (minus m k) h = ground arith
or_zero-between a b null h = absurd (false≢true h)
or_zero-between a b infinite h = absurd (false≢true h)
or_zero-between a b (boolean c) h = absurd (false≢true h)
or_zero-between a b (text s) h = absurd (false≢true h)
or_zero-between a b (array vs) h = absurd (false≢true h)
or_zero-between a b (object fs) h = absurd (false≢true h)

or_zero-positive : (v : Json) → is_positive v ≡ true → is_positive (or_zero v) ≡ true
or_zero-positive (number m k) h = refl
or_zero-positive (minus m k) h = ground arith
or_zero-positive null h = absurd (false≢true h)
or_zero-positive infinite h = absurd (false≢true h)
or_zero-positive (boolean c) h = absurd (false≢true h)
or_zero-positive (text s) h = absurd (false≢true h)
or_zero-positive (array vs) h = absurd (false≢true h)
or_zero-positive (object fs) h = absurd (false≢true h)

or_zero-again : (v : Json) → or_zero (or_zero v) ≡ or_zero v
or_zero-again (number m k) = refl
or_zero-again (minus m k) = ground arith
or_zero-again null = refl
or_zero-again infinite = refl
or_zero-again (boolean c) = refl
or_zero-again (text s) = refl
or_zero-again (array vs) = refl
or_zero-again (object fs) = refl

safe_integer-number :
    (n : ℕ) → leb n 8640000000000000 ≡ true → safe_integer (some (number n 0)) ≡ some n
safe_integer-number n h = ground arith

-- What a location that was accepted satisfies.
record IsNormal (l : Location) : Type 0 where
  latitude_fits : is_between 90 90 l.latitude ≡ true
  longitude_fits : is_between 180 180 l.longitude ≡ true
  accuracy_fits : is_positive l.accuracy ≡ true
  timestamp_fits : leb l.timestamp 8640000000000000 ≡ true
  latitude_zero : or_zero l.latitude ≡ l.latitude
  longitude_zero : or_zero l.longitude ≡ l.longitude
  accuracy_zero : or_zero l.accuracy ≡ l.accuracy

location_of-IsNormal : (fields : List Entry) (l : Location) → location_of fields ≡ ok l → IsNormal l
unfolding location_of
location_of-IsNormal fields l h =
    >>=-elim (require InputError.invalid_location (length fields == 4)) _ l h λ _ _ h1.
      >>=-elim (or_throw InputError.invalid_location (get fields "latitude")) _ l h1 λ lat _ h2.
        >>=-elim (or_throw InputError.invalid_location (get fields "longitude")) _ l h2 λ lon _ h3.
          >>=-elim (or_throw InputError.invalid_location (get fields "accuracy")) _ l h3 λ acc _ h4.
            >>=-elim (or_throw InputError.invalid_location (safe_integer (get fields "timestamp")))
              _ l h4
              λ time _ h5.
                >>=-elim (require InputError.invalid_location (is_between 90 90 lat)) _ l h5
                  λ a ea h6.
                    >>=-elim (require InputError.invalid_location (is_between 180 180 lon)) _ l h6
                      λ b eb h7.
                        >>=-elim (require InputError.invalid_location (is_positive acc)) _ l h7
                          λ c ec h8.
                            >>=-elim
                              (require InputError.invalid_location (leb time 8640000000000000)) _ l
                              h8
                              λ d ed h9. subst IsNormal (ok_inj h9) (record {
                                latitude_fits = or_zero-between 90 90 lat (require-inv _ _ a ea);
                                longitude_fits = or_zero-between 180 180 lon (require-inv _ _ b eb);
                                accuracy_fits = or_zero-positive acc (require-inv _ _ c ec);
                                timestamp_fits = require-inv _ _ d ed;
                                latitude_zero = or_zero-again lat;
                                longitude_zero = or_zero-again lon;
                                accuracy_zero = or_zero-again acc;
                              })

location_of-again :
    (l : Location) → IsNormal l → location_of (entries_of (location_fields l)) ≡ ok l
unfolding location_of entries_of get
location_of-again l n =
    rw
      (
        safe_integer-number l.timestamp n.timestamp_fits,
        n.latitude_fits,
        n.longitude_fits,
        n.accuracy_fits,
        n.timestamp_fits,
        n.latitude_zero,
        n.longitude_zero,
        n.accuracy_zero,
      )
      refl

-- A location that was accepted is accepted again, as the object that it is, and does not change.
pub normalize_input_location-again :
    (v : Option Json) (l : Location)
    → normalize_input_location v ≡ ok (some l)
    → normalize_input_location (some (object (location_fields l))) ≡ ok (some l)
unfolding normalize_input_location
normalize_input_location-again none l h = absurd (none≢some _ (ok_inj h))
normalize_input_location-again (some v) l h =
    >>=-elim (or_throw InputError.invalid_location (fields_in (some v))) _ (some l) h λ fields _ h1.
      >>=-elim (location_of fields) _ (some l) h1 λ k e h2.
        let normal = location_of-IsNormal fields l (e ∙ ap ok (some_inj (ok_inj h2))) in
        rw (location_of-again l normal) refl
