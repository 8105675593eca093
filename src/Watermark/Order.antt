-- ===== src/Watermark/Order.antt =====
-- What an accepted mark of src/source-watermark.mjs is of, and the order of marks.
use persistent_harness.Prelude.{
  ℕ, suc, ◌+◌, ◌≤◌, ◌≡◌, refl, ◌∙◌, Bool, ◌&&◌, [], ◌∷◌, length, String, true, some, List, str_eq,
  Option-cases, none≢some, inl, inr, eq_iff, arith,
}
use persistent_harness.Watermark.{
  RawMark, Mark, Source, read_mark, accept, normalize_source_watermark, follows_source_watermark,
}

-- The second mark is of the same file of the same owner, at least so many bytes and entries further on,
-- and of no earlier revision.
pub record IsLater (n : ℕ) (base next : Mark) : Type 0 where
  pub owner : base.owner ≡ next.owner
  pub epoch : base.epoch ≡ next.epoch
  pub generation : base.generation ≡ next.generation
  pub session_id : base.session_id ≡ next.session_id
  pub session_file : base.session_file ≡ next.session_file
  pub dev : base.fingerprint.dev ≡ next.fingerprint.dev
  pub ino : base.fingerprint.ino ≡ next.fingerprint.ino
  pub bytes : base.bytes + n ≤ next.bytes
  pub sequence : base.sequence + n ≤ next.sequence
  pub revision : base.revision ≤ next.revision

follows-IsLater :
    (base next : Mark) → follows_source_watermark base next ≡ true → IsLater 1 base next
unfolding follows_source_watermark
follows-IsLater base next h = record {
  owner = grind (arith, eq_iff);
  epoch = ground arith;
  generation = ground arith;
  session_id = grind (arith, eq_iff);
  session_file = grind (arith, eq_iff);
  dev = grind (arith, eq_iff);
  ino = grind (arith, eq_iff);
  bytes = ground arith;
  sequence = ground arith;
  revision = ground arith;
}

IsLater-step : (n : ℕ) (a b c : Mark) → IsLater 1 a b → IsLater n b c → IsLater (suc n) a c
IsLater-step n a b c p q = record {
  owner = p.owner ∙ q.owner;
  epoch = p.epoch ∙ q.epoch;
  generation = p.generation ∙ q.generation;
  session_id = p.session_id ∙ q.session_id;
  session_file = p.session_file ∙ q.session_file;
  dev = p.dev ∙ q.dev;
  ino = p.ino ∙ q.ino;
  bytes = omega arith;
  sequence = omega arith;
  revision = omega arith;
}

-- Each mark of a list follows the one before it, the first the mark that is given.
abbrev follow_up : Mark → List Mark → Bool
follow_up base [] = true
follow_up base (next ∷ marks) = follows_source_watermark base next && follow_up next marks

abbrev last_mark : Mark → List Mark → Mark
last_mark base [] = base
last_mark base (next ∷ marks) = last_mark next marks

-- Where marks follow one another, the last is of the same file of the same owner as the first, it is
-- of no earlier revision, and with each mark between at least one byte and one entry were read.
pub follow_up-IsLater :
    (base : Mark) (marks : List Mark)
    → follow_up base marks ≡ true
    → IsLater (length marks) base (last_mark base marks)
follow_up-IsLater base [] h = record {
  owner = refl;
  epoch = refl;
  generation = refl;
  session_id = refl;
  session_file = refl;
  dev = refl;
  ino = refl;
  bytes = omega arith;
  sequence = omega arith;
  revision = omega arith;
}
follow_up-IsLater base (next ∷ marks) h =
    IsLater-step (length marks) base next (last_mark next marks)
      (follows-IsLater base next (left h)) (follow_up-IsLater next marks (right h))
  where
    left :
        follows_source_watermark base next && follow_up next marks ≡ true
        → follows_source_watermark base next ≡ true
    left h = ground arith

    right :
        follows_source_watermark base next && follow_up next marks ≡ true
        → follow_up next marks ≡ true
    right h = ground arith

module _ (resolve : String → String) (byte_length : String → ℕ) (units : String → List ℕ)
    (show : ℕ → String) where
  accept_lem :
      (source : Source) (m' m : Mark)
      → accept resolve byte_length units show (some source) m' ≡ some m
      → (str_eq source.session_id m.session_id ≡ true)
        × (str_eq (resolve source.session_file) m.session_file ≡ true)
        × (str_eq m.fingerprint.size (show m.bytes) ≡ true)
  unfolding accept
  accept_lem source m' m h = ground arith

  -- A mark that is accepted for a session is of its id and its resolved file, and its fingerprint has
  -- the size that it was read up to.
  pub normalize_source_watermark_lem :
      (v : RawMark) (source : Source) (m : Mark)
      → normalize_source_watermark resolve byte_length units show (some v) (some source) ≡ some m
      → (str_eq source.session_id m.session_id ≡ true)
        × (str_eq (resolve source.session_file) m.session_file ≡ true)
        × (str_eq m.fingerprint.size (show m.bytes) ≡ true)
  unfolding normalize_source_watermark
  normalize_source_watermark_lem v source m h =
      elim (Option-cases (read_mark resolve byte_length units show v)) [
        | inl e ↦ absurd (none≢some m (rw (e, normalize_source_watermark) at h))
        | inr (m', e) ↦ accept_lem source m' m (rw (e, normalize_source_watermark) at h)
      ]
