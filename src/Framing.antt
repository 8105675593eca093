-- ===== src/Framing.antt =====
-- src/framing.mjs, and the same line decoder of the Pi RPC channel in src/session-actor.mjs.
-- A byte is a number. What the platform gives is a parameter: `read_line` is UTF-8 decoding and
-- `JSON.parse` of one line (with the error that the code raises for each), `write_frame` is
-- `Buffer.from(JSON.stringify(frame))`.
pub mod Stream
pub mod Counted
pub mod Chunks
pub mod RoundTrip
use persistent_harness.Prelude.{
  ℕ, ◌+◌, ◌-◌, List, [], ◌∷◌, ◌++◌, ltb, ◌==◌, if◌then◌else◌, length, concat, Outcome, ok, err,
}

pub data FrameError : Type 0 where
  empty_frame invalid_utf8 invalid_json frame_too_large partial_frame : FrameError

-- `#parts` and `#bytes`.
pub record Decoder : Type 0 where
  pub parts : List (List ℕ)
  pub bytes : ℕ

abbrev pub fresh : Decoder
fresh = record { parts = []; bytes = 0 }

-- A call of a method that may throw leaves the decoder as it was at the throw.
abbrev pub Call {ℓ} : Type ℓ → Type ℓ
Call A = Outcome FrameError A × Decoder

-- The rounds of the loop `while (start < source.length)`: the bytes before each newline that
-- `source.indexOf(0x0a, start)` finds, and what follows the last one.
abbrev Segments : Type 0
Segments = List (List ℕ) × List ℕ

abbrev pub add_byte : ℕ → Segments → Segments
add_byte b ([], tail) = ([], b ∷ tail)
add_byte b (l ∷ ls, tail) = ((b ∷ l) ∷ ls, tail)

pub segments : List ℕ → Segments
segments [] = ([], [])
segments (b ∷ bs) =
    let rest = segments bs in if b == 0x0a then ([] ∷ rest.0, rest.1) else add_byte b rest

-- `#append`: the byte count is raised before the limit is checked.
pub append : ℕ → Decoder → List ℕ → Outcome FrameError (Unit {0}) × Decoder
append max d [] = (ok tt, d)
append max d (b ∷ part) =
    let bytes = d.bytes + length (b ∷ part) in
    if ltb max bytes
    then (err frame_too_large, record { parts = d.parts; bytes = bytes })
    else (ok tt, record { parts = d.parts ++ (b ∷ part) ∷ []; bytes = bytes })

-- `line.at(-1) === 0x0d` drops one carriage return.
pub strip_return : List ℕ → List ℕ
strip_return [] = []
strip_return (b ∷ []) = if b == 0x0d then [] else b ∷ []
strip_return (b ∷ c ∷ bs) = b ∷ strip_return (c ∷ bs)

module _ {J : Type 0} (deliver : List ℕ → Outcome FrameError (List J)) (max : ℕ) where
  abbrev delivered : Outcome FrameError (Unit {0}) × Decoder → Call (List J)
  delivered (ok _, d) = (deliver (concat d.parts), fresh)
  delivered (err e, d) = (err e, d)

  -- One line: append its last part, empty `#parts`, and read the line.
  round : Decoder → List ℕ → Call (List J)
  round d line = delivered (append max d line)

  abbrev kept : List J → Outcome FrameError (Unit {0}) × Decoder → Call (List J)
  kept values (ok _, d) = (ok values, d)
  kept values (err e, d) = (err e, d)

  rounds : Decoder → List (List ℕ) → List ℕ → List J → Call (List J)
  rounds d [] tail values = kept values (append max d tail)
  rounds d (line ∷ lines) tail values =
      let (r, d') = round d line in
      elim r [ ok vs ↦ rounds d' lines tail (values ++ vs) | err e ↦ (err e, d') ]

  -- `push`, for what the loop does with a line.
  pub push_lines : Decoder → List ℕ → Call (List J)
  unfolding rounds round segments append
  push_lines d source = let (lines, tail) = segments source in rounds d lines tail []

module _ {J : Type 0} (read_line : List ℕ → Outcome FrameError J) where
  abbrev singleton : Outcome FrameError J → Outcome FrameError (List J)
  singleton (ok v) = ok (v ∷ [])
  singleton (err e) = err e

  -- `JsonLineDecoder`: a frame may not be empty, with or without its carriage return.
  pub read_json_line : List ℕ → Outcome FrameError (List J)
  read_json_line line = elim (strip_return line) [
    | [] ↦ err empty_frame
    | b ∷ bs ↦ singleton (read_line (b ∷ bs))
  ]

  -- `PiRpcLineDecoder`: an empty line is passed over.
  read_rpc_line : List ℕ → Outcome FrameError (List J)
  read_rpc_line line = elim (strip_return line) [
    | [] ↦ ok []
    | b ∷ bs ↦ singleton (read_line (b ∷ bs))
  ]

  unfoldable push : ℕ → Decoder → List ℕ → Call (List J)
  unfolding push_lines read_json_line
  push max = push_lines read_json_line max

  unfoldable push_rpc : ℕ → Decoder → List ℕ → Call (List J)
  unfolding push_lines read_rpc_line
  push_rpc max = push_lines read_rpc_line max

unfoldable finish : Decoder → Outcome FrameError (Unit {0})
finish d = if d.bytes == 0 then ok tt else err partial_frame

-- `encodeFrame`: one newline behind the text, which alone counts against the limit.
unfoldable pub encode_frame : {J : Type 0} → (J → List ℕ) → ℕ → J → Outcome FrameError (List ℕ)
encode_frame write_frame max frame =
    let payload = write_frame frame ++ 0x0a ∷ [] in
    if ltb max (length payload - 1) then err frame_too_large else ok payload
