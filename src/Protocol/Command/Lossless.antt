-- ===== src/Protocol/Command/Lossless.antt =====
-- parse_commands of command.rs: the payloads that it accepts.
use atemproxy.Prelude.{
  ℕ, zero, suc, ◌+◌, ◌-◌, ◌/◌, ◌%◌, ◌≤◌, ◌≡◌, refl, ap, ◌∙◌, sym, List, [], ◌∷◌, arith, length,
  take, drop, All, length-take, take-append-drop, All-drop,
}
use atemproxy.Prelude.Bytes.{AreBytes, IsByte}
use atemproxy.Protocol.Error.{Result, ok, err}
use atemproxy.Protocol.Command.{
  CommandName, command_name, CommandRef, frame_len, parse_round, parse_loop, parse_commands,
}
use atemproxy.Protocol.Command.Parsing.{IsFramed, wire}

take_eight :
    (len b₀ b₁ b₂ b₃ b₄ b₅ b₆ b₇ : ℕ) (tail : List ℕ)
    → 8 ≤ len
    → take len (b₀ ∷ b₁ ∷ b₂ ∷ b₃ ∷ b₄ ∷ b₅ ∷ b₆ ∷ b₇ ∷ tail)
      ≡ b₀ ∷ b₁ ∷ b₂ ∷ b₃ ∷ b₄ ∷ b₅ ∷ b₆ ∷ b₇ ∷ take (len - 8) tail
take_eight (suc (suc (suc (suc (suc (suc (suc (suc n)))))))) b₀ b₁ b₂ b₃ b₄ b₅ b₆ b₇ tail h =
    ap (λ (k : ℕ). b₀ ∷ b₁ ∷ b₂ ∷ b₃ ∷ b₄ ∷ b₅ ∷ b₆ ∷ b₇ ∷ take k tail) (omega arith)
take_eight _ b₀ b₁ b₂ b₃ b₄ b₅ b₆ b₇ tail h = absurd (omega arith)

-- What a round that succeeds has read.
data Round (rest : List ℕ) (more : Result (List CommandRef)) (cs : List CommandRef) : Type 0 where
  stop : rest ≡ [] → cs ≡ [] → Round rest more cs
  read :
      (c : CommandRef) (later : List CommandRef)
      → IsFramed c
      → c.raw ≡ take (frame_len rest) rest
      → more ≡ ok later
      → cs ≡ c ∷ later
      → Round rest more cs

-- The command that a round reads from eight bytes and the tail.
abbrev command_at : List ℕ → CommandName → CommandRef
command_at rest name = record {
  name = name;
  raw = take (frame_len rest) rest;
  body = drop 8 (take (frame_len rest) rest);
}

module _ (b₀ b₁ b₂ b₃ b₄ b₅ b₆ b₇ : ℕ) (tail : List ℕ)
    (a : AreBytes (b₀ ∷ b₁ ∷ b₂ ∷ b₃ ∷ b₄ ∷ b₅ ∷ b₆ ∷ b₇ ∷ tail)) where
  abbrev all : List ℕ
  all = b₀ ∷ b₁ ∷ b₂ ∷ b₃ ∷ b₄ ∷ b₅ ∷ b₆ ∷ b₇ ∷ tail

  abbrev here : CommandRef
  here = command_at all (command_name b₄ b₅ b₆ b₇)

  raw_here :
      8 ≤ frame_len all
      → here.raw ≡ b₀ ∷ b₁ ∷ b₂ ∷ b₃ ∷ b₄ ∷ b₅ ∷ b₆ ∷ b₇ ∷ take (frame_len all - 8) tail
  raw_here h = take_eight (frame_len all) b₀ b₁ b₂ b₃ b₄ b₅ b₆ b₇ tail h

  body_here : 8 ≤ frame_len all → here.body ≡ take (frame_len all - 8) tail
  body_here h = ap (drop 8) (raw_here h)

  here-IsFramed : 8 ≤ frame_len all → frame_len all ≤ length all → IsFramed here
  here-IsFramed h k =
      let n : 8 + length here.body ≡ frame_len all =
        omega (arith, ap length (body_here h), length-take (frame_len all - 8) tail) in
      let hi : b₀ ≡ (8 + length here.body) % 65536 / 256 = omega arith in
      let lo : b₁ ≡ (8 + length here.body) % 256 = omega arith in
      record {
        r₀ = b₂;
        r₁ = b₃;
        fits = omega arith;
        framing =
            raw_here h ∙ (λ i. hi i ∷ lo i ∷ b₂ ∷ b₃ ∷ b₄ ∷ b₅ ∷ b₆ ∷ b₇ ∷ sym (body_here h) i);
      }

  Round-here :
      (offset : ℕ) (more : Result (List CommandRef)) (cs : List CommandRef)
      → parse_round offset all more ≡ ok cs
      → Round all more cs
  unfolding parse_round
  Round-here offset (ok later) cs e =
      let n : (8 ≤ frame_len all) × (frame_len all ≤ length all) × (cs ≡ here ∷ later) =
        ground arith in
      read here later (here-IsFramed n.0 n.1) refl refl n.2
  Round-here offset (err x) cs e = absurd (ground arith)

Round-read :
    (offset : ℕ) (rest : List ℕ) (more : Result (List CommandRef)) (cs : List CommandRef)
    → AreBytes rest
    → parse_round offset rest more ≡ ok cs
    → Round rest more cs
unfolding parse_round
Round-read offset (b₀ ∷ b₁ ∷ b₂ ∷ b₃ ∷ b₄ ∷ b₅ ∷ b₆ ∷ b₇ ∷ tail) more cs a e =
    Round-here b₀ b₁ b₂ b₃ b₄ b₅ b₆ b₇ tail a offset more cs e
Round-read offset [] more cs a e = stop refl (ground arith)
Round-read offset _ more cs a e = absurd (ground arith)

parse_loop_sound :
    (fuel offset : ℕ) (rest : List ℕ) (cs : List CommandRef)
    → AreBytes rest
    → parse_loop fuel offset rest ≡ ok cs
    → All IsFramed cs × (wire cs ≡ rest)
unfolding parse_loop
parse_loop_sound zero offset [] cs a e = let n : cs ≡ [] = ground arith in rw n (tt, refl)
parse_loop_sound zero offset (x ∷ rest) cs a e = absurd (ground arith)
parse_loop_sound (suc fuel) offset rest cs a e =
    elim (Round-read offset rest
      (parse_loop fuel (offset + frame_len rest) (drop (frame_len rest) rest)) cs a e) [
        | stop r c ↦ rw (c, r) (tt, refl)
        | read c later f w m n ↦
            let (v, t) =
              parse_loop_sound fuel (offset + frame_len rest) (drop (frame_len rest) rest) later
                (All-drop IsByte (frame_len rest) rest a) m in
            rw n ((f, v), rw (w, t) (take-append-drop (frame_len rest) rest))
      ]

-- A payload of bytes that is accepted is exactly its commands laid end to end, each well framed.
pub wire-parse_commands :
    (payload : List ℕ) (cs : List CommandRef)
    → AreBytes payload
    → parse_commands payload ≡ ok cs
    → All IsFramed cs × (wire cs ≡ payload)
unfolding parse_commands
wire-parse_commands payload cs a e = parse_loop_sound (length payload) 0 payload cs a e
