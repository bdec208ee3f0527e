-- ===== src/Protocol/Command/Parsing.antt =====
-- parse_commands of command.rs: its loop, and payloads that are made of commands.
use atemproxy.Prelude.{
  ℕ, zero, suc, ◌+◌, ◌≤◌, ◌<◌, ◌≡◌, ◌⊎◌, inl, refl, ap, subst, ◌∙◌, sym, List, [], ◌∷◌, ◌++◌, arith,
  ltb, false, length, take, drop, map, flatten, All, length-append, take-append, drop-append,
  length-drop,
}
use native.Mathlib.Decide.{dec_lt}
use atemproxy.Prelude.Bytes.{to_be_bytes}
use atemproxy.Protocol.Error.{Result, ok, ◌>>=◌}
use atemproxy.Protocol.Command.{
  CommandName, name_bytes, CommandRef, serialize_command, frame_len, parse_round, parse_loop,
  parse_commands,
}

-- A command as it lies on the wire: its length, two reserved bytes, its name and its body.
pub record IsFramed (c : CommandRef) : Type 0 where
  pub r₀ : ℕ
  pub r₁ : ℕ
  pub fits : 8 + length c.body < 65536
  pub framing : c.raw ≡ to_be_bytes (8 + length c.body) ++ (r₀ ∷ r₁ ∷ name_bytes c.name ++ c.body)

pub serialize_command-IsFramed :
    (name : CommandName) (body : List ℕ)
    → 8 + length body < 65536
    → IsFramed (record { name = name; raw = serialize_command name body; body = body })
unfolding serialize_command
serialize_command-IsFramed name body h = record { r₀ = 0; r₁ = 0; fits = h; framing = refl }

-- The loop without its fuel.
abbrev pub parse_from : ℕ → List ℕ → Result (List CommandRef)
parse_from offset rest = parse_loop (length rest) offset rest

-- A frame shorter than its header ends the loop, whatever would follow.
parse_round_short :
    (offset : ℕ) (rest : List ℕ) (m n : Result (List CommandRef))
    → frame_len rest < 8 ⊎ (length rest < 8)
    → parse_round offset rest m ≡ parse_round offset rest n
unfolding parse_round
parse_round_short offset rest m n h = ground arith

drop_shorter : (len n : ℕ) (xs : List ℕ) → 0 < len → length xs ≤ suc n → length (drop len xs) ≤ n
drop_shorter len n xs h k = omega (arith, length-drop len xs)

parse_loop_fuel :
    (f g offset : ℕ) (rest : List ℕ)
    → length rest ≤ f
    → length rest ≤ g
    → parse_loop f offset rest ≡ parse_loop g offset rest
unfolding parse_loop
parse_loop_fuel zero zero offset rest p q = refl
parse_loop_fuel zero (suc g) offset [] p q = refl
parse_loop_fuel zero (suc g) offset (x ∷ rest) p q = absurd (omega arith)
parse_loop_fuel (suc f) zero offset [] p q = refl
parse_loop_fuel (suc f) zero offset (x ∷ rest) p q = absurd (omega arith)
parse_loop_fuel (suc f) (suc g) offset rest p q = elim (dec_lt 0 (frame_len rest)) [
  | yes h ↦ ap (parse_round offset rest) (
      parse_loop_fuel f g (offset + frame_len rest) (drop (frame_len rest) rest)
        (drop_shorter (frame_len rest) f rest h p) (drop_shorter (frame_len rest) g rest h q))
  | no h ↦ parse_round_short offset rest _ _ (inl (omega arith))
]

-- Running the loop of `parse_commands` on fuel that is the length of the rest satisfies the loop's
-- own equation, so that the fuel is always enough.
pub parse_from_lem :
    (offset : ℕ) (rest : List ℕ)
    → parse_from offset rest
      ≡ parse_round offset rest (parse_from (offset + frame_len rest) (drop (frame_len rest) rest))
unfolding parse_loop
parse_from_lem offset [] = refl
parse_from_lem offset (x ∷ rest) =
    let tail = drop (frame_len (x ∷ rest)) (x ∷ rest) in
    elim (dec_lt 0 (frame_len (x ∷ rest))) [
      | yes h ↦ ap (parse_round offset (x ∷ rest)) (
          parse_loop_fuel (length rest) (length tail) (offset + frame_len (x ∷ rest)) tail
            (drop_shorter (frame_len (x ∷ rest)) (length rest) (x ∷ rest) h (omega arith))
            (omega arith))
      | no h ↦ parse_round_short offset (x ∷ rest) _ _ (inl (omega arith))
    ]

abbrev framed : CommandName → ℕ → ℕ → List ℕ → List ℕ
framed name r₀ r₁ body = to_be_bytes (8 + length body) ++ (r₀ ∷ r₁ ∷ name_bytes name ++ body)

length-framed :
    (name : CommandName) (r₀ r₁ : ℕ) (body : List ℕ)
    → length (framed name r₀ r₁ body) ≡ 8 + length body
length-framed name r₀ r₁ body = omega arith

frame_len-framed :
    (name : CommandName) (r₀ r₁ : ℕ) (body rest : List ℕ)
    → 8 + length body < 65536
    → frame_len (framed name r₀ r₁ body ++ rest) ≡ 8 + length body
frame_len-framed name r₀ r₁ body rest h = omega arith

round_framed :
    (offset : ℕ) (name : CommandName) (r₀ r₁ : ℕ) (body rest : List ℕ)
    (more : Result (List CommandRef))
    → 8 + length body < 65536
    → parse_round offset (framed name r₀ r₁ body ++ rest) more ≡ (
        more >>= λ cmds.
        ok (record { name = name; raw = framed name r₀ r₁ body; body = body } ∷ cmds))
unfolding parse_round
round_framed offset name r₀ r₁ body rest more h =
    let len = frame_len-framed name r₀ r₁ body rest h in
    let whole : take (8 + length body) (framed name r₀ r₁ body ++ rest) ≡ framed name r₀ r₁ body =
      take-append (8 + length body) (framed name r₀ r₁ body) rest (length-framed name r₀ r₁ body) in
    let enough : ltb (length (framed name r₀ r₁ body ++ rest)) (8 + length body) ≡ false =
      ground (arith, length-append body rest) in
    let long : ltb (length (framed name r₀ r₁ body ++ rest)) 8 ≡ false =
      ground (arith, length-append body rest) in
    let fits : ltb (8 + length body) 8 ≡ false = ground arith in
    rw (len, whole, long, fits, enough) refl

from_framed :
    (offset : ℕ) (name : CommandName) (r₀ r₁ : ℕ) (body rest : List ℕ)
    → 8 + length body < 65536
    → parse_from offset (framed name r₀ r₁ body ++ rest) ≡ (
        parse_from (offset + (8 + length body)) rest >>= λ cmds.
        ok (record { name = name; raw = framed name r₀ r₁ body; body = body } ∷ cmds))
from_framed offset name r₀ r₁ body rest h =
    let len = frame_len-framed name r₀ r₁ body rest h in
    let tail : drop (8 + length body) (framed name r₀ r₁ body ++ rest) ≡ rest =
      drop-append (8 + length body) (framed name r₀ r₁ body) rest (length-framed name r₀ r₁ body) in
    parse_from_lem offset (framed name r₀ r₁ body ++ rest)
    ∙ round_framed offset name r₀ r₁ body rest _ h
    ∙ rw (len, tail) refl

-- A framed command at the head is parsed, and the rest goes to the next round.
pub parse_from-framed :
    (offset : ℕ) (c : CommandRef) (rest : List ℕ)
    → IsFramed c
    → parse_from offset (c.raw ++ rest)
      ≡ (parse_from (offset + (8 + length c.body)) rest >>= λ cmds. ok (c ∷ cmds))
parse_from-framed offset c rest v =
    subst
      (λ (d : CommandRef).
        parse_from offset (d.raw ++ rest)
        ≡ (parse_from (offset + (8 + length d.body)) rest >>= λ cmds. ok (d ∷ cmds)))
      (λ i. record c { raw = sym v.framing i })
      (from_framed offset c.name v.r₀ v.r₁ c.body rest v.fits)

-- The bytes of a list of commands.
abbrev pub wire : List CommandRef → List ℕ
wire cs = flatten (map (λ c. c.raw) cs)

parse_from-wire :
    (cs : List CommandRef) (offset : ℕ) → All IsFramed cs → parse_from offset (wire cs) ≡ ok cs
parse_from-wire [] offset v = unfold parse_loop in refl
parse_from-wire (c ∷ cs) offset v =
    parse_from-framed offset c (wire cs) v.0
    ∙ rw (parse_from-wire cs (offset + (8 + length c.body)) v.1) refl

-- Framed commands laid end to end are parsed back, none lost, split or reordered.
pub parse_commands-wire :
    (cs : List CommandRef) → All IsFramed cs → parse_commands (wire cs) ≡ ok cs
unfolding parse_commands
parse_commands-wire cs v = parse_from-wire cs 0 v
