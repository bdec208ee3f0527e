-- ===== src/Protocol/Command/Refusals.antt =====
-- parse_commands of command.rs on payloads that are not made of commands alone.
use atemproxy.Prelude.{
  Bool-cases, ℕ, ◌+◌, ◌<◌, ◌≡◌, ◌≢◌, ◌⊎◌, inl, inr, refl, ap, ◌∙◌, true, List, [], ◌∷◌, ◌++◌, arith,
  ltb, length, All, length-append, append_assoc, ◌||◌,
}
use atemproxy.Protocol.Error.{Result, err, bad_command}
use atemproxy.Protocol.Command.{CommandRef, frame_len, parse_round, parse_commands}
use atemproxy.Protocol.Command.Parsing.{
  IsFramed, parse_from, parse_from_lem, parse_from-framed, wire,
}

-- Bytes that do not begin with a command: fewer than a frame's header, or a length that is shorter
-- than the header or longer than the bytes.
abbrev pub IsBad : List ℕ → Type 0
IsBad junk =
    (junk ≢ []) × ((length junk < 8) ⊎ ((frame_len junk < 8) ⊎ (length junk < frame_len junk)))

bad_length :
    (offset x : ℕ) (junk : List ℕ) (more : Result (List CommandRef))
    → (ltb (frame_len (x ∷ junk)) 8 || ltb (length (x ∷ junk)) (frame_len (x ∷ junk))) ≡ true
    → parse_round offset (x ∷ junk) more ≡ err (bad_command offset)
unfolding parse_round
bad_length offset x junk more e = elim (Bool-cases (ltb (length (x ∷ junk)) 8)) [
  | inl short ↦ rw short refl
  | inr long ↦ rw (long, e) refl
]

bad_round :
    (offset : ℕ) (junk : List ℕ) (more : Result (List CommandRef))
    → IsBad junk
    → parse_round offset junk more ≡ err (bad_command offset)
unfolding parse_round
bad_round offset [] more v = absurd (v.0 refl)
bad_round offset (x ∷ junk) more (_, inl short) =
    let e : ltb (length (x ∷ junk)) 8 ≡ true = ground arith in rw e refl
bad_round offset (x ∷ junk) more (_, inr bad) = bad_length offset x junk more (ground arith)

length-raw : (c : CommandRef) → IsFramed c → length c.raw ≡ 8 + length c.body
length-raw c v = ap length v.framing ∙ omega arith

parse_from-bad :
    (cs : List CommandRef) (offset : ℕ) (junk : List ℕ)
    → All IsFramed cs
    → IsBad junk
    → parse_from offset (wire cs ++ junk) ≡ err (bad_command (offset + length (wire cs)))
parse_from-bad [] offset junk v b =
    parse_from_lem offset junk
    ∙ bad_round offset junk _ b
    ∙ ap (λ n. err (bad_command n)) (omega arith)
parse_from-bad (c ∷ cs) offset junk v b =
    let n = length-raw c v.0 in
    ap (parse_from offset) (append_assoc c.raw (wire cs) junk)
    ∙ parse_from-framed offset c (wire cs ++ junk) v.0
    ∙ rw (parse_from-bad cs (offset + (8 + length c.body)) junk v.1 b)
        (ap (λ k. err (bad_command k)) (omega (arith, length-append c.raw (wire cs))))

-- A payload of commands laid end to end, followed by bytes that do not begin with a command, is
-- refused whole, with the offset at which these bytes begin.
pub parse_commands-bad :
    (cs : List CommandRef) (junk : List ℕ)
    → All IsFramed cs
    → IsBad junk
    → parse_commands (wire cs ++ junk) ≡ err (bad_command (length (wire cs)))
unfolding parse_commands
parse_commands-bad cs junk v b =
    parse_from-bad cs 0 junk v b ∙ ap (λ n. err (bad_command n)) (omega arith)
