-- ===== src/Protocol/Reliable/Packing.antt =====
-- ReliableEndpoint::queue_commands_packed of reliable.rs: commands and payloads.
use atemproxy.Prelude.{
  flatten-append, ℕ, ◌+◌, ◌≤◌, ◌≡◌, ◌≢◌, refl, ap, ◌⊎◌, inl, inr, true, false, Bool, List, [], ◌∷◌,
  ◌++◌, arith, length, map, flatten, All, All-append, length-append, append-nil, append_assoc, ltb,
  not, ◌&&◌, is_empty, Bool-cases,
}
use atemproxy.Protocol.Reliable.{
  pack, queue_commands_packed, ReliableEndpoint, max_packet_len, header_len,
}

-- A packet's commands fit the packing size together, or there is one command that cannot.
abbrev pub FitsPacket : List (List ℕ) → Type 0
FitsPacket group = (12 + length (flatten group) ≤ 1400) ⊎ ((c : List ℕ) × (group ≡ c ∷ []))

abbrev pub NonEmpty : List ℕ → Type 0
NonEmpty cmd = cmd ≢ []

-- The commands that each payload of `payloads` is made of.
pub record Grouping (commands payloads : List (List ℕ)) : Type 0 where
  pub groups : List (List (List ℕ))
  pub in_order : flatten groups ≡ commands
  pub contents : map flatten groups ≡ payloads
  pub sizes : All FitsPacket groups

flatten-eq-nil : (g : List (List ℕ)) → All NonEmpty g → is_empty (flatten g) ≡ true → g ≡ []
flatten-eq-nil [] v e = refl
flatten-eq-nil ([] ∷ g) v e = absurd (v.0 refl)
flatten-eq-nil ((x ∷ c) ∷ g) v e = cc

-- One group more in front.
group-cons :
    {commands payloads : List (List ℕ)} (g : List (List ℕ))
    → FitsPacket g
    → Grouping commands payloads
    → Grouping (g ++ commands) (flatten g ∷ payloads)
group-cons g f r = record {
  groups = g ∷ r.groups;
  in_order = ap (◌++◌ g) r.in_order;
  contents = ap (◌∷◌ (flatten g)) r.contents;
  sizes = (f, r.sizes);
}

abbrev is_full : List ℕ → List ℕ → Bool
is_full current cmd =
    ltb max_packet_len (header_len + length current + length cmd) && not (is_empty current)

abbrev is_oversized : List ℕ → Bool
is_oversized cmd = ltb max_packet_len (header_len + length cmd)

-- An oversized command is a group of its own.
alone :
    {commands payloads : List (List ℕ)} (cmd : List ℕ)
    → Grouping commands payloads
    → Grouping (cmd ∷ commands) (cmd ∷ payloads)
alone cmd r = rw (append-nil cmd) at (group-cons (cmd ∷ []) (inr (cmd, refl)) r)

no_room :
    (current cmd : List ℕ)
    → is_full current cmd ≡ false
    → is_oversized cmd ≡ true
    → is_empty current ≡ true
no_room current cmd room big = ground arith

length-join :
    (group : List (List ℕ)) (cmd : List ℕ)
    → length (flatten (group ++ cmd ∷ [])) ≡ length (flatten group) + length cmd
length-join group cmd =
    rw (flatten-append group (cmd ∷ []), append-nil cmd) (length-append (flatten group) cmd)

joined :
    (group : List (List ℕ)) (cmd : List ℕ)
    → All NonEmpty group
    → is_full (flatten group) cmd ≡ false
    → FitsPacket (group ++ cmd ∷ [])
joined group cmd v room = elim (Bool-cases (is_empty (flatten group))) [
  | inl e ↦ let n = flatten-eq-nil group v e in inr (cmd, rw n)
  | inr e ↦ inl (ground (arith, length-join group cmd))
]

-- `group` is what the payload being filled is made of.
pack-Grouping :
    (group cmds : List (List ℕ))
    → All NonEmpty group
    → All NonEmpty cmds
    → FitsPacket group
    → Grouping (group ++ cmds) (pack (flatten group) cmds)
unfolding pack
pack-Grouping group [] v w f = elim (Bool-cases (is_empty (flatten group))) [
  | inl e ↦
      let n = flatten-eq-nil group v e in
      rw e (rw n (record { groups = []; in_order = refl; contents = refl; sizes = tt }))
  | inr e ↦
      rw e
        (group-cons group f (record { groups = []; in_order = refl; contents = refl; sizes = tt }))
]
pack-Grouping group (cmd ∷ cmds) v w f = elim (Bool-cases (is_full (flatten group) cmd)) [
  | inl full ↦ elim (Bool-cases (is_oversized cmd)) [
    | inl big ↦
        rw (full, big)
          (group-cons group f (alone cmd (pack-Grouping [] cmds tt w.1 (inl (omega arith)))))
    | inr small ↦
        rw (full, small)
          (group-cons group f (
            rw (append-nil cmd) at (pack-Grouping (cmd ∷ []) cmds (w.0, tt) w.1 (inr (cmd, refl)))))
  ]
  | inr room ↦ elim (Bool-cases (is_oversized cmd)) [
    | inl big ↦
        let n = flatten-eq-nil group v (no_room (flatten group) cmd room big) in
        rw (room, big) (rw n (alone cmd (pack-Grouping [] cmds tt w.1 (inl (omega arith)))))
    | inr small ↦
        rw (room, small)
          (rw (append_assoc, flatten-append, append-nil) at
            (pack-Grouping (group ++ cmd ∷ []) cmds
              (All-append NonEmpty group (cmd ∷ []) v (w.0, tt)) w.1 (joined group cmd v room)))
  ]
]

pub packed-Grouping :
    (commands : List (List ℕ)) → All NonEmpty commands → Grouping commands (pack [] commands)
packed-Grouping commands v = pack-Grouping [] commands tt v (inl (omega arith))

-- What is queued for a list of commands is made of those commands, whole and in order; a payload
-- keeps to the packing size unless it is one command that is too long by itself.
pub queue_commands_packed-Grouping :
    (commands : List (List ℕ)) (ep : ReliableEndpoint)
    → All NonEmpty commands
    → (payloads : List (List ℕ)) × ((queue_commands_packed commands ep).outbound
        ≡ ep.outbound ++ payloads)
      × Grouping commands payloads
unfolding queue_commands_packed
queue_commands_packed-Grouping commands ep v = (pack [] commands, refl, packed-Grouping commands v)
