-- ===== src/Proxy/Filter/Verdicts.antt =====
-- CommandFilter::process_payload of filter.rs: what becomes of the commands of a payload.
use atemproxy.Prelude.{
  ◌≡◌, ◌⊎◌, refl, sym, ◌∙◌, inl, inr, arith, Bool-cases, ==_iff, ℕ, Bool, not, true, false, none,
  some, List, [], ◌∷◌, ◌==◌, is_empty,
}
use atemproxy.Protocol.Error.{ProtocolError, ok, err, Result-cases}
use atemproxy.Protocol.Command.{CommandName, CommandRef, parse_commands}
use atemproxy.Protocol.Classify.{
  is_lock_request, is_transfer_command, is_audio_levels_subscribe, lock_store_id,
  lock_request_enabled,
}
use atemproxy.Protocol.Reliable.{Millis}
use atemproxy.Proxy.Net.{SocketAddr, add, discard}
use atemproxy.Proxy.Config.{LockMode, deny, single_owner}
use atemproxy.Proxy.Locks.{LockDecision, LockTable, client_lock_request, is_owner, owner_of}
use atemproxy.Proxy.Locks.Owners.{client_lock_request-Verdict, client_lock_request-keeps_owner}
use atemproxy.Proxy.Transfer.{TransferClientDecision, client_transfer, current_owner}
use atemproxy.Proxy.Transfer.Exclusive.{client_transfer-forward}
use atemproxy.Proxy.Filter.Disabling.{is_empty-add, is_empty-discard}
use atemproxy.Proxy.Filter.{
  FilterAction, FilterPolicy, FilterState, on_lock_request, on_transfer, on_audio, edge, subscribe,
  process_command, process_commands, process_payload, synthesize_audio_disable,
}

mode-cases : (m : LockMode) → (m ≡ deny) ⊎ (m ≡ single_owner)
mode-cases deny = inl refl
mode-cases single_owner = inr refl

lock-cases : (d : LockDecision) → (d ≡ LockDecision.forward) ⊎ (d ≡ LockDecision.drop)
lock-cases LockDecision.forward = inl refl
lock-cases LockDecision.drop = inr refl

transfer-cases :
    (d : TransferClientDecision)
    → (d ≡ TransferClientDecision.forward) ⊎ (d ≡ TransferClientDecision.drop)
transfer-cases TransferClientDecision.forward = inl refl
transfer-cases TransferClientDecision.drop = inr refl

module _ (policy : FilterPolicy) (from : SocketAddr) (now : Millis) where
  -- What may become of a command in a state: the action says what is sent to the switcher.
  abbrev pub Allowed : CommandRef → FilterState → FilterAction → Type 0
  Allowed cmd st (FilterAction.forward bytes) =
      (bytes ≡ cmd.raw)
      × (is_lock_request cmd.name ≡ true
          → (policy.lock_mode ≡ single_owner)
            × ((store : ℕ) (a : SocketAddr)
                → lock_store_id cmd.body ≡ some store
                → owner_of store st.locks ≡ some a
                → a ≡ from))
      × (is_lock_request cmd.name ≡ false
          → is_transfer_command cmd.name ≡ true
          → (policy.media.enabled ≡ true)
            × (is_owner from st.locks ≡ true)
            × ((current_owner st.lane ≡ none) ⊎ (current_owner st.lane ≡ some from)))
      × (is_lock_request cmd.name ≡ false
          → is_transfer_command cmd.name ≡ false
          → is_audio_levels_subscribe cmd.name ≡ false)
  Allowed cmd st (FilterAction.dropped name reason) =
      (name ≡ cmd.name)
      × ((is_lock_request cmd.name ≡ true) ⊎ (is_transfer_command cmd.name ≡ true))
  Allowed cmd st (FilterAction.audio_subscribe enable none) =
      is_audio_levels_subscribe cmd.name ≡ true
  Allowed cmd st (FilterAction.audio_subscribe enable (some bytes)) =
      (is_audio_levels_subscribe cmd.name ≡ true)
      × (((enable ≡ true) × (bytes ≡ cmd.raw) × (is_empty st.audio.clients ≡ true))
          ⊎ ((enable ≡ false)
              × (bytes ≡ synthesize_audio_disable cmd.raw)
              × (is_empty st.audio.clients ≡ false)
              × (is_empty (discard from st.audio.clients) ≡ true)))

  -- One action for each command, in order, each in the state that the ones before it leave.
  abbrev pub AllAllowed : List CommandRef → FilterState → List FilterAction → Type 0
  AllAllowed [] st [] = Unit
  AllAllowed [] st (action ∷ actions) = ⊥
  AllAllowed (cmd ∷ cmds) st [] = ⊥
  AllAllowed (cmd ∷ cmds) st (action ∷ actions) =
      Allowed cmd st action × AllAllowed cmds (process_command policy from now cmd st).0 actions

  granted_own :
      (name : CommandName) (body : List ℕ) (t : LockTable) (store : ℕ) (a : SocketAddr)
      → is_lock_request name ≡ true
      → (client_lock_request from name body t).1 ≡ LockDecision.forward
      → lock_store_id body ≡ some store
      → owner_of store t ≡ some a
      → a ≡ from
  granted_own name body t store a l f s o = elim (Bool-cases (a == from)) [
    | inl e ↦ (==_iff a from).0 e
    | inr e ↦
        let other = λ (p : a ≡ from). absurd (differs a e p) in
        let keeps = client_lock_request-keeps_owner from name body t store a o other in
        elim (client_lock_request-Verdict from name body t store l s) [
          | inl (_, _, _, d) ↦ absurd (cc)
          | inr (_, after) ↦ elim (Bool-cases (lock_request_enabled body)) [
            | inl w ↦ let mine : some a ≡ some from = sym keeps ∙ rw w at after in cc
            | inr w ↦ let free : some a ≡ none = sym keeps ∙ rw w at after in absurd (cc)
          ]
        ]
  ]
    where
      differs : (a : ℕ) → (a == from) ≡ false → a ≡ from → ⊥
      differs a e p = ground arith

  on_lock_request-Allowed :
      (cmd : CommandRef) (st : FilterState)
      → is_lock_request cmd.name ≡ true
      → Allowed cmd st (on_lock_request policy from cmd st).1
  unfolding on_lock_request
  on_lock_request-Allowed cmd st l = elim (mode-cases policy.lock_mode) [
    | inl m ↦ rw (m, on_lock_request) (refl, inl l)
    | inr m ↦ elim (lock-cases (client_lock_request from cmd.name cmd.body st.locks).1) [
      | inr d ↦ rw (m, on_lock_request, d) (refl, inl l)
      | inl d ↦
          rw (m, on_lock_request, d)
            (
              refl,
              λ _. (refl, λ store a. granted_own cmd.name cmd.body st.locks store a l d),
              λ k. absurd (cc (k, l)),
              λ k. absurd (cc (k, l)),
            )
    ]
  ]

  on_transfer-Allowed :
      (cmd : CommandRef) (st : FilterState)
      → is_lock_request cmd.name ≡ false
      → is_transfer_command cmd.name ≡ true
      → Allowed cmd st (on_transfer policy from cmd now st).1
  unfolding on_transfer
  on_transfer-Allowed cmd st l t = elim (Bool-cases policy.media.enabled) [
    | inr m ↦ simp m (refl, inr t)
    | inl m ↦
        let verdict =
          (client_transfer policy.media st.locks from cmd.name cmd.body now st.lane).1 in
        elim (transfer-cases verdict) [
          | inr d ↦ simp (m, d) (refl, inr t)
          | inl d ↦
              let (enabled, owns, lane, _) =
                client_transfer-forward policy.media st.locks from cmd.name cmd.body now st.lane t
                  d in
              simp (m, d)
                (
                  refl,
                  λ k. absurd (cc (k, l)),
                  λ _ _. (refl, owns, lane),
                  λ _ k. absurd (cc (k, t)),
                )
        ]
  ]

  -- The action of a request for audio levels, by what it asks for.
  abbrev asked : Bool → CommandRef → FilterState → FilterAction
  asked enable cmd st =
      elim (edge st.audio.clients (subscribe from enable cmd.raw st.audio).clients) [
        | none ↦ FilterAction.audio_subscribe enable none
        | some true ↦ FilterAction.audio_subscribe true (some cmd.raw)
        | some false ↦ FilterAction.audio_subscribe false (some (synthesize_audio_disable cmd.raw))
      ]

  edge-none :
      (before after : List SocketAddr) → is_empty before ≡ is_empty after → edge before after ≡ none
  unfolding edge
  edge-none before after e = elim (Bool-cases (is_empty after)) [
    | inl k ↦ rw (e, k) refl
    | inr k ↦ rw (e, k) refl
  ]

  edge-some :
      (before after : List SocketAddr) (full : Bool)
      → is_empty before ≡ full
      → is_empty after ≡ not full
      → edge before after ≡ some full
  unfolding edge
  edge-some before after true e k = rw (e, k) refl
  edge-some before after false e k = rw (e, k) refl

  asked-Allowed :
      (enable : Bool) (cmd : CommandRef) (st : FilterState)
      → is_audio_levels_subscribe cmd.name ≡ true
      → Allowed cmd st (asked enable cmd st)
  unfolding subscribe
  asked-Allowed true cmd st a =
      let before = st.audio.clients in
      let after = add from before in
      let filled = is_empty-add from before in
      elim (Bool-cases (is_empty before)) [
        | inl e ↦ rw (edge-some before after true e filled, Allowed) (a, inl (refl, refl, e))
        | inr e ↦ rw (edge-none before after (e ∙ sym filled), Allowed) a
      ]
  asked-Allowed false cmd st a =
      let before = st.audio.clients in
      let after = discard from before in
      elim (Bool-cases (is_empty after)) [
        | inl k ↦ elim (Bool-cases (is_empty before)) [
          | inl e ↦ rw (Allowed, edge-none before after (e ∙ sym k)) a
          | inr e ↦ rw (edge-some before after false e k, Allowed) (a, inr (refl, refl, e, k))
        ]
        | inr k ↦ rw (edge-none before after (is_empty-discard from before k ∙ sym k), Allowed) a
      ]

  on_audio-Allowed :
      (cmd : CommandRef) (st : FilterState)
      → is_audio_levels_subscribe cmd.name ≡ true
      → Allowed cmd st (on_audio from cmd st).1
  unfolding on_audio
  on_audio-Allowed cmd st a = asked-Allowed _ cmd st a

  process_command-Allowed :
      (cmd : CommandRef) (st : FilterState)
      → Allowed cmd st (process_command policy from now cmd st).1
  unfolding process_command
  process_command-Allowed cmd st = elim (Bool-cases (is_lock_request cmd.name)) [
    | inl l ↦ simp (l, process_command) (on_lock_request-Allowed cmd st l)
    | inr l ↦ elim (Bool-cases (is_transfer_command cmd.name)) [
      | inl t ↦ simp (l, t, process_command) (on_transfer-Allowed cmd st l t)
      | inr t ↦ elim (Bool-cases (is_audio_levels_subscribe cmd.name)) [
        | inl a ↦ simp (l, t, a, process_command) (on_audio-Allowed cmd st a)
        | inr a ↦
            rw (l, t, a, process_command)
              (refl, λ k. absurd (cc (k, l)), λ _ k. absurd (cc (k, t)), λ _ _. a)
      ]
    ]
  ]

  process_commands-AllAllowed :
      (cmds : List CommandRef) (st : FilterState)
      → AllAllowed cmds st (process_commands policy from now cmds st).1
  unfolding process_commands
  process_commands-AllAllowed [] st = tt
  process_commands-AllAllowed (cmd ∷ cmds) st = (
    process_command-Allowed cmd st,
    process_commands-AllAllowed cmds (process_command policy from now cmd st).0,
  )

  -- What becomes of a payload: the filter's state and its actions.
  abbrev pub Outcome : List ℕ → FilterState → FilterState × List FilterAction → Type 0
  Outcome payload st r =
      ((e : ProtocolError) × (parse_commands payload ≡ err e)
        × (r ≡ (st, FilterAction.forward payload ∷ [])))
      ⊎ ((cmds : List CommandRef) × (parse_commands payload ≡ ok cmds) × AllAllowed cmds st r.1)

  -- A payload that is not read as commands is forwarded whole, whatever the policy, and changes
  -- nothing. Of one that is, each command has one action, in order. A command is forwarded only as it
  -- came: a lock request only where the policy lets clients own locks and no other client owns the
  -- store; a command of a transfer only where media transfers are on, the client owns a lock and the
  -- lane is nobody's or its own. A request for audio levels is sent on only as it came from the first
  -- subscriber, or with its last byte cleared when the last one gives up. Only lock requests and
  -- commands of transfers are dropped.
  pub process_payload-Outcome :
      (payload : List ℕ) (st : FilterState)
      → Outcome payload st (process_payload policy from now payload st)
  unfolding process_payload
  process_payload-Outcome payload st = elim (Result-cases (parse_commands payload)) [
    | inr (e, p) ↦ inl (e, p, rw (p, process_payload) refl)
    | inl (cmds, p) ↦ inr (cmds, p, rw (p, process_payload) (process_commands-AllAllowed cmds st))
  ]
