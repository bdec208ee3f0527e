-- ===== src/Proxy/Filter/Audio.antt =====
-- The multiplexing of audio subscriptions in filter.rs: what the switcher hears of them.
use atemproxy.Protocol.Error.{ok, err}
use atemproxy.Protocol.Command.Parsing.{IsFramed, parse_commands-wire}
use atemproxy.Prelude.{
  sym, ap, ◌∙◌, inl, inr, ◌⊎◌, Bool-cases, Option, append-nil, ◌++◌, some, not, ◌≡◌, refl, arith, ℕ,
  Bool, true, false, none, List, [], ◌∷◌, is_empty, ◌==◌, if◌then◌else◌,
}
use atemproxy.Protocol.Command.{CommandRef, parse_commands}
use atemproxy.Protocol.Classify.{is_audio_levels_subscribe}
use atemproxy.Proxy.Server.{apply_actions}
use atemproxy.Proxy.Net.{SocketAddr, member, discard}
use atemproxy.Proxy.Filter.{
  FilterAction, AudioSubs, FilterState, parse_enable_flag, synthesize_audio_disable, subscribe,
  edge, on_audio, leave_audio,
}
use atemproxy.Proxy.Filter.Disabling.{
  synthesize_audio_disable-read, parse_enable_flag-append, is_empty-add, is_empty-discard,
  member-of-emptied,
}

-- What happens to the audio subscriptions: a client's command, or its disconnection.
pub data AudioOp : Type 0 where
  request : SocketAddr → CommandRef → AudioOp
  leave : SocketAddr → AudioOp

-- A request for audio levels: whole, and with a body, whose last byte says what is wanted.
pub record IsRequest (cmd : CommandRef) : Type 0 where
  pub framed : IsFramed cmd
  pub about_audio : is_audio_levels_subscribe cmd.name ≡ true
  pub front : List ℕ
  pub flag : ℕ
  pub spelled : cmd.body ≡ front ++ flag ∷ []

abbrev pub AreRequests : List AudioOp → Type 0
AreRequests [] = Unit
AreRequests (request from cmd ∷ ops) = IsRequest cmd × AreRequests ops
AreRequests (leave addr ∷ ops) = AreRequests ops

-- A switcher that does what the last byte of a request's body says: `true` while it sends levels.
abbrev pub says : List ℕ → Bool → Bool
says [] on = on
says (b ∷ []) on = not (b == 0)
says (b ∷ c ∷ bs) on = says (c ∷ bs) on

abbrev pub heed : List CommandRef → Bool → Bool
heed [] on = on
heed (cmd ∷ cmds) on =
    heed cmds (if is_audio_levels_subscribe cmd.name then says cmd.body on else on)

-- It reads the bytes that it is sent.
unfoldable pub hear : List ℕ → Bool → Bool
hear bytes on = elim (parse_commands bytes) [ err _ ↦ on | ok cmds ↦ heed cmds on ]

unfoldable pub hear_all : List (List ℕ) → Bool → Bool
hear_all [] on = on
hear_all (bytes ∷ sent) on = hear_all sent (hear bytes on)

-- The switcher after the commands that the proxy makes of an action.
unfoldable pub told_by : FilterAction → Bool → Bool
told_by action on = hear_all (apply_actions (action ∷ []) false).1 on

abbrev perform : AudioOp → Bool × FilterState → Bool × FilterState
perform (request from cmd) (on, st) =
    let (st', action) = on_audio from cmd st in (told_by action on, st')
perform (leave addr) (on, st) =
    let (audio, disables) = leave_audio addr st.audio in
    (hear_all disables on, record st { audio = audio })

-- The operations of a list, the last first, from a filter without subscribers.
abbrev pub audio_run : List AudioOp → FilterState → Bool × FilterState
audio_run [] st = (false, st)
audio_run (op ∷ ops) st = perform op (audio_run ops st)

-- The last command that enabled the levels is a request.
record IsEnable (raw : List ℕ) : Type 0 where
  cmd : CommandRef
  is_request : IsRequest cmd
  same_raw : raw ≡ cmd.raw

abbrev Enables : Option (List ℕ) → Type 0
Enables none = ⊥
Enables (some raw) = IsEnable raw

-- The switcher sends levels while some client is subscribed, and the command to stop it is known.
abbrev InSync : Bool × FilterState → Type 0
InSync s =
    let (on, st) = s in
    (on ≡ not (is_empty st.audio.clients))
    × (is_empty st.audio.clients ≡ false → Enables st.audio.last_enable)

says-append : (xs : List ℕ) (b : ℕ) (on : Bool) → says (xs ++ b ∷ []) on ≡ not (b == 0)
says-append [] b on = refl
says-append (x ∷ []) b on = refl
says-append (x ∷ y ∷ xs) b on = says-append (y ∷ xs) b on

hear-request :
    (cmd : CommandRef) (on : Bool) (r : IsRequest cmd) → hear cmd.raw on ≡ not (r.flag == 0)
unfolding hear
hear-request cmd on r =
    let read : parse_commands cmd.raw ≡ ok (cmd ∷ []) =
      ap parse_commands (sym (append-nil cmd.raw))
      ∙ parse_commands-wire (cmd ∷ []) (r.framed, tt) in
    rw (read, hear, r.about_audio)
      (ap (λ body. says body on) r.spelled ∙ says-append r.front r.flag on)

hear-disable :
    (cmd : CommandRef) (on : Bool)
    → IsRequest cmd
    → hear (synthesize_audio_disable cmd.raw) on ≡ false
unfolding hear
hear-disable cmd on r =
    let read = (synthesize_audio_disable-read cmd r.front r.flag r.framed r.spelled).0 in
    rw (read, hear, r.about_audio) (says-append r.front 0 on)

told_by-none : (enable on : Bool) → told_by (FilterAction.audio_subscribe enable none) on ≡ on
unfolding told_by apply_actions hear_all
told_by-none enable on = refl

told_by-some :
    (enable on : Bool) (raw : List ℕ)
    → told_by (FilterAction.audio_subscribe enable (some raw)) on ≡ hear raw on
unfolding told_by apply_actions hear_all
told_by-some enable on raw = refl

-- The two kinds of request, by the flag that `on_audio` reads.
enabled-InSync :
    (from : SocketAddr) (cmd : CommandRef) (on : Bool) (st : FilterState)
    → parse_enable_flag cmd.body ≡ some true
    → IsRequest cmd
    → hear cmd.raw on ≡ true
    → InSync (on, st)
    → InSync (perform (request from cmd) (on, st))
unfolding on_audio subscribe edge parse_enable_flag told_by apply_actions
enabled-InSync from cmd on st f r said h =
    let filled = is_empty-add from st.audio.clients in
    let known : IsEnable cmd.raw = record { cmd = cmd; is_request = r; same_raw = refl } in
    elim (Bool-cases (is_empty st.audio.clients)) [
      | inl e ↦ rw (f, on_audio, e, filled) (told_by-some true on cmd.raw ∙ said, λ _. known)
      | inr e ↦ rw (f, on_audio, e, filled) (told_by-none true on ∙ h.0 ∙ ap not e, λ _. known)
    ]

disabled-InSync :
    (from : SocketAddr) (cmd : CommandRef) (on : Bool) (st : FilterState)
    → parse_enable_flag cmd.body ≡ some false
    → hear (synthesize_audio_disable cmd.raw) on ≡ false
    → InSync (on, st)
    → InSync (perform (request from cmd) (on, st))
unfolding on_audio subscribe edge parse_enable_flag told_by apply_actions
disabled-InSync from cmd on st f said h =
    let rest = discard from st.audio.clients in
    let stop = synthesize_audio_disable cmd.raw in
    let keeps = λ (e : is_empty rest ≡ false). h.1 (is_empty-discard from st.audio.clients e) in
    elim (Bool-cases (is_empty st.audio.clients)) [
      | inl e ↦
          let still : is_empty rest ≡ true =
            ground (arith, is_empty-discard from st.audio.clients) in
          rw (f, on_audio, e, still) (told_by-none false on ∙ h.0 ∙ ap not e, λ k. absurd (cc))
      | inr e ↦ elim (Bool-cases (is_empty rest)) [
        | inl k ↦ rw (f, on_audio, e, k) (told_by-some false on stop ∙ said, λ x. absurd (cc))
        | inr k ↦ rw (f, on_audio, e, k) (told_by-none false on ∙ h.0 ∙ ap not e, λ _. keeps k)
      ]
    ]

request-InSync :
    (from : SocketAddr) (cmd : CommandRef) (s : Bool × FilterState)
    → IsRequest cmd
    → InSync s
    → InSync (perform (request from cmd) s)
request-InSync from cmd (on, st) r h =
    let read = ap parse_enable_flag r.spelled ∙ parse_enable_flag-append r.front r.flag in
    elim (Bool-cases (r.flag == 0)) [
      | inl e ↦ disabled-InSync from cmd on st (rw e at read) (hear-disable cmd on r) h
      | inr e ↦ enabled-InSync from cmd on st (rw e at read) r (hear-request cmd on r ∙ ap not e) h
    ]

leave-on :
    (clients : List SocketAddr) (addr : SocketAddr) (last : Option (List ℕ)) (on : Bool)
    → is_empty (discard addr clients) ≡ true
    → is_empty clients ≡ false
    → Enables last
    → hear_all (leave_audio addr (record { clients = clients; last_enable = last })).1 on ≡ false
unfolding leave_audio hear_all
leave-on clients addr none on k e h = absurd h
leave-on clients addr (some raw) on k e h =
    rw (member-of-emptied addr clients k e, k)
      (ap (λ b. hear (synthesize_audio_disable b) on) h.same_raw
        ∙ hear-disable h.cmd on h.is_request)

leave_audio-quiet :
    (addr : SocketAddr) (subs : AudioSubs)
    → (is_empty (discard addr subs.clients) ≡ false) ⊎ (is_empty subs.clients ≡ true)
    → (leave_audio addr subs).1 ≡ []
unfolding leave_audio member
leave_audio-quiet addr subs (inl k) = ground arith
leave_audio-quiet addr subs (inr k) = rw (nobody subs.clients k) refl
  where
    nobody : (xs : List SocketAddr) → is_empty xs ≡ true → member addr xs ≡ false
    nobody [] e = refl
    nobody (x ∷ xs) e = absurd (cc)

leave-InSync :
    (addr : SocketAddr) (s : Bool × FilterState) → InSync s → InSync (perform (leave addr) s)
unfolding hear_all
leave-InSync addr (on, st) h =
    let subs = st.audio in
    let rest = discard addr subs.clients in
    let quiet = λ (q : (is_empty rest ≡ false) ⊎ (is_empty subs.clients ≡ true)).
      ap (λ sent. hear_all sent on) (leave_audio-quiet addr subs q) ∙ h.0 in
    let keeps = λ (e : is_empty rest ≡ false). h.1 (is_empty-discard addr subs.clients e) in
    let left : InSync (
      hear_all (leave_audio addr subs).1 on,
      record st { audio = record subs { clients = rest } },
    ) =
      elim (Bool-cases (is_empty rest)) [
        | inr k ↦ (quiet (inl k) ∙ ap not (is_empty-discard addr subs.clients k ∙ sym k), keeps)
        | inl k ↦ elim (Bool-cases (is_empty subs.clients)) [
          | inl e ↦ (quiet (inr e) ∙ ap not (e ∙ sym k), keeps)
          | inr e ↦
              (leave-on subs.clients addr subs.last_enable on k e (h.1 e) ∙ ap not (sym k), keeps)
        ]
      ] in
    unfold leave_audio in left

audio_run-InSync :
    (ops : List AudioOp) (st : FilterState)
    → AreRequests ops
    → st.audio.clients ≡ []
    → InSync (audio_run ops st)
audio_run-InSync [] st w h = rw h (refl, λ e. absurd (ground arith))
audio_run-InSync (request from cmd ∷ ops) st w h =
    request-InSync from cmd (audio_run ops st) w.0 (audio_run-InSync ops st w.1 h)
audio_run-InSync (leave addr ∷ ops) st w h =
    leave-InSync addr (audio_run ops st) (audio_run-InSync ops st w h)

-- From a filter without subscribers, and whatever clients subscribe, unsubscribe and leave, in
-- whatever order: a switcher that reads the commands which the proxy then sends it, and does what the
-- last byte of the body of a request for audio levels says, sends levels exactly while some client is
-- subscribed. The clients' requests are whole commands whose bodies are not empty.
pub audio_run-subscribed :
    (ops : List AudioOp) (st : FilterState)
    → AreRequests ops
    → st.audio.clients ≡ []
    → let (on, st') = audio_run ops st in on ≡ not (is_empty st'.audio.clients)
audio_run-subscribed ops st w h = (audio_run-InSync ops st w h).0
