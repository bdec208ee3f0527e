-- ===== src/Proxy/Filter/Disabling.antt =====
-- filter.rs: the command that stops the audio levels, and the set of subscribers.
use atemproxy.Prelude.Bytes.{to_be_bytes}
use atemproxy.Protocol.Error.{ok}
use atemproxy.Protocol.Command.Parsing.{IsFramed, parse_commands-wire}
use atemproxy.Prelude.{
  sym, ap, ◌∙◌, append-nil, length-append, length, ◌++◌, ◌+◌, some, ◌≡◌, refl, arith, ==_iff, ℕ,
  Bool, true, false, List, [], ◌∷◌, is_empty, ◌==◌, if◌then◌else◌,
}
use atemproxy.Protocol.Command.{CommandRef, parse_commands, name_bytes}
use atemproxy.Proxy.Net.{SocketAddr, member, add, discard}
use atemproxy.Proxy.Filter.{AudioSubs, parse_enable_flag, synthesize_audio_disable, subscribe}

-- The disabling command that the proxy makes: the enabling one with its last byte zero.
pub synthesize_audio_disable-append :
    (xs : List ℕ) (b : ℕ) → synthesize_audio_disable (xs ++ b ∷ []) ≡ xs ++ 0 ∷ []
unfolding synthesize_audio_disable
synthesize_audio_disable-append [] b = refl
synthesize_audio_disable-append (x ∷ []) b = refl
synthesize_audio_disable-append (x ∷ y ∷ xs) b =
    rw (synthesize_audio_disable-append (y ∷ xs) b) refl

pub parse_enable_flag-append :
    (xs : List ℕ) (b : ℕ) → parse_enable_flag (xs ++ b ∷ []) ≡ some (if b == 0 then false else true)
unfolding parse_enable_flag
parse_enable_flag-append [] b = refl
parse_enable_flag-append (x ∷ []) b = refl
parse_enable_flag-append (x ∷ y ∷ xs) b = parse_enable_flag-append (y ∷ xs) b

member-discard :
    (a b : ℕ) (xs : List ℕ) → member a (discard b xs) ≡ (if b == a then false else member a xs)
unfolding member discard
member-discard a b [] = ground arith
member-discard a b (x ∷ xs) = ground (arith, member-discard a b xs)

member-add : (a b : ℕ) (xs : List ℕ) → member a (add b xs) ≡ (if b == a then true else member a xs)
unfolding member add
member-add a b xs = ground (arith, ==_iff b a)

-- Who is subscribed after a request: the client according to the flag, the others as before.
pub subscribe-member :
    (from : SocketAddr) (enable : Bool) (raw : List ℕ) (subs : AudioSubs) (a : SocketAddr)
    → member a ((subscribe from enable raw subs).clients)
      ≡ (if from == a then enable else member a subs.clients)
unfolding subscribe
subscribe-member from true raw subs a = member-add a from subs.clients
subscribe-member from false raw subs a = member-discard a from subs.clients

same_length :
    (xs : List ℕ) (b : ℕ) (body : List ℕ)
    → body ≡ xs ++ b ∷ []
    → length body ≡ length (xs ++ 0 ∷ [])
same_length xs b body e =
    ap length e ∙ omega (arith, length-append xs (b ∷ []), length-append xs (0 ∷ []))

-- The command that the proxy makes to stop the levels.
abbrev pub disable_of : CommandRef → List ℕ → CommandRef
disable_of cmd xs = record {
  name = cmd.name;
  raw = synthesize_audio_disable cmd.raw;
  body = xs ++ 0 ∷ [];
}

disable_of-IsFramed :
    (cmd : CommandRef) (xs : List ℕ) (b : ℕ)
    → IsFramed cmd
    → cmd.body ≡ xs ++ b ∷ []
    → IsFramed (disable_of cmd xs)
disable_of-IsFramed cmd xs b f e =
    let n : length cmd.body ≡ length (xs ++ 0 ∷ []) = same_length xs b cmd.body e in
    record {
      r₀ = f.r₀;
      r₁ = f.r₁;
      fits = omega arith;
      framing =
          ap synthesize_audio_disable (rw e at f.framing)
          ∙ synthesize_audio_disable-append
              (to_be_bytes (8 + length (xs ++ b ∷ [])) ++ (f.r₀ ∷ f.r₁ ∷ name_bytes cmd.name ++ xs))
              b
          ∙ ap (λ l. to_be_bytes (8 + l) ++ (f.r₀ ∷ f.r₁ ∷ name_bytes cmd.name ++ (xs ++ 0 ∷ [])))
              (ap length (sym e) ∙ n);
    }

-- If a subscription command has a body, the command made from it to stop the levels is read as one
-- command of the same name, with the same body but for the last byte, and says disable.
pub synthesize_audio_disable-read :
    (cmd : CommandRef) (xs : List ℕ) (b : ℕ)
    → IsFramed cmd
    → cmd.body ≡ xs ++ b ∷ []
    → (parse_commands (synthesize_audio_disable cmd.raw) ≡ ok (disable_of cmd xs ∷ []))
      × (parse_enable_flag ((disable_of cmd xs).body) ≡ some false)
synthesize_audio_disable-read cmd xs b f e = (
  ap parse_commands (sym (append-nil (synthesize_audio_disable cmd.raw)))
      ∙ parse_commands-wire (disable_of cmd xs ∷ []) (disable_of-IsFramed cmd xs b f e, tt),
  parse_enable_flag-append xs 0,
)

pub is_empty-add : (a : ℕ) (xs : List ℕ) → is_empty (add a xs) ≡ false
unfolding add member
is_empty-add a [] = refl
is_empty-add a (x ∷ xs) = ground arith

pub is_empty-discard : (a : ℕ) (xs : List ℕ) → is_empty (discard a xs) ≡ false → is_empty xs ≡ false
unfolding discard
is_empty-discard a [] h = h
is_empty-discard a (x ∷ xs) h = refl

pub member-of-emptied :
    (a : ℕ) (xs : List ℕ)
    → is_empty (discard a xs) ≡ true
    → is_empty xs ≡ false
    → member a xs ≡ true
unfolding discard member
member-of-emptied a [] h k = ground arith
member-of-emptied a (x ∷ xs) h k = ground arith
