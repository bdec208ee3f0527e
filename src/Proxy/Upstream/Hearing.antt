-- ===== src/Proxy/Upstream/Hearing.antt =====
-- The events of upstream.rs for a listener that keeps a cache of its own.
use atemproxy.Prelude.{
  ◌≡◌, refl, subst, All, All-append, false, Option, none, some, ℕ, List, [], ◌∷◌, ◌++◌, ◌∙◌, ap,
  sym, append-nil, append_assoc,
}
use atemproxy.Proxy.Cache.{CacheKey, get, StateCache}
use atemproxy.Proxy.Cache.Dump.{IsState}
use atemproxy.Proxy.Cache.Views.{
  SameView, ingest_all, ingest_all-effect, told, effect, effect-append, or_before, or_before_assoc,
}
use atemproxy.Proxy.Upstream.{Upstream, UpstreamEvent}

-- The payloads of the events that tell every client something.
abbrev pub states : List UpstreamEvent → List (List ℕ)
states [] = []
states (UpstreamEvent.connected ∷ es) = states es
states (UpstreamEvent.disconnected ∷ es) = states es
states (UpstreamEvent.state_payload p ∷ es) = p ∷ states es
states (UpstreamEvent.audio_levels p ∷ es) = states es
states (UpstreamEvent.transfer_payload p ∷ es) = states es

-- No end of a session among the events.
abbrev pub Unbroken : List UpstreamEvent → Type 0
Unbroken [] = Unit
Unbroken (UpstreamEvent.connected ∷ es) = Unbroken es
Unbroken (UpstreamEvent.disconnected ∷ es) = ⊥
Unbroken (UpstreamEvent.state_payload p ∷ es) = Unbroken es
Unbroken (UpstreamEvent.audio_levels p ∷ es) = Unbroken es
Unbroken (UpstreamEvent.transfer_payload p ∷ es) = Unbroken es

pub states-append : (es fs : List UpstreamEvent) → states (es ++ fs) ≡ states es ++ states fs
states-append [] fs = refl
states-append (UpstreamEvent.connected ∷ es) fs = states-append es fs
states-append (UpstreamEvent.disconnected ∷ es) fs = states-append es fs
states-append (UpstreamEvent.state_payload p ∷ es) fs = ap (◌∷◌ p) (states-append es fs)
states-append (UpstreamEvent.audio_levels p ∷ es) fs = states-append es fs
states-append (UpstreamEvent.transfer_payload p ∷ es) fs = states-append es fs

pub Unbroken-join : (es fs : List UpstreamEvent) → Unbroken es → Unbroken fs → Unbroken (es ++ fs)
Unbroken-join [] fs u w = w
Unbroken-join (UpstreamEvent.connected ∷ es) fs u w = Unbroken-join es fs u w
Unbroken-join (UpstreamEvent.disconnected ∷ es) fs u w = absurd u
Unbroken-join (UpstreamEvent.state_payload p ∷ es) fs u w = Unbroken-join es fs u w
Unbroken-join (UpstreamEvent.audio_levels p ∷ es) fs u w = Unbroken-join es fs u w
Unbroken-join (UpstreamEvent.transfer_payload p ∷ es) fs u w = Unbroken-join es fs u w

pub Unbroken-append : (es fs : List UpstreamEvent) → Unbroken (es ++ fs) → Unbroken es × Unbroken fs
Unbroken-append [] fs h = (tt, h)
Unbroken-append (UpstreamEvent.connected ∷ es) fs h = Unbroken-append es fs h
Unbroken-append (UpstreamEvent.disconnected ∷ es) fs h = absurd h
Unbroken-append (UpstreamEvent.state_payload p ∷ es) fs h = Unbroken-append es fs h
Unbroken-append (UpstreamEvent.audio_levels p ∷ es) fs h = Unbroken-append es fs h
Unbroken-append (UpstreamEvent.transfer_payload p ∷ es) fs h = Unbroken-append es fs h

-- Events with payloads that are no state: who ingests one learns nothing.
abbrev pub IsHint : UpstreamEvent → Type 0
IsHint UpstreamEvent.connected = Unit
IsHint UpstreamEvent.disconnected = Unit
IsHint (UpstreamEvent.state_payload p) = Unit
IsHint (UpstreamEvent.audio_levels p) = (k : CacheKey) → told k p ≡ none
IsHint (UpstreamEvent.transfer_payload p) = (k : CacheKey) → told k p ≡ none

-- Whatever of the events is still to be heard, the cache has it already.
abbrev pub Settled : List UpstreamEvent → StateCache → Type 0
Settled [] c = Unit
Settled (e ∷ es) c =
    (Unbroken (e ∷ es)
      → (k : CacheKey) → or_before (effect k (states (e ∷ es))) (get k c.entries) ≡ get k c.entries)
    × Settled es c

-- How a state of the switcher's side comes of another: the events in between, and what they tell of
-- the cache. What rests on the input being bytes does so under `P`.
pub record Follows (P : Type 0) (st st' : Upstream) : Type 0 where
  pub new : List UpstreamEvent
  pub grown : st'.events ≡ st.events ++ new
  pub tells :
      Unbroken new
      → (k : CacheKey)
      → get k st'.cache.entries ≡ or_before (effect k (states new)) (get k st.cache.entries)
  pub settles : (es : List UpstreamEvent) → Settled es st.cache → Settled (es ++ new) st'.cache
  pub whole : P → IsState st.cache.entries → IsState st'.cache.entries
  pub hints : P → All IsHint new
  pub stays : Unbroken new → st'.is_connected ≡ false → st.is_connected ≡ false

Settled-same :
    (es : List UpstreamEvent) (c d : StateCache)
    → d.entries ≡ c.entries
    → Settled es c
    → Settled es d
Settled-same [] c d e h = tt
Settled-same (x ∷ es) c d e h = (λ u k. rw e (h.0 u k), Settled-same es c d e h.1)

pub quiet :
    {P : Type 0} (st st' : Upstream)
    → st'.events ≡ st.events
    → st'.cache.entries ≡ st.cache.entries
    → (st'.is_connected ≡ false → st.is_connected ≡ false)
    → Follows P st st'
unfolding effect
quiet st st' e c d = record {
  new = [];
  grown = e ∙ sym (append-nil st.events);
  tells = λ u k. ap (get k) c;
  settles = λ es h. rw (append-nil es) (Settled-same es st.cache st'.cache c h);
  whole = λ p h. subst IsState (sym c) h;
  hints = λ p. tt;
  stays = λ u. d;
}

-- An event more.
or_before_twice : (x y : Option (List ℕ)) → or_before x (or_before x y) ≡ or_before x y
or_before_twice none y = refl
or_before_twice (some v) y = refl

or_before_settled :
    (x y z : Option (List ℕ))
    → or_before y z ≡ z
    → or_before (or_before x y) (or_before x z) ≡ or_before x z
or_before_settled none y z h = h
or_before_settled (some v) y z h = refl

Settled-append :
    (es : List UpstreamEvent) (e : UpstreamEvent) (c d : StateCache)
    → (Unbroken (e ∷ [])
        → (k : CacheKey)
        → get k d.entries ≡ or_before (effect k (states (e ∷ []))) (get k c.entries))
    → Settled es c
    → Settled (es ++ e ∷ []) d
Settled-append [] e c d t h =
    (λ u k. rw (t u k) (or_before_twice (effect k (states (e ∷ []))) (get k c.entries)), tt)
Settled-append (x ∷ es) e c d t h = (
  λ u k.
      let (u₁, u₂) = Unbroken-append (x ∷ es) (e ∷ []) u in
      rw
        (
          t u₂ k,
          states-append (x ∷ es) (e ∷ []),
          effect-append k (states (x ∷ es)) (states (e ∷ [])),
        )
        (or_before_settled (effect k (states (e ∷ []))) (effect k (states (x ∷ es)))
          (get k c.entries) (h.0 u₁ k)),
  Settled-append es e c d t h.1,
)

pub one_event :
    {P : Type 0} (e : UpstreamEvent) (st st' : Upstream)
    → st'.events ≡ st.events ++ e ∷ []
    → (Unbroken (e ∷ [])
        → (k : CacheKey)
        → get k st'.cache.entries ≡ or_before (effect k (states (e ∷ []))) (get k st.cache.entries))
    → (P → IsState st.cache.entries → IsState st'.cache.entries)
    → (P → IsHint e)
    → (Unbroken (e ∷ []) → st'.is_connected ≡ false → st.is_connected ≡ false)
    → Follows P st st'
one_event e st st' grown tells whole hint stays = record {
  new = e ∷ [];
  grown = grown;
  tells = tells;
  settles = λ es h. Settled-append es e st.cache st'.cache tells h;
  whole = whole;
  hints = λ p. (hint p, tt);
  stays = stays;
}

pub then-Follows :
    {P : Type 0} (st st' st'' : Upstream)
    → Follows P st st'
    → Follows P st' st''
    → Follows P st st''
then-Follows st st' st'' f g = record {
  new = f.new ++ g.new;
  grown = g.grown ∙ ap (λ es. es ++ g.new) f.grown ∙ append_assoc st.events f.new g.new;
  tells = λ u k.
      let (u₁, u₂) = Unbroken-append f.new g.new u in
      g.tells u₂ k
      ∙ ap (or_before (effect k (states g.new))) (f.tells u₁ k)
      ∙ sym (
          or_before_assoc (effect k (states g.new)) (effect k (states f.new))
            (get k st.cache.entries))
      ∙ ap (λ x. or_before x (get k st.cache.entries))
          (sym (
            ap (effect k) (states-append f.new g.new)
            ∙ effect-append k (states f.new) (states g.new)));
  settles = λ es h.
      subst (λ l. Settled l st''.cache) (append_assoc es f.new g.new)
        (g.settles (es ++ f.new) (f.settles es h));
  whole = λ p h. g.whole p (f.whole p h);
  hints = λ p. All-append IsHint f.new g.new (f.hints p) (g.hints p);
  stays = λ u d. let (u₁, u₂) = Unbroken-append f.new g.new u in f.stays u₁ (g.stays u₂ d);
}

pub weaken-Follows :
    {P Q : Type 0} (st st' : Upstream) → (Q → P) → Follows P st st' → Follows Q st st'
weaken-Follows st st' w f = record {
  new = f.new;
  grown = f.grown;
  tells = f.tells;
  settles = f.settles;
  whole = λ q. f.whole (w q);
  hints = λ q. f.hints (w q);
  stays = f.stays;
}

-- Who knows the cache of one state and ingests what is told since knows the cache of the other.
pub Follows-SameView :
    {P : Type 0} (st st' : Upstream) (f : Follows P st st') (v : StateCache)
    → Unbroken f.new
    → SameView v st.cache
    → SameView (ingest_all (states f.new) v) st'.cache
Follows-SameView st st' f v u h k =
    ingest_all-effect k (states f.new) v
    ∙ ap (or_before (effect k (states f.new))) (h k)
    ∙ sym (f.tells u k)
