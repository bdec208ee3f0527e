-- ===== src/Protocol/Link/Ageing.antt =====
-- Packets of a link on their way while more are sent.
use atemproxy.Prelude.{
  ℕ, ◌+◌, ◌≤◌, ap, sym, ◌∙◌, List, [], ◌∷◌, ◌++◌, arith, length, All, inl, inr, length-append,
  get_or-append,
}
use atemproxy.Protocol.Packet.RoundTrip.{carried}
use atemproxy.Protocol.Link.{stamped}
use atemproxy.Protocol.Link.State.{IsFrom, Acks}
use atemproxy.Protocol.Link.Holding.{Emitted}

module _ (first : ℕ) where
  pub Emitted-IsFrom :
      (base : ℕ) (history : List (List ℕ)) (out : List (List ℕ))
      → length history ≤ base + 256
      → All (Emitted first base history) out
      → All (IsFrom first history) (stamped (length history) out)
  Emitted-IsFrom base history [] l v = tt
  Emitted-IsFrom base history (bytes ∷ out) l (inl (i, low, high, reads), v) = (
    (omega arith, λ h p d _. (i, high, omega arith, (reads h p d).0, (reads h p d).1)),
    Emitted-IsFrom base history out l v,
  )
  Emitted-IsFrom base history (bytes ∷ out) l (inr other, v) = (
    (omega arith, λ h p d asks. absurd (cc (asks, other h p d))),
    Emitted-IsFrom base history out l v,
  )

  pub IsFrom-append :
      (history more : List (List ℕ)) (wire : List (ℕ × List ℕ))
      → All (IsFrom first history) wire
      → All (IsFrom first (history ++ more)) wire
  IsFrom-append history more [] v = tt
  IsFrom-append history more ((t, bytes) ∷ wire) ((l, from), v) = (
    (
      omega (arith, length-append history more),
      λ h p d asks.
          let (i, low, high, id, body) = from h p d asks in
          (
            i,
            low,
            high,
            id,
            body ∙ ap carried (sym (get_or-append history more i [] (omega arith))),
          ),
    ),
    IsFrom-append history more wire v,
  )

  pub Acks-more :
      (sent sent' done done' : ℕ) (acks : List (ℕ × List ℕ))
      → sent ≤ sent'
      → done ≤ done'
      → All (Acks first sent done) acks
      → All (Acks first sent' done') acks
  Acks-more sent sent' done done' [] l k v = tt
  Acks-more sent sent' done done' ((t, bytes) ∷ acks) l k ((at, (a, low, high, is_)), v) =
      ((omega arith, (a, omega arith, high, is_)), Acks-more sent sent' done done' acks l k v)
