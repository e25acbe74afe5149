-- ===== src/Restore/Seats.antt =====
-- The tokens and the seats that a restored room gives back.
use metroserver.Prelude.{
  ℕ, ◌<◌, ◌≡◌, ◌∙◌, ◌⊎◌, inl, inr, false, some, List, [], ◌∷◌, Bytes, lookup, lookup-insert,
  if◌then◌else◌, if_keeps, Bool-cases, ==-iff, ==-refl, All, arith, nat_eq, bytes_eq_instance, ◌==◌,
}
use metroserver.World.{Server, Session}
use metroserver.Snapshot.{PersistentSession}
use metroserver.Restore.{add_session, restored_session, restore_sessions}

-- The token leads to the session.
abbrev pub Leads : Server → Bytes → Session → Type 0
Leads s token session =
    (n : ℕ) × (n < s.next_session) × (lookup token s.sessions ≡ some n) × (s.session_at n ≡ session)

-- No session of the list has the token.
abbrev pub IsFresh : Bytes → List PersistentSession → Type 0
IsFresh token [] = Unit
IsFresh token (p ∷ rest) = (p.token == token ≡ false) × IsFresh token rest

-- The tokens are distinct.
abbrev pub AreDistinct : List PersistentSession → Type 0
AreDistinct [] = Unit
AreDistinct (p ∷ rest) = IsFresh p.token rest × AreDistinct rest

below_next : (n m : ℕ) → n < m → m == n ≡ false
below_next n m h = ground (arith, h)

add_session-Leads :
    (s : Server) (token : Bytes) (session : Session)
    → Leads (add_session token session s) token session
add_session-Leads s token session = (
  s.next_session,
  omega arith,
  lookup-insert token token s.next_session s.sessions ∙ rw (==-refl token),
  rw (==-refl s.next_session),
)

add_session-keeps :
    (s : Server) (other token : Bytes) (session held : Session)
    → other == token ≡ false
    → Leads s token held
    → Leads (add_session other session s) token held
add_session-keeps s other token session held differs (n, below, found, at) = (
  n,
  omega (arith, below),
  lookup-insert other token s.next_session s.sessions ∙ rw (differs, found),
  rw (below_next n s.next_session below, at),
)

restore_sessions-keeps :
    (moved : ℕ → ℕ) (ps : List PersistentSession) (s : Server) (token : Bytes) (held : Session)
    → IsFresh token ps
    → Leads s token held
    → Leads (restore_sessions moved ps s) token held
unfolding restore_sessions
restore_sessions-keeps moved [] s token held fresh h = h
restore_sessions-keeps moved (p ∷ rest) s token held fresh h =
    restore_sessions-keeps moved rest _ token held fresh.1 (
      if_keeps (λ t. Leads t token held) (p.token == []) (λ _. h)
        (λ _. add_session-keeps s p.token token (restored_session moved p) held fresh.0 h))

-- Every session with a token can be reached by it.
abbrev pub Resumes : (ℕ → ℕ) → Server → PersistentSession → Type 0
Resumes moved s p = (p.token ≡ []) ⊎ Leads s p.token (restored_session moved p)

pub restore_sessions-Resumes :
    (moved : ℕ → ℕ) (ps : List PersistentSession) (s : Server)
    → AreDistinct ps
    → All (Resumes moved (restore_sessions moved ps s)) ps
unfolding restore_sessions
restore_sessions-Resumes moved [] s h = tt
restore_sessions-Resumes moved (p ∷ rest) s h =
    let t : Server =
      if p.token == [] then s else add_session p.token (restored_session moved p) s in
    (
      elim (Bool-cases (p.token == [])) [
        | inl y ↦ inl ((==-iff p.token []).0 y)
        | inr n ↦ inr (
            restore_sessions-keeps moved rest t p.token (restored_session moved p) h.0
              (rw n (add_session-Leads s p.token (restored_session moved p))))
      ],
      restore_sessions-Resumes moved rest t h.1,
    )
