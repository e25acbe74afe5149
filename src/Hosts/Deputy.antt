-- ===== src/Hosts/Deputy.antt =====
-- pickDeputy of internal/server/hosts.go: who takes over.
use metroserver.Prelude.{
  ℕ, ◌≡◌, refl, ◌∙◌, ◌⊎◌, inl, inr, true, false, ◌&&◌, none, some, [], ◌∷◌, arith, Bool-cases, All,
  Bytes, nat_eq, bytes_eq_instance, Map,
}
use metroserver.World.{Server}
use metroserver.Hosts.{
  Candidate, bytes_ltb, beats, better, candidate, is_eligible, pick_from, pick_deputy,
}

bytes_ltb_trans :
    (x y z : Bytes) → bytes_ltb x y ≡ true → bytes_ltb y z ≡ true → bytes_ltb x z ≡ true
unfolding bytes_ltb
bytes_ltb_trans x [] z h k = cc
bytes_ltb_trans [] (b ∷ y) [] h k = cc
bytes_ltb_trans [] (b ∷ y) (c ∷ z) h k = refl
bytes_ltb_trans (a ∷ x) (b ∷ y) [] h k = cc
bytes_ltb_trans (a ∷ x) (b ∷ y) (c ∷ z) h k = ground (arith, bytes_ltb_trans x y z)

beats_trans : (x y z : Candidate) → beats x y ≡ true → beats y z ≡ true → beats x z ≡ true
unfolding beats
beats_trans x y z h k = ground (arith, bytes_ltb_trans x.id y.id z.id)

bytes_ltb_irrefl : (x : Bytes) → bytes_ltb x x ≡ false
unfolding bytes_ltb
bytes_ltb_irrefl [] = refl
bytes_ltb_irrefl (a ∷ x) = ground (arith, bytes_ltb_irrefl x)

-- None of the eligible entries goes before the candidate.
abbrev pub IsBest : Server → Map Bytes ℕ → Candidate → Type 0
IsBest s clients d = All (λ e. is_eligible s e.1 && beats (candidate s e.0 e.1) d ≡ false) clients

-- The candidate is that of an eligible entry.
abbrev pub Among : Server → Map Bytes ℕ → Candidate → Type 0
Among s [] d = ⊥
Among s ((id, c) ∷ rest) d = ((is_eligible s c ≡ true) × (d ≡ candidate s id c)) ⊎ Among s rest d

-- Whoever is not before the first candidate is not before the second.
NotBehind : Candidate → Candidate → Type 0
NotBehind b d = (x : Candidate) → beats x b ≡ false → beats x d ≡ false

better_self : (a b : Candidate) → beats a (better a (some b)) ≡ false
unfolding better beats
better_self a b = ground (arith, bytes_ltb_irrefl a.id)

better-NotBehind : (a b : Candidate) → NotBehind b (better a (some b))
unfolding better NotBehind
better-NotBehind a b x h = ground (arith, beats_trans x a b)

better-from : (a b : Candidate) → (better a (some b) ≡ a) ⊎ (better a (some b) ≡ b)
unfolding better
better-from a b = elim (Bool-cases (beats a b)) [
  | inl e ↦ inl (rw e refl)
  | inr e ↦ inr (rw e refl)
]

-- The loop from a best candidate: it is kept or bettered by an entry.
pick_from-some :
    (s : Server) (b : Candidate) (clients : Map Bytes ℕ)
    → (d : Candidate) × (pick_from s (some b) clients ≡ some d)
      × ((d ≡ b) ⊎ Among s clients d)
      × NotBehind b d
      × IsBest s clients d
unfolding pick_from NotBehind
pick_from-some s b [] = (b, refl, inl refl, λ x h. h, tt)
pick_from-some s b ((id, c) ∷ rest) = elim (Bool-cases (is_eligible s c)) [
  | inr e ↦
      let (d, q, from, kept, best) = pick_from-some s b rest in
      (d, rw e q, elim from [ inl f ↦ inl f | inr f ↦ inr (inr f) ], kept, (rw e refl, best))
  | inl e ↦
      let a = candidate s id c in
      let (d, q, from, kept, best) = pick_from-some s (better a (some b)) rest in
      (
        d,
        rw e q,
        elim from [
          | inl f ↦ elim (better-from a b) [ inl g ↦ inr (inl (e, f ∙ g)) | inr g ↦ inl (f ∙ g) ]
          | inr f ↦ inr (inr f)
        ],
        λ x h. kept x (better-NotBehind a b x h),
        (rw (e, kept a (better_self a b)) refl, best),
      )
]

beats_irrefl : (a : Candidate) → beats a a ≡ false
unfolding beats
beats_irrefl a = ground (arith, bytes_ltb_irrefl a.id)

pick_from-none :
    (s : Server) (clients : Map Bytes ℕ)
    → ((d : Candidate) × (pick_from s none clients ≡ some d)
        × Among s clients d
        × IsBest s clients d)
      ⊎ ((pick_from s none clients ≡ none) × All (λ e. is_eligible s e.1 ≡ false) clients)
unfolding pick_from better NotBehind
pick_from-none s [] = inr (refl, tt)
pick_from-none s ((id, c) ∷ rest) = elim (Bool-cases (is_eligible s c)) [
  | inl e ↦
      let a = candidate s id c in
      let (d, q, from, kept, best) = pick_from-some s a rest in
      inl (
        d,
        rw e q,
        elim from [ inl f ↦ inl (e, f) | inr f ↦ inr f ],
        (rw (e, kept a (beats_irrefl a)) refl, best),
      )
  | inr e ↦ elim (pick_from-none s rest) [
    | inl (d, q, from, best) ↦ inl (d, rw e q, inr from, (rw e refl, best))
    | inr (q, all) ↦ inr (rw e q, (e, all))
  ]
]

-- The deputy is an eligible client of the room before whom no other eligible one goes, by round trip and
-- then by user ID; and there is none exactly when no client of the room is eligible.
pub pick_deputy_lem :
    (s : Server) (clients : Map Bytes ℕ)
    → ((d : Candidate) × (pick_deputy s clients ≡ some d.client)
        × Among s clients d
        × IsBest s clients d)
      ⊎ ((pick_deputy s clients ≡ none) × All (λ e. is_eligible s e.1 ≡ false) clients)
unfolding pick_deputy
pick_deputy_lem s clients = elim (pick_from-none s clients) [
  | inl (d, q, from, best) ↦ inl (d, rw (q, pick_deputy) refl, from, best)
  | inr (q, all) ↦ inr (rw (q, pick_deputy) refl, all)
]
