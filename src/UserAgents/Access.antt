-- ===== src/UserAgents/Access.antt =====
-- Who gets the counts of the User-Agents, and what they are.
use metroserver.Prelude.{
  ℕ, ◌≡◌, ◌≢◌, refl, ap, subst, ◌⊎◌, inl, inr, Bool, true, false, not, ◌||◌, Option, none, some, [],
  ◌∷◌, ◌++◌, length, Bytes, bytes, Map, lookup, if_keeps, some_keeps, Bool-cases, ==-iff, ==-refl,
  nat_beq_iff, All, nat_eq, bytes_eq_instance, ◌==◌, ||-false,
}
use metroserver.UserAgents.{
  Bucket, read_counts, user_agent_counts, after_prefix, cut_prefix, Answer, counted,
  user_agents_handler,
}
use metroserver.BigEndian.{uint64}
use metroserver.UserAgents.Counting.{IsCount, IsSoundBucket, count_in, count_of, eight}

after_prefix-some :
    (prefix text rest : Bytes) → after_prefix prefix text ≡ some rest → text ≡ prefix ++ rest
unfolding after_prefix
after_prefix-some [] text rest = λ e. ap (λ o. elim o as (λ _. Bytes) [ none ↦ [] | some t ↦ t ]) e
after_prefix-some (p ∷ ps) [] rest = λ e. cc
after_prefix-some (p ∷ ps) (b ∷ bs) rest =
    if_keeps (λ o. o ≡ some rest → b ∷ bs ≡ p ∷ ps ++ rest) (p == b)
      (λ y. λ e. rw ((nat_beq_iff p b).0 y, after_prefix-some ps bs rest e)) (λ _. λ e. cc)

after_prefix-append : (prefix rest : Bytes) → after_prefix prefix (prefix ++ rest) ≡ some rest
unfolding after_prefix
after_prefix-append [] rest = refl
after_prefix-append (p ∷ ps) rest = rw (==-refl p, after_prefix-append ps rest)

cut_prefix-append : (prefix rest : Bytes) → cut_prefix (prefix ++ rest) prefix ≡ rest
unfolding cut_prefix
cut_prefix-append prefix rest = rw (cut_prefix, after_prefix-append prefix rest)

cut_prefix-cases :
    (text prefix : Bytes)
    → (text ≡ prefix ++ cut_prefix text prefix) ⊎ (text ≡ cut_prefix text prefix)
unfolding cut_prefix
cut_prefix-cases text prefix =
    some_keeps (λ r. (text ≡ prefix ++ r) ⊎ (text ≡ r)) (after_prefix prefix text) (λ _. inr refl)
      (λ rest e. inl (after_prefix-some prefix text rest e))

-- What stands before the counts.
abbrev IsGranted : (Bytes → Bytes) → Bytes → Option Bucket → Bytes → Bytes → Answer → Type 0
IsGranted sha256 token database method authorization (counted counts) =
    (method ≡ bytes "GET")
    × (token ≢ [])
    × (sha256 token ≡ sha256 (cut_prefix authorization (bytes "Bearer ")))
    × (user_agent_counts database ≡ some counts)
IsGranted sha256 token database method authorization _ = Unit

handler-IsGranted :
    (sha256 : Bytes → Bytes) (token : Bytes) (database : Option Bucket)
    (method authorization : Bytes)
    → IsGranted sha256 token database method authorization
        (user_agents_handler sha256 token database method authorization)
unfolding user_agents_handler
handler-IsGranted sha256 token database method authorization =
    let P = IsGranted sha256 token database method authorization in
    let provided = cut_prefix authorization (bytes "Bearer ") in
    if_keeps P (not (method == bytes "GET")) (λ _. tt)
      (λ get.
        if_keeps P (token == [] || not (sha256 token == sha256 provided)) (λ _. tt)
          (λ known.
            some_keeps P (user_agent_counts database) (λ _. tt)
              (λ counts e. (
                (==-iff method (bytes "GET")).0 (unnot _ get),
                λ empty.
                    let yes_empty : token == [] ≡ true = (==-iff token []).1 empty in
                    let no_empty : token == [] ≡ false =
                      (||-false (token == []) (not (sha256 token == sha256 provided)) known).0 in
                    cc,
                (==-iff (sha256 token) (sha256 provided)).0 (
                    unnot _
                      (||-false (token == []) (not (sha256 token == sha256 provided)) known).1),
                e,
              ))))
  where
    unnot : (b : Bool) → not b ≡ false → b ≡ true
    unnot true h = refl
    unnot false h = cc

-- Whoever gets the counts has sent a GET with an Authorization header that is a text, or "Bearer " and that
-- text, whose SHA-256 is that of the administrator's token, which is not empty.
pub user_agents_handler-counted :
    (sha256 : Bytes → Bytes) (token : Bytes) (database : Option Bucket)
    (method authorization : Bytes) (counts : Map Bytes ℕ)
    → user_agents_handler sha256 token database method authorization ≡ counted counts
    → (method ≡ bytes "GET")
      × (token ≢ [])
      × ((provided : Bytes) × ((authorization ≡ bytes "Bearer " ++ provided)
            ⊎ (authorization ≡ provided))
          × (sha256 token ≡ sha256 provided))
      × (user_agent_counts database ≡ some counts)
user_agents_handler-counted sha256 token database method authorization counts e =
    let (get, known, same, read) =
      subst (IsGranted sha256 token database method authorization) e
        (handler-IsGranted sha256 token database method authorization) in
    (
      get,
      known,
      (
        cut_prefix authorization (bytes "Bearer "),
        cut_prefix-cases authorization (bytes "Bearer "),
        same,
      ),
      read,
    )

-- The counts that are read are those that are stored.
Reads : Map Bytes Bytes → Option (Map Bytes ℕ) → Type 0
Reads entries none = ⊥
Reads entries (some counts) = (key : Bytes) → lookup key counts ≡ count_in (lookup key entries)

read_counts-Reads :
    (entries : Map Bytes Bytes) → All IsCount entries → Reads entries (read_counts entries)
unfolding read_counts Reads lookup
read_counts-Reads [] h = λ key. refl
read_counts-Reads ((key, value) ∷ rest) h =
    let others = read_counts-Reads rest h.1 in
    if_keeps (Reads ((key, value) ∷ rest)) (not (length value == 8))
      (λ bad. let fine = eight (length value) h.0.value_length in cc)
      (λ _. extend (read_counts rest) others)
  where
    extend :
        (o : Option (Map Bytes ℕ))
        → Reads rest o
        → Reads
            ((key, value) ∷ rest)
            (elim o [ none ↦ none | some counts ↦ some ((key, uint64 value) ∷ counts) ])
    extend none k = k
    extend (some counts) k =
        λ other. elim (Bool-cases (key == other)) [ inl y ↦ rw y | inr n ↦ rw n (k other) ]

-- With a sound bucket, a GET with "Bearer " and the administrator's token, not empty, is answered with the
-- count of every User-Agent that is stored.
pub user_agents_handler-served :
    (sha256 : Bytes → Bytes) (token : Bytes) (bucket : Bucket)
    → token ≢ []
    → IsSoundBucket bucket
    → (counts : Map Bytes ℕ) × (user_agents_handler sha256 token
          (some bucket)
          (bytes "GET")
          (bytes "Bearer " ++ token)
        ≡ counted counts)
      × ((key : Bytes) → lookup key counts ≡ count_of bucket key)
unfolding user_agents_handler user_agent_counts Reads
user_agents_handler-served sha256 token bucket nonempty h =
    served (read_counts bucket.entries) refl (read_counts-Reads bucket.entries h.counts)
  where
    token_test : token == [] ≡ false
    token_test = elim (Bool-cases (token == [])) [
      | inl y ↦ absurd (nonempty ((==-iff token []).0 y))
      | inr n ↦ n
    ]

    served :
        (o : Option (Map Bytes ℕ))
        → read_counts bucket.entries ≡ o
        → Reads bucket.entries o
        → (counts : Map Bytes ℕ) × (user_agents_handler sha256 token
              (some bucket)
              (bytes "GET")
              (bytes "Bearer " ++ token)
            ≡ counted counts)
          × ((key : Bytes) → lookup key counts ≡ count_of bucket key)
    served none e k = absurd k
    served (some counts) e k = (
      counts,
      rw (
        ==-refl (bytes "GET"),
        token_test,
        cut_prefix-append (bytes "Bearer ") token,
        ==-refl (sha256 token),
        user_agent_counts,
        e,
      ),
      k,
    )
