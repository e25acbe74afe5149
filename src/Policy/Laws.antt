-- ===== src/Policy/Laws.antt =====
-- Which tier a client gets, and what a rewritten queue still holds.
use metroserver.Prelude.{
  ℕ, zero, suc, ◌≤◌, [], ◌+◌, ◌≡◌, refl, sym, ap, ◌↔◌, true, false, some, List, ◌∷◌, ◌++◌, arith,
  length, length-append, take, drop, take-append-drop, Bytes, nat_eq, bytes_eq_instance,
}
use metroserver.Protocol.{TrackInfo}
use metroserver.Policy.{
  advert, rickroll, block, UaPolicy, ua_matches, resolve, with_rick, rick_track, rick_position,
}

-- The place is never past the end, so that both slices of the code exist.
rick_position-le : (queue : List TrackInfo) → rick_position queue ≤ length queue
unfolding rick_position
rick_position-le queue = grind arith

length-take-exact {ℓ} : {A : Type ℓ} (n : ℕ) (xs : List A) → n ≤ length xs → length (take n xs) ≡ n
length-take-exact zero xs h = refl
length-take-exact (suc n) [] h = omega (arith, h)
length-take-exact (suc n) (x ∷ xs) h = ap suc (length-take-exact n xs (omega (arith, h)))

-- A rickrolled queue is the queue with one track more: as many tracks of the queue as the hash says go before it, never
-- more than there are, and the others after it.
pub with_rick_lem :
    (queue : List TrackInfo)
    → (before after : List TrackInfo) × (queue ≡ before ++ after)
      × (length before ≡ rick_position queue)
      × (rick_position queue ≤ length queue)
      × (with_rick queue ≡ before ++ rick_track ∷ after)
      × (length (with_rick queue) ≡ length queue + 1)
unfolding with_rick
with_rick_lem queue =
    let at = rick_position queue in
    (
      take at queue,
      drop at queue,
      sym (take-append-drop at queue),
      length-take-exact at queue (rick_position-le queue),
      rick_position-le queue,
      refl,
      omega (
        arith,
        length-append (take at queue) (rick_track ∷ drop at queue),
        length-append (take at queue) (drop at queue),
        ap length (take-append-drop at queue),
      ),
    )

-- block beats rickroll beats advert, and a client that no rule names is allowed.
pub resolve_lem :
    (to_lower : Bytes → Bytes) (p : UaPolicy) (user_agent : Bytes)
    → let ua = to_lower user_agent in
      ((resolve to_lower (some p) user_agent ≡ block) ↔ (ua_matches ua p.block ≡ true))
      × ((resolve to_lower (some p) user_agent ≡ rickroll)
          ↔ ((ua_matches ua p.block ≡ false) × (ua_matches ua p.rickroll ≡ true)))
      × ((resolve to_lower (some p) user_agent ≡ advert) ↔ (
          (ua_matches ua p.block ≡ false)
          × (ua_matches ua p.rickroll ≡ false)
          × (ua_matches ua p.advert ≡ true)))
unfolding resolve
resolve_lem to_lower p user_agent = ground arith
