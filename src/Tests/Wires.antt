-- ===== src/Tests/Wires.antt =====
-- A small wire format for playback actions: the fields that internal/server/codec.go reads, some of them empty.
use metroserver.Prelude.{
  ℕ, zero, suc, inl, inr, Bool-cases, leb, ◌/◌, ◌%◌, All, length-append, ◌+◌, ◌≤◌, ◌≡◌, refl, ap,
  sym, subst, ◌∙◌, Bool, true, false, ◌&&◌, Option, none, some, List, [], ◌∷◌, ◌++◌, length, take,
  drop, ℤ, pos, negsuc, Bytes, if◌then◌else◌, &&-true, ==-iff, arith, nat_eq, bytes_eq_instance,
  ◌==◌,
}
use metroserver.Protocol.{Float64, nan, inf, finite}
use metroserver.Wire.{
  Library, Fields, no_field, one_field, is_queue_field, PbTrackInfo, PbPlaybackAction,
}

pub take-append : (a b : Bytes) → take (length a) (a ++ b) ≡ a
take-append [] b = refl
take-append (x ∷ a) b = ap (◌∷◌ x) (take-append a b)

pub drop-append : (a b : Bytes) → drop (length a) (a ++ b) ≡ b
drop-append [] b = refl
drop-append (x ∷ a) b = drop-append a b

abbrev put_bool : Bool → ℕ
put_bool b = if b then 1 else 0

pub flag : (b : Bool) → ◌==◌ {A = ℕ} (if b then 1 else 0) 1 ≡ b
flag true = refl
flag false = refl

abbrev put_sign : ℤ → ℕ
put_sign (pos n) = 0
put_sign (negsuc n) = 1

abbrev put_size : ℤ → ℕ
put_size (pos n) = n
put_size (negsuc n) = n

abbrev int_of : ℕ → ℕ → ℤ
int_of s n = if s == 0 then pos n else negsuc n

int_of-put : (z : ℤ) → int_of (put_sign z) (put_size z) ≡ z
int_of-put (pos n) = refl
int_of-put (negsuc n) = refl

abbrev put_float : Float64 → ℕ × ℕ × ℕ × ℕ
put_float nan = (0, 0, 0, 0)
put_float (inf b) = (1, put_bool b, 0, 0)
put_float (finite b m e) = (2, put_bool b, m, e)

abbrev float_of : ℕ → ℕ → ℕ → ℕ → Float64
float_of t b m e = if t == 0 then nan else if t == 1 then inf (b == 1) else finite (b == 1) m e

float_of-put :
    (v : Float64) → float_of (put_float v).0 (put_float v).1 (put_float v).2 (put_float v).3 ≡ v
float_of-put nan = refl
float_of-put (inf b) = ap inf (flag b)
float_of-put (finite b m e) = ap (λ c. finite c m e) (flag b)

-- The texts that the format leaves out.
abbrev are_empty : List Bytes → Bool
are_empty [] = true
are_empty (b ∷ bs) = b == [] && are_empty bs

abbrev is_plain_track : PbTrackInfo → Bool
is_plain_track t = are_empty (t.title ∷ t.artist ∷ t.album ∷ t.thumbnail ∷ t.suggested_by ∷ [])

abbrev are_plain : List PbTrackInfo → Bool
are_plain [] = true
are_plain (t ∷ ts) = is_plain_track t && are_plain ts

abbrev is_none : Option PbTrackInfo → Bool
is_none none = true
is_none (some t) = false

abbrev pub is_plain : PbPlaybackAction → Bool
is_plain m =
    (is_none m.track_info && are_empty (m.track_id ∷ m.queue_title ∷ m.origin_user_id ∷ []))
    && are_plain m.queue

abbrev put_track : PbTrackInfo → Bytes
put_track t = put_sign t.duration ∷ put_size t.duration ∷ t.id

-- Each entry of the queue is field 6.
abbrev pub put_queue : List PbTrackInfo → Bytes
put_queue [] = []
put_queue (t ∷ ts) = 50 ∷ length (put_track t) ∷ (put_track t ++ put_queue ts)

abbrev pub put_head : PbPlaybackAction → Bytes
put_head m =
    put_sign m.position
    ∷ put_size m.position
    ∷ put_bool m.insert_next
    ∷ (put_float m.volume).0
    ∷ (put_float m.volume).1
    ∷ (put_float m.volume).2
    ∷ (put_float m.volume).3
    ∷ put_sign m.server_time
    ∷ put_size m.server_time
    ∷ m.revision
    ∷ put_sign m.captured_at_server_time
    ∷ put_size m.captured_at_server_time
    ∷ put_bool m.replace_queue
    ∷ m.host_sequence
    ∷ m.action

abbrev pub put_playback : PbPlaybackAction → Option Bytes
put_playback m =
    if is_plain m then some (10 ∷ length (put_head m) ∷ (put_head m ++ put_queue m.queue)) else none

unfoldable track_of : Bytes → PbTrackInfo
track_of (s ∷ n ∷ id) = record {
  id = id;
  title = [];
  artist = [];
  album = [];
  duration = int_of s n;
  thumbnail = [];
  suggested_by = [];
}
track_of _ = record {
  id = [];
  title = [];
  artist = [];
  album = [];
  duration = pos 0;
  thumbnail = [];
  suggested_by = [];
}

unfoldable queue_of : ℕ → Bytes → List PbTrackInfo
unfolding track_of
queue_of zero wire = []
queue_of (suc fuel) (tag ∷ n ∷ rest) = track_of (take n rest) ∷ queue_of fuel (drop n rest)
queue_of (suc fuel) _ = []

unfoldable action_of_head : Bytes → List PbTrackInfo → Option PbPlaybackAction
action_of_head
      (ps ∷ pn ∷ next ∷ vt ∷ vb ∷ vm ∷ ve ∷ ss ∷ sn ∷ revision ∷ cs ∷ cn ∷ replace ∷ sequence
        ∷ action)
      queue =
    some (record {
      action = action;
      track_id = [];
      position = int_of ps pn;
      track_info = none;
      insert_next = next == 1;
      queue = queue;
      queue_title = [];
      volume = float_of vt vb vm ve;
      server_time = int_of ss sn;
      revision = revision;
      captured_at_server_time = int_of cs cn;
      replace_queue = replace == 1;
      origin_user_id = [];
      host_sequence = sequence;
    })
action_of_head _ queue = none

unfoldable pub playback_of : Bytes → Option PbPlaybackAction
unfolding queue_of action_of_head
playback_of (tag ∷ n ∷ rest) = action_of_head (take n rest) (queue_of (length rest) (drop n rest))
playback_of _ = none

is_none-none : (o : Option PbTrackInfo) → is_none o ≡ true → o ≡ none
is_none-none none h = refl
is_none-none (some t) h = cc

pub some-injective : {A : Type 0} (x y : A) → some x ≡ some y → x ≡ y
some-injective x y e = ap (λ o. elim o [ none ↦ x | some z ↦ z ]) e

are_empty-All : (bs : List Bytes) → are_empty bs ≡ true → All (λ b. b ≡ []) bs
are_empty-All [] h = tt
are_empty-All (b ∷ bs) h =
    let both = &&-true (b == []) (are_empty bs) h in
    ((==-iff b []).0 both.0, are_empty-All bs both.1)

track_of-put : (t : PbTrackInfo) → is_plain_track t ≡ true → track_of (put_track t) ≡ t
unfolding track_of
track_of-put t h =
    let es = are_empty-All (t.title ∷ t.artist ∷ t.album ∷ t.thumbnail ∷ t.suggested_by ∷ []) h in
    λ i. record {
      id = t.id;
      title = sym (es.0) i;
      artist = sym (es.1.0) i;
      album = sym (es.1.1.0) i;
      duration = int_of-put t.duration i;
      thumbnail = sym (es.1.1.1.0) i;
      suggested_by = sym (es.1.1.1.1.0) i;
    }

queue_of-put :
    (fuel : ℕ) (ts : List PbTrackInfo)
    → length (put_queue ts) ≤ fuel
    → are_plain ts ≡ true
    → queue_of fuel (put_queue ts) ≡ ts
unfolding queue_of
queue_of-put zero [] b h = refl
queue_of-put (suc fuel) [] b h = refl
queue_of-put zero (t ∷ ts) b h = absurd (omega (arith, b))
queue_of-put (suc fuel) (t ∷ ts) b h =
    let both = &&-true (is_plain_track t) (are_plain ts) h in
    let first = ap track_of (take-append (put_track t) (put_queue ts)) ∙ track_of-put t both.0 in
    let others =
      ap (queue_of fuel) (drop-append (put_track t) (put_queue ts))
      ∙ queue_of-put fuel ts (omega (arith, b, length-append (put_track t) (put_queue ts)))
          both.1 in
    λ i. first i ∷ others i

pub playback_of-put :
    (m : PbPlaybackAction) (wire : Bytes) → put_playback m ≡ some wire → playback_of wire ≡ some m
unfolding playback_of action_of_head
playback_of-put m wire h = elim (Bool-cases (is_plain m)) [
  | inr no_plain ↦ let h' : none ≡ some wire = rw no_plain at h in cc
  | inl plain ↦
      let h' : some (10 ∷ length (put_head m) ∷ (put_head m ++ put_queue m.queue)) ≡ some wire =
        rw plain at h in
      let rest : Bytes = put_head m ++ put_queue m.queue in
      let both =
        &&-true
          (is_none m.track_info && are_empty (m.track_id ∷ m.queue_title ∷ m.origin_user_id ∷ []))
          (are_plain m.queue) plain in
      let texts =
        &&-true (is_none m.track_info)
          (are_empty (m.track_id ∷ m.queue_title ∷ m.origin_user_id ∷ [])) both.0 in
      let es = are_empty-All (m.track_id ∷ m.queue_title ∷ m.origin_user_id ∷ []) texts.1 in
      let queue =
        ap (queue_of (length rest)) (drop-append (put_head m) (put_queue m.queue))
        ∙ queue_of-put (length rest) m.queue
            (omega (arith, length-append (put_head m) (put_queue m.queue))) both.1 in
      let head = take-append (put_head m) (put_queue m.queue) in
      let same : action_of_head (put_head m) m.queue ≡ some m = λ i. some (record {
        action = m.action;
        track_id = sym (es.0) i;
        position = int_of-put m.position i;
        track_info = sym (is_none-none m.track_info texts.0) i;
        insert_next = flag m.insert_next i;
        queue = m.queue;
        queue_title = sym (es.1.0) i;
        volume = float_of-put m.volume i;
        server_time = int_of-put m.server_time i;
        revision = m.revision;
        captured_at_server_time = int_of-put m.captured_at_server_time i;
        replace_queue = flag m.replace_queue i;
        origin_user_id = sym (es.1.1.0) i;
        host_sequence = m.host_sequence;
      }) in
      subst (λ w. playback_of w ≡ some m) (some-injective _ wire h')
        ((λ i. action_of_head (head i) (queue i)) ∙ same)
]

-- protowire on these bytes: a tag is one byte, and a field of wire type 2 has its length before it.
unfoldable pub small_tag : Bytes → Option (ℕ × ℕ × ℕ)
small_tag [] = none
small_tag (t ∷ rest) = some (t / 8, t % 8, 1)

unfoldable pub small_value : ℕ → ℕ → Bytes → Option ℕ
small_value number wire_type [] = none
small_value number wire_type (n ∷ rest) =
    if wire_type == 2 && leb n (length rest) then some (n + 1) else none

small_value-put :
    (number : ℕ) (a b : Bytes) → small_value number 2 (length a ∷ (a ++ b)) ≡ some (suc (length a))
unfolding small_value
small_value-put number a b = ground (arith, length-append a b)

none_is_not_some : (wire : Bytes) → ◌≡◌ {A = Option Bytes} none (some wire) → ⊥
none_is_not_some wire h = cc

module _ (lib : Library) (tags : lib.consume_tag ≡ small_tag)
    (values : lib.consume_field_value ≡ small_value) where
  one_chunk :
      (tag : ℕ) (a b : Bytes) (entries : ℕ)
      → tag % 8 ≡ 2
      → Fields lib b entries
      → Fields lib
          (tag ∷ length a ∷ (a ++ b))
          (if is_queue_field (tag / 8) (tag % 8) then suc entries else entries)
  unfolding small_tag
  one_chunk tag a b entries h rest =
      one_field (tag ∷ length a ∷ (a ++ b)) (tag / 8) (tag % 8) 1 (suc (length a)) entries
        (ap (λ f. f (tag ∷ length a ∷ (a ++ b))) tags)
        (ap (λ f. f (tag / 8) (tag % 8) (length a ∷ (a ++ b))) values
          ∙ ap (λ w. small_value (tag / 8) w (length a ∷ (a ++ b))) h
          ∙ small_value-put (tag / 8) a b)
        (subst (λ w. Fields lib w entries) (sym (drop-append a b)) rest)

  put_queue-Fields : (ts : List PbTrackInfo) → Fields lib (put_queue ts) (length ts)
  put_queue-Fields [] = no_field
  put_queue-Fields (t ∷ ts) =
      one_chunk 50 (put_track t) (put_queue ts) (length ts) refl (put_queue-Fields ts)

  pub put_playback-Fields :
      (m : PbPlaybackAction) (wire : Bytes)
      → put_playback m ≡ some wire
      → Fields lib wire (length m.queue)
  put_playback-Fields m wire h = elim (Bool-cases (is_plain m)) [
    | inr no_plain ↦
        let h' : none ≡ some wire = rw no_plain at h in absurd (none_is_not_some wire h')
    | inl plain ↦
        let h' : some (10 ∷ length (put_head m) ∷ (put_head m ++ put_queue m.queue)) ≡ some wire =
          rw plain at h in
        subst (λ w. Fields lib w (length m.queue)) (some-injective _ wire h')
          (one_chunk 10 (put_head m) (put_queue m.queue) (length m.queue) refl
            (put_queue-Fields m.queue))
  ]
