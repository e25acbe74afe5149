-- ===== src/Flush/Refinement.antt =====
-- A flush makes the database hold exactly the records of the rooms.
use metroserver.Prelude.{
  ℕ, ◌-◌, ◌≡◌, ◌≢◌, refl, sym, ap, subst, ◌∙◌, ◌⊎◌, inl, inr, Bool, true, false, not, ◌&&◌, Option,
  none, some, List, [], ◌∷◌, ltb, Bytes, Map, lookup, lookup-insert, lookup-delete, if◌then◌else◌,
  if_keeps, some_keeps, Bool-cases, Option-cases, ==-iff, &&-true, nat_eq, bytes_eq_instance, ◌==◌,
}
use metroserver.Flush.{
  flush_heartbeat, Store, data_at, is_changed, changed_records, is_missing, removed_codes, put_all,
  delete_all, apply_changes, is_nil, is_idle, flush_state,
}

-- Each key of a map stands in it once.
abbrev pub IsMap : Map Bytes Bytes → Type 0
IsMap [] = Unit
IsMap ((code, held) ∷ rest) = (lookup code rest ≡ none) × IsMap rest

-- The first of two values that is there.
abbrev or_else : Option Bytes → Option Bytes → Option Bytes
or_else none b = b
or_else (some a) b = some a

lookup-put_all :
    (code : Bytes) (changed bucket : Map Bytes Bytes)
    → lookup code (put_all changed bucket) ≡ or_else (lookup code changed) (lookup code bucket)
unfolding put_all lookup
lookup-put_all code [] bucket = refl
lookup-put_all code ((at, held) ∷ rest) bucket =
    lookup-insert at code held (put_all rest bucket) ∙ elim (Bool-cases (at == code)) [
      | inl y ↦ rw y
      | inr n ↦ rw (n, lookup-put_all code rest bucket)
    ]

-- Whether a code is among codes.
abbrev among : Bytes → List Bytes → Bool
among code [] = false
among code (at ∷ rest) = let others = among code rest in if at == code then true else others

lookup-delete_all :
    (code : Bytes) (codes : List Bytes) (bucket : Map Bytes Bytes)
    → lookup code (delete_all codes bucket)
      ≡ (if among code codes then none else lookup code bucket)
unfolding delete_all
lookup-delete_all code [] bucket = refl
lookup-delete_all code (at ∷ rest) bucket =
    lookup-delete at code (delete_all rest bucket) ∙ elim (Bool-cases (at == code)) [
      | inl y ↦ rw y
      | inr n ↦ rw (n, lookup-delete_all code rest bucket)
    ]

some-injective : (x y : Bytes) → some x ≡ some y → x ≡ y
some-injective x y e = ap (λ o. elim o as (λ _. Bytes) [ none ↦ x | some z ↦ z ]) e

unnot : (b : Bool) → not b ≡ true → b ≡ false
unnot true h = cc
unnot false h = refl

unnot_false : (b : Bool) → not b ≡ false → b ≡ true
unnot_false true h = refl
unnot_false false h = cc

and_false : (b : Bool) → b && false ≡ false
and_false true = refl
and_false false = refl

lookup-changed_none :
    (persisted records : Map Bytes Bytes) (code : Bytes)
    → lookup code records ≡ none
    → lookup code (changed_records persisted records) ≡ none
unfolding lookup
lookup-changed_none persisted [] code = λ e. refl
lookup-changed_none persisted ((at, held) ∷ rest) code = elim (Bool-cases (at == code)) [
  | inl y ↦ λ e. let some_held : some held ≡ none = rw y at e in cc
  | inr n ↦ λ e.
      let others = lookup-changed_none persisted rest code (rw n at e) in
      if_keeps (λ m. lookup code m ≡ none) (is_changed persisted (at, held))
        {x = (at, held) ∷ changed_records persisted rest} {y = changed_records persisted rest}
        (λ _. rw (n, others)) (λ _. others)
]

lookup-changed_some :
    (persisted records : Map Bytes Bytes) (code held : Bytes)
    → IsMap records
    → lookup code records ≡ some held
    → lookup code (changed_records persisted records)
      ≡ (if data_at persisted code == held then none else some held)
unfolding lookup
lookup-changed_some persisted [] code held h = λ e. cc
lookup-changed_some persisted ((at, found) ∷ rest) code held h = elim (Bool-cases (at == code)) [
  | inl y ↦ λ e.
      let same : found ≡ held = some-injective found held (rw y at e) in
      let same_code : at ≡ code = (==-iff at code).0 y in
      let others =
        lookup-changed_none persisted rest code (subst (λ c. lookup c rest ≡ none) same_code h.0) in
      if_keeps (λ m. lookup code m ≡ (if data_at persisted code == held then none else some held))
        (is_changed persisted (at, found))
        (λ changed.
          let differs : data_at persisted code == held ≡ false =
            unnot _ (rw (sym same_code, sym same) changed) in
          rw (y, differs, same))
        (λ kept.
          let equal : data_at persisted code == held ≡ true =
            unnot_false _ (rw (sym same_code, sym same) kept) in
          rw (equal, others))
  | inr n ↦ λ e.
      let others = lookup-changed_some persisted rest code held h.1 (rw n at e) in
      if_keeps (λ m. lookup code m ≡ (if data_at persisted code == held then none else some held))
        (is_changed persisted (at, found)) (λ _. rw (n, others)) (λ _. others)
]

is_missing-cons :
    (at found code : Bytes) (rest : Map Bytes Bytes)
    → is_missing ((at, found) ∷ rest) code ≡ (if at == code then false else is_missing rest code)
unfolding lookup
is_missing-cons at found code rest = elim (Bool-cases (at == code)) [
  | inl y ↦ rw (is_missing, y)
  | inr n ↦ rw (is_missing, n)
]

among-removed_codes :
    (persisted records : Map Bytes Bytes) (code : Bytes)
    → among code (removed_codes persisted records)
      ≡ (not (is_missing persisted code) && is_missing records code)
unfolding removed_codes lookup
among-removed_codes [] records code = refl
among-removed_codes ((at, found) ∷ rest) records code =
    let others = among-removed_codes rest records code in
    let P : List Bytes → Type 0 = λ codes.
      among code codes ≡ (not (is_missing ((at, found) ∷ rest) code) && is_missing records code) in
    elim (Bool-cases (at == code)) [
      | inl y ↦
          let same_code : at ≡ code = (==-iff at code).0 y in
          if_keeps P (is_missing records at)
            (λ missing. rw (
              is_missing-cons at found code rest,
              y,
              subst (λ c. is_missing records c ≡ true) same_code missing,
            ))
            (λ there.
              let here = subst (λ c. is_missing records c ≡ false) same_code there in
              rw (
                is_missing-cons at found code rest,
                y,
                others,
                here,
                and_false (not (is_missing rest code)),
              ))
      | inr n ↦
          if_keeps P (is_missing records at)
            (λ _. rw (is_missing-cons at found code rest, n, others))
            (λ _. rw (is_missing-cons at found code rest, n, others))
    ]

-- Two maps that no lookup tells apart.
abbrev pub IsSameMap : Map Bytes Bytes → Map Bytes Bytes → Type 0
IsSameMap m n = (code : Bytes) → lookup code m ≡ lookup code n

is_missing-none :
    (m : Map Bytes Bytes) (code : Bytes) → lookup code m ≡ none → is_missing m code ≡ true
is_missing-none m code e = rw (is_missing, e)

is_missing-some :
    (m : Map Bytes Bytes) (code held : Bytes)
    → lookup code m ≡ some held
    → is_missing m code ≡ false
is_missing-some m code held e = rw (is_missing, e)

-- Persisted data that is not empty and equals that of the record is the record's.
lookup-data_at :
    (persisted : Map Bytes Bytes) (code held : Bytes)
    → held ≢ []
    → data_at persisted code ≡ held
    → lookup code persisted ≡ some held
lookup-data_at persisted code held nonempty =
    some_keeps (λ d. d ≡ held → lookup code persisted ≡ some held) (lookup code persisted)
      (λ _. λ e. absurd (nonempty (sym e))) (λ found known. λ e. known ∙ ap some e)

apply_changes-IsSameMap :
    (persisted records bucket : Map Bytes Bytes)
    → IsMap records
    → ((code : Bytes) → lookup code records ≢ some [])
    → IsSameMap bucket persisted
    → IsSameMap (apply_changes persisted records bucket) records
unfolding apply_changes
apply_changes-IsSameMap persisted records bucket distinct nonempty same code =
    lookup-delete_all code (removed_codes persisted records)
      (put_all (changed_records persisted records) bucket)
    ∙ elim (Option-cases (lookup code records)) [
      | inl gone ↦ elim (Option-cases (lookup code persisted)) [
        | inl unknown ↦ rw (
          among-removed_codes persisted records code,
          is_missing-none persisted code unknown,
          lookup-put_all code (changed_records persisted records) bucket,
          lookup-changed_none persisted records code gone,
          same code,
          unknown,
          gone,
        )
        | inr (held, known) ↦ rw (
          among-removed_codes persisted records code,
          is_missing-some persisted code held known,
          is_missing-none records code gone,
          gone,
        )
      ]
      | inr (held, found) ↦ elim (Bool-cases (data_at persisted code == held)) [
        | inl y ↦ rw (
          among-removed_codes persisted records code,
          is_missing-some records code held found,
          and_false (not (is_missing persisted code)),
          lookup-put_all code (changed_records persisted records) bucket,
          lookup-changed_some persisted records code held distinct found,
          y,
          same code,
          lookup-data_at persisted code held (λ empty. nonempty code (found ∙ ap some empty))
              ((==-iff (data_at persisted code) held).0 y),
          found,
        )
        | inr n ↦ rw (
          among-removed_codes persisted records code,
          is_missing-some records code held found,
          and_false (not (is_missing persisted code)),
          lookup-put_all code (changed_records persisted records) bucket,
          lookup-changed_some persisted records code held distinct found,
          n,
          found,
        )
      ]
    ]

-- What a flush promises for the records that it is given: a record that does not encode or a
-- transaction that does not commit is an error that leaves the store as it was; else the flush succeeds,
-- and the database and the server's memory of it hold exactly the records.
unfoldable pub Flushed : Option (Map Bytes Bytes) → Bool → Store → Bool × Store → Type 0
Flushed none commits store result = result ≡ (false, store)
Flushed (some records) commits store result =
    ((commits ≡ false) × (result ≡ (false, store)))
    ⊎ ((result.0 ≡ true) × IsSameMap result.1.rooms records × IsSameMap result.1.persisted records)

is_nil-nil : {A : Type 0} (xs : List A) → is_nil xs ≡ true → xs ≡ []
is_nil-nil [] e = refl
is_nil-nil (x ∷ xs) e = cc

-- Nothing to write means that the bucket is what the changes would make of it.
apply_changes-idle :
    (store : Store) (records : Map Bytes Bytes) (now : ℕ) (bucket : Map Bytes Bytes)
    → is_idle store records now ≡ true
    → apply_changes store.persisted records bucket ≡ bucket
unfolding is_idle apply_changes put_all delete_all
apply_changes-idle store records now bucket idle =
    let parts =
      &&-true (is_nil (changed_records store.persisted records))
        (is_nil (removed_codes store.persisted records)
          && ltb (now - store.last_flush) flush_heartbeat)
        idle in
    let removed =
      &&-true (is_nil (removed_codes store.persisted records))
        (ltb (now - store.last_flush) flush_heartbeat) parts.1 in
    rw (is_nil-nil _ removed.0, is_nil-nil _ parts.0)

-- For records under distinct codes, none of them empty, and a store whose bucket holds what the server
-- remembers: a flush is an error that changes nothing if a record does not encode, or if the transaction
-- does not commit; otherwise it succeeds, and afterwards the bucket and the server's memory hold exactly
-- the records, also if nothing was written.
pub flush_state-Flushed :
    (force : Bool) (records : Option (Map Bytes Bytes)) (now now_ms : ℕ) (commits : Bool)
    (store : Store)
    → ((found : Map Bytes Bytes) → records ≡ some found → IsMap found)
    → ((found : Map Bytes Bytes) (code : Bytes)
        → records ≡ some found
        → lookup code found ≢ some [])
    → IsSameMap store.rooms store.persisted
    → Flushed records commits store (flush_state force records now now_ms commits store)
unfolding flush_state Flushed
flush_state-Flushed force none now now_ms commits store distinct nonempty same = refl
flush_state-Flushed force (some records) now now_ms commits store distinct nonempty same =
    let written : (bucket : Map Bytes Bytes)
        → IsSameMap bucket store.persisted
        → IsSameMap (apply_changes store.persisted records bucket) records =
      λ bucket equal.
        apply_changes-IsSameMap store.persisted records bucket (distinct records refl)
          (λ code. nonempty records code refl) equal in
    if_keeps (Flushed (some records) commits store) (not force && is_idle store records now)
      (λ e.
        let idle = (&&-true (not force) (is_idle store records now) e).1 in
        inr (
          refl,
          subst (λ m. IsSameMap m records) (apply_changes-idle store records now store.rooms idle)
              (written store.rooms same),
          subst (λ m. IsSameMap m records)
              (apply_changes-idle store records now store.persisted idle)
              (written store.persisted (λ code. refl)),
        ))
      (λ _.
        if_keeps (Flushed (some records) commits store) (not commits)
          (λ fails. inl (unnot commits fails, refl))
          (λ _. inr (refl, written store.rooms same, written store.persisted (λ code. refl))))
