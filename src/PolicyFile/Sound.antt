-- ===== src/PolicyFile/Sound.antt =====
-- A policy that the server works with has no pattern that fits everybody, and a title.
use metroserver.Prelude.{
  ◌≤◌, ◌≡◌, ◌≢◌, ◌⊎◌, refl, inl, inr, true, false, Option, none, some, List, [], ◌∷◌, Bytes, bytes,
  length, All, if_keeps, some_keeps, ==-iff, arith, bytes_eq_instance, ◌==◌,
}
use metroserver.Limits.{max_track_title_length}
use metroserver.Utf8.{trim_space}
use metroserver.Validation.{sanitize_string}
use metroserver.Validation.Bounds.{length-sanitize_string}
use metroserver.Policy.{UaPolicy, lower_patterns}
use metroserver.PolicyFile.{
  default_advert_title, default_ua_policy, UaPolicyFile, Parsed, not_json, null_value,
  several_values, one_policy, policy_of, load_ua_policy, reload_ua_policy,
}

abbrev pub AreNonempty : List Bytes → Type 0
AreNonempty patterns = All (λ pattern. pattern ≢ []) patterns

pub record IsUsable (p : UaPolicy) : Type 0 where
  pub block : AreNonempty p.block
  pub rickroll : AreNonempty p.rickroll
  pub advert : AreNonempty p.advert
  pub titled : p.advert_title ≢ []
  pub title_bound : length p.advert_title ≤ max_track_title_length

nonempty : (s : Bytes) → s == [] ≡ false → s ≢ []
nonempty s h e = let y : s == [] ≡ true = (==-iff s []).1 e in cc

lower_patterns-AreNonempty :
    (to_lower : Bytes → Bytes) (patterns : List Bytes)
    → AreNonempty (lower_patterns to_lower patterns)
unfolding lower_patterns
lower_patterns-AreNonempty to_lower [] = tt
lower_patterns-AreNonempty to_lower (pattern ∷ rest) =
    let more = lower_patterns-AreNonempty to_lower rest in
    if_keeps AreNonempty (to_lower (trim_space pattern) == []) (λ _. more)
      (λ n. (nonempty (to_lower (trim_space pattern)) n, more))

abbrev IsTitle : Bytes → Type 0
IsTitle title = (title ≢ []) × (length title ≤ max_track_title_length)

default_advert_title-IsTitle : IsTitle default_advert_title
unfolding bytes
default_advert_title-IsTitle = (λ e. cc, omega arith)

policy_of-IsUsable :
    (to_lower : Bytes → Bytes) (file : UaPolicyFile) → IsUsable (policy_of to_lower file)
unfolding policy_of
policy_of-IsUsable to_lower file =
    let title = sanitize_string (trim_space file.advert_title) max_track_title_length in
    let titled =
      if_keeps IsTitle (title == []) (λ _. default_advert_title-IsTitle)
        (λ n. (
          nonempty title n,
          length-sanitize_string (trim_space file.advert_title) max_track_title_length,
        )) in
    record {
      block = lower_patterns-AreNonempty to_lower file.block;
      rickroll = lower_patterns-AreNonempty to_lower file.rickroll;
      advert = lower_patterns-AreNonempty to_lower file.advert;
      titled = titled.0;
      title_bound = titled.1;
    }

pub default_ua_policy-IsUsable : IsUsable default_ua_policy
default_ua_policy-IsUsable = record {
  block = tt;
  rickroll = tt;
  advert = tt;
  titled = default_advert_title-IsTitle.0;
  title_bound = default_advert_title-IsTitle.1;
}

-- A policy that loads is usable.
IsLoaded : Option UaPolicy → Type 0
IsLoaded none = Unit
IsLoaded (some policy) = IsUsable policy

module _ (to_lower : Bytes → Bytes) (read_file : Bytes → Option Bytes) (parse : Bytes → Parsed)
    (path : Bytes) where
  parsed-IsLoaded :
      (p : Parsed)
      → IsLoaded (elim p as (λ _. Option UaPolicy) [
        | not_json ↦ none
        | null_value ↦ none
        | several_values ↦ none
        | one_policy file ↦ some (policy_of to_lower file)
      ])
  unfolding IsLoaded
  parsed-IsLoaded not_json = tt
  parsed-IsLoaded null_value = tt
  parsed-IsLoaded several_values = tt
  parsed-IsLoaded (one_policy file) = policy_of-IsUsable to_lower file

  load_ua_policy-IsLoaded : IsLoaded (load_ua_policy to_lower read_file parse path)
  unfolding load_ua_policy IsLoaded
  load_ua_policy-IsLoaded =
      if_keeps IsLoaded (path == []) (λ _. default_ua_policy-IsUsable)
        (λ _.
          some_keeps IsLoaded (read_file path) (λ _. tt)
            (λ content e. parsed-IsLoaded (parse content)))

  -- Whatever the file holds, a reload leaves a policy without empty patterns, which would fit every User-Agent, and
  -- with a title of 1 to 200 bytes, if the current policy is one. It is the loaded policy, or the current one if none
  -- loads.
  pub reload_ua_policy-IsUsable :
      (current : UaPolicy)
      → IsUsable current
      → IsUsable (reload_ua_policy to_lower read_file parse path current)
        × ((load_ua_policy to_lower read_file parse path
              ≡ some (reload_ua_policy to_lower read_file parse path current))
            ⊎ ((load_ua_policy to_lower read_file parse path ≡ none)
                × (reload_ua_policy to_lower read_file parse path current ≡ current)))
  unfolding reload_ua_policy IsLoaded
  reload_ua_policy-IsUsable current h =
      next (load_ua_policy to_lower read_file parse path) refl load_ua_policy-IsLoaded
    where
      next :
          (loaded : Option UaPolicy)
          → load_ua_policy to_lower read_file parse path ≡ loaded
          → IsLoaded loaded
          → IsUsable (reload_ua_policy to_lower read_file parse path current)
            × ((load_ua_policy to_lower read_file parse path
                  ≡ some (reload_ua_policy to_lower read_file parse path current))
                ⊎ ((load_ua_policy to_lower read_file parse path ≡ none)
                    × (reload_ua_policy to_lower read_file parse path current ≡ current)))
      next none e k = rw (reload_ua_policy, e) (h, inr (refl, refl))
      next (some policy) e k = rw (reload_ua_policy, e) (k, inl refl)
