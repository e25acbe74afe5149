-- ===== src/PolicyFile.antt =====
-- loadUAPolicy of internal/server/uapolicy.go: the policy that a file makes, and its reload by a signal. Reading the
-- file and JSON are parameters.
pub mod Sound
use metroserver.Prelude.{
  Option, none, some, List, [], ◌∷◌, ◌++◌, Bytes, bytes, if◌then◌else◌, bytes_eq_instance, ◌==◌,
}
use metroserver.Limits.{max_track_title_length}
use metroserver.Utf8.{trim_space}
use metroserver.Validation.{sanitize_string}
use metroserver.Policy.{UaPolicy, lower_patterns}

-- DefaultAdvertTitle: a warning sign, and a dash, in UTF-8.
abbrev pub default_advert_title : Bytes
default_advert_title =
    (0xE2 ∷ 0x9A ∷ 0xA0 ∷ 0xEF ∷ 0xB8 ∷ 0x8F ∷ [])
    ++ (bytes " Unofficial client "
        ++ ((0xE2 ∷ 0x80 ∷ 0x94 ∷ [])
            ++ bytes " get Metrolist: github.com/MetrolistGroup/Metrolist"))

abbrev pub default_ua_policy : UaPolicy
default_ua_policy = record {
  block = [];
  rickroll = [];
  advert = [];
  advert_title = default_advert_title;
}

-- uaPolicyFile; its entry "allow" is not used.
pub record UaPolicyFile : Type 0 where
  pub block : List Bytes
  pub rickroll : List Bytes
  pub advert : List Bytes
  pub advert_title : Bytes

-- What the decoder finds in the data: not the JSON of a policy, null, more than one value, or one policy.
pub data Parsed : Type 0 where
  not_json null_value several_values : Parsed
  one_policy : UaPolicyFile → Parsed

module _ (to_lower : Bytes → Bytes) where
  -- The policy of a parsed file.
  unfoldable pub policy_of : UaPolicyFile → UaPolicy
  policy_of file =
      let title = sanitize_string (trim_space file.advert_title) max_track_title_length in
      record {
        block = lower_patterns to_lower file.block;
        rickroll = lower_patterns to_lower file.rickroll;
        advert = lower_patterns to_lower file.advert;
        advert_title = if title == [] then default_advert_title else title;
      }

  -- none is an error. The first argument reads a file.
  unfoldable pub load_ua_policy :
      (Bytes → Option Bytes) → (Bytes → Parsed) → Bytes → Option UaPolicy
  unfolding policy_of
  load_ua_policy read_file parse path =
      if path == [] then some default_ua_policy else elim (read_file path) [
        | none ↦ none
        | some content ↦ elim (parse content) [
          | not_json ↦ none
          | null_value ↦ none
          | several_values ↦ none
          | one_policy file ↦ some (policy_of file)
        ]
      ]

  -- The reload by SIGHUP: a policy that does not load leaves the current one.
  unfoldable pub reload_ua_policy :
      (Bytes → Option Bytes) → (Bytes → Parsed) → Bytes → UaPolicy → UaPolicy
  unfolding load_ua_policy
  reload_ua_policy read_file parse path current = elim (load_ua_policy read_file parse path) [
    | none ↦ current
    | some policy ↦ policy
  ]
