-- ===== src/Fencing/Resource.antt =====
-- `FencedResourceServer` and `UnfencedResourceServer` of fencing-tokens/fencing_tokens.py, over any
-- type of values.
pub mod Stale
use ddia_implementations.Prelude.{
  ℕ, ◌<◌, String, Option, none, some, [], ltb, if◌then◌else◌, string_key,
}
use ddia_implementations.Dict
use ddia_implementations.Dict.{Dict}

-- the dict that the writes return; `error` is a message in the program
pub data Reply : Type 0 where
  success : Reply
  stale : ℕ → ℕ → Reply
  not_held : String → Reply
  lock_expired : String → Reply

abbrev pub or_zero : Option ℕ → ℕ
or_zero none = 0
or_zero (some n) = n

module _ {V : Type 0} where
  abbrev pub or_empty : Option (Dict String V) → Dict String V
  or_empty none = []
  or_empty (some d) = d

  -- self._data[resource][key] = value, after the inner dict is made
  unfoldable pub put_value :
      Dict String (Dict String V) → String → String → V → Dict String (Dict String V)
  put_value d resource key value =
      Dict.put d resource (Dict.put (or_empty (Dict.get d resource)) key value)

  -- self._data.get(resource, {}).get(key)
  unfoldable pub get_value : Dict String (Dict String V) → String → String → Option V
  get_value d resource key = Dict.get (or_empty (Dict.get d resource)) key

pub record FencedResourceServer (V : Type 0) : Type 0 where
  pub contents : Dict String (Dict String V)
  pub highest_token : Dict String ℕ

pub record UnfencedResourceServer (V : Type 0) : Type 0 where
  pub contents : Dict String (Dict String V)

module _ {V : Type 0} where
  unfoldable pub get_highest_token : FencedResourceServer V → String → ℕ
  get_highest_token s resource = or_zero (Dict.get s.highest_token resource)

  unfoldable pub write :
      FencedResourceServer V → String → String → V → ℕ → FencedResourceServer V × Reply
  unfolding get_highest_token put_value
  write s resource key value fencing_token =
      let highest = get_highest_token s resource in
      if ltb fencing_token highest then (s, stale fencing_token highest) else (
        record {
          contents = put_value s.contents resource key value;
          highest_token = Dict.put s.highest_token resource fencing_token;
        },
        success,
      )

  unfoldable pub read : FencedResourceServer V → String → String → Option V
  unfolding get_value
  read s resource key = get_value s.contents resource key

  unfoldable pub write_unfenced :
      UnfencedResourceServer V → String → String → V → UnfencedResourceServer V × Reply
  unfolding put_value
  write_unfenced s resource key value =
      (record { contents = put_value s.contents resource key value }, success)

  unfoldable pub read_unfenced : UnfencedResourceServer V → String → String → Option V
  unfolding get_value
  read_unfenced s resource key = get_value s.contents resource key
