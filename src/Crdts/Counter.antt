-- ===== src/Crdts/Counter.antt =====
-- `GCounter` and `PNCounter` of conflict-free-replicated-data-types/crdts.py. Amounts are natural
-- numbers, so that the `ValueError` of a negative one cannot occur. Of `PNCounter` the value, a
-- difference, is left out.
use ddia_implementations.Prelude.{ℕ, ◌+◌, String, string_key, [], ◌∷◌, max, get_or}
use ddia_implementations.Dict
use ddia_implementations.Dict.{Dict}

pub record GCounter : Type 0 where
  pub replica_id : String
  pub counts : Dict String ℕ

abbrev pub init : String → GCounter
init id = record { replica_id = id; counts = [] }

unfoldable pub get_count : Dict String ℕ → String → ℕ
get_count d rid = get_or (Dict.get d rid) 0

unfoldable pub increment : GCounter → ℕ → GCounter
increment c amount = record c {
  counts = Dict.put c.counts c.replica_id (get_count c.counts c.replica_id + amount);
}

unfoldable pub sum : Dict String ℕ → ℕ
sum [] = 0
sum ((rid, n) ∷ d) = n + sum d

unfoldable pub value : GCounter → ℕ
unfolding sum
value c = sum c.counts

-- the loop of `merge`
unfoldable pub merge_counts : Dict String ℕ → Dict String ℕ → Dict String ℕ
merge_counts counts [] = counts
merge_counts counts ((rid, n) ∷ other) =
    merge_counts (Dict.put counts rid (max (get_count counts rid) n)) other

unfoldable pub merge : GCounter → GCounter → GCounter
unfolding merge_counts
merge c other = record c { counts = merge_counts c.counts other.counts }

pub record PnCounter : Type 0 where
  pub p : GCounter
  pub n : GCounter

unfoldable pub increment_pn : PnCounter → ℕ → PnCounter
increment_pn c amount = record c { p = increment c.p amount }

unfoldable pub decrement_pn : PnCounter → ℕ → PnCounter
decrement_pn c amount = record c { n = increment c.n amount }

unfoldable pub merge_pn : PnCounter → PnCounter → PnCounter
merge_pn c other = record { p = merge c.p other.p; n = merge c.n other.n }
