-- ===== src/ShardRouter/Examples.antt =====
-- A ring of two shards, two places each, with the sum of the codes of a text as its hash.
use kos_db.Base.{ℕ, ◌+◌, ◌≡◌, refl, true, List, [], ◌∷◌, ok}
use kos_db.Dict.{get, put}
use kos_db.Dict.Values.{keys}
use kos_db.Text.{Text, text_key, codes, str_nat}
use kos_db.ShardRouter.{Shard, get_shard, remove_shard, add_shard, sort_keys}
use kos_db.ShardRouter.Histories.{Call, add, new_ring, run, remove_shard-keeps}

abbrev code_sum : Text → ℕ
code_sum [] = 0
code_sum (c ∷ t) = c + code_sum t

abbrev shard : Text → Shard
shard id = record {
  shard_id = id;
  host = codes "localhost";
  port = 9000;
  region = codes "default";
  role = codes "primary";
  weight = 100;
  active = true;
  metadata = [];
}

abbrev calls : List Call
calls = add (shard (codes "a")) ∷ add (shard (codes "b")) ∷ []

remove_shard-keeps_example :
    get_shard code_sum
      (codes "x")
      (remove_shard code_sum (codes "b") (run code_sum calls (new_ring 2)))
    ≡ ok (shard (codes "a"))
unfolding get_shard run add_shard put str_nat sort_keys keys get
remove_shard-keeps_example =
    remove_shard-keeps code_sum 2 calls (codes "x") (codes "b") (shard (codes "a")) refl refl
