-- ===== src/Cluster/Tests.antt =====
-- Gossip about two shards, whose nodes are numbers here.
use regatta.Prelude.{ℕ, none, List, [], ◌∷◌}
use regatta.Cluster.View.{ShardView, new_view, update}
use regatta.Cluster.View.Newest.{Knows, about, update-IsNewest}

abbrev report : ℕ → ℕ → ℕ → ℕ → ShardView ℕ
report id config leader term = record {
  shard_id = id;
  nodes = config;
  config_change_index = config;
  leader_id = leader;
  term = term;
}

-- The newest configuration comes with no leader.
abbrev reports : List (ShardView ℕ)
reports = report 1 5 2 7 ∷ report 2 1 1 1 ∷ report 1 6 0 9 ∷ report 1 4 3 6 ∷ []

update-IsNewest_example : Knows 0 1 none (about 1 reports) (update 0 new_view reports 1)
update-IsNewest_example = update-IsNewest 0 new_view 1 reports
