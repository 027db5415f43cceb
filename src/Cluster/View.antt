-- ===== src/Cluster/View.antt =====
-- storage/cluster/view.go: what a node knows of the shards from the gossip of all nodes. The map of
-- the view is a function from shard identifiers; the nodes of a shard, a map of dragonboat, are of any
-- type with an empty value.
pub mod Newest
use regatta.Prelude.{
  ℕ, ◌&&◌, ◌||◌, Bool, not, Option, none, some, List, [], ◌∷◌, map, ltb, ◌==◌, if◌then◌else◌,
}

abbrev pub no_leader : ℕ
no_leader = 0

-- dragonboat.ShardView
pub record ShardView (N : Type 0) : Type 0 where
  pub shard_id : ℕ
  pub nodes : N
  pub config_change_index : ℕ
  pub leader_id : ℕ
  pub term : ℕ

-- dragonboat.ShardInfo, of which the view takes these fields
pub record ShardInfo (N : Type 0) : Type 0 where
  pub shard_id : ℕ
  pub replica_id : ℕ
  pub nodes : N
  pub config_change_index : ℕ
  pub leader_id : ℕ
  pub term : ℕ

-- shardView
abbrev pub View : Type 0 → Type 0
View N = ℕ → Option (ShardView N)

-- newView
abbrev pub new_view : {N : Type 0} → View N
new_view id = none

abbrev merge_config : {N : Type 0} → ShardView N → ShardView N → ShardView N
merge_config current update =
    if ltb current.config_change_index update.config_change_index
    then record current { nodes = update.nodes; config_change_index = update.config_change_index }
    else current

abbrev merge_leader : {N : Type 0} → ShardView N → ShardView N → ShardView N
merge_leader current update =
    if not (update.leader_id == no_leader)
      && (current.leader_id == no_leader || ltb current.term update.term)
    then record current { leader_id = update.leader_id; term = update.term }
    else current

-- mergeShardInfo
unfoldable pub merge_shard_info : {N : Type 0} → ShardView N → ShardView N → ShardView N
merge_shard_info current update = merge_leader (merge_config current update) update

-- toShardViewList
unfoldable pub to_shard_view_list : {N : Type 0} → List (ShardInfo N) → List (ShardView N)
to_shard_view_list input =
    map
      (λ ci. record {
        shard_id = ci.shard_id;
        nodes = ci.nodes;
        config_change_index = ci.config_change_index;
        leader_id = ci.leader_id;
        term = ci.term;
      })
      input

module _ {N : Type 0} (no_nodes : N) where
  -- dragonboat.ShardView{ShardID: id}
  abbrev pub blank : ℕ → ShardView N
  blank id = record {
    shard_id = id;
    nodes = no_nodes;
    config_change_index = 0;
    leader_id = 0;
    term = 0;
  }

  abbrev pub or_blank : ℕ → Option (ShardView N) → ShardView N
  or_blank id none = blank id
  or_blank id (some current) = current

  -- One round of the loop of update.
  abbrev pub update_one : View N → ShardView N → View N
  update_one v u id =
      if id == u.shard_id
      then some (merge_shard_info (or_blank u.shard_id (v u.shard_id)) u)
      else v id

  -- shardView.update
  unfoldable pub update : View N → List (ShardView N) → View N
  update v [] = v
  update v (u ∷ updates) = update (update_one v u) updates

  -- shardView.shardInfo, which is the zero value for a shard that is not known
  unfoldable pub shard_info : View N → ℕ → ShardView N
  shard_info v id = or_blank 0 (v id)
