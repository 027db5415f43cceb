-- ===== src/Fsm/Spec/Effects.antt =====
-- What the changes of the specification do to the values of the user keys and to the system keys.
use regatta.Prelude.{
  ◌≡◌, refl, ◌∙◌, Bool, false, not, ◌&&◌, ◌||◌, Option, none, some, if◌then◌else◌, Bool-cases, inl,
  inr,
}
use regatta.Bytes.{Bytes, compare_bytes, less, equal}
use regatta.Pebble.OrderedMap
use regatta.Pebble.OrderedMap.{Entries, insert, remove, remove_range, in_range}
use regatta.Pebble.OrderedMap.Laws.{lookup-insert, lookup-remove, lookup-remove_range}
use regatta.Fsm.Keys.{sys_local_index, sys_leader_index, wildcard}
use regatta.Fsm.Keys.Order.{user_key, max_bound_lem}
use regatta.Fsm.Query.Reads.{bound}
use regatta.Fsm.Messages.{RequestDeleteRange}
use regatta.Fsm.Spec.{value_of}

-- The keys that a deletion names: one, or those of [key, range_end), or all from the key on.
abbrev pub is_named : RequestDeleteRange → Option Bytes → Bytes → Bool
is_named del none j = equal j del.key
is_named del (some end) j = not (less j del.key) && (equal end wildcard || less j end)

in_range_lem :
    (lo end j : Bytes)
    → in_range (user_key lo) (bound end) (user_key j)
      ≡ (not (less j lo) && (equal end wildcard || less j end))
unfolding compare_bytes
in_range_lem lo end j = elim (Bool-cases (equal end wildcard)) [
  | inl e ↦ rw (e, max_bound_lem) refl
  | inr e ↦ rw e refl
]

pub value_of-insert :
    (k j v : Bytes) (m : Entries)
    → value_of j (insert (user_key k) v m) ≡ (if equal k j then some v else value_of j m)
unfolding compare_bytes
value_of-insert k j v m = lookup-insert (user_key k) (user_key j) v m

-- The entries after a deletion.
abbrev pub without : RequestDeleteRange → Option Bytes → Entries → Entries
without del none m = remove (user_key del.key) m
without del (some end) m = remove_range (user_key del.key) (bound end) m

pub value_of-without :
    (del : RequestDeleteRange) (end : Option Bytes) (j : Bytes) (m : Entries)
    → value_of j (without del end m) ≡ (if is_named del end j then none else value_of j m)
unfolding compare_bytes
value_of-without del none j m = lookup-remove (user_key del.key) (user_key j) m
value_of-without del (some end) j m =
    rw (← in_range_lem del.key end j)
      (lookup-remove_range (user_key del.key) (bound end) (user_key j) m)

-- The two system keys keep their values.
pub record SameSystem (m m' : Entries) : Type 0 where
  pub local : OrderedMap.lookup sys_local_index m' ≡ OrderedMap.lookup sys_local_index m
  pub leader : OrderedMap.lookup sys_leader_index m' ≡ OrderedMap.lookup sys_leader_index m

pub insert-SameSystem : (k v : Bytes) (m : Entries) → SameSystem m (insert (user_key k) v m)
unfolding compare_bytes sys_local_index sys_leader_index
insert-SameSystem k v m = record {
  local = lookup-insert (user_key k) sys_local_index v m;
  leader = lookup-insert (user_key k) sys_leader_index v m;
}

outside_local : (lo end : Bytes) → in_range (user_key lo) (bound end) sys_local_index ≡ false
unfolding compare_bytes sys_local_index
outside_local lo end = elim (Bool-cases (equal end wildcard)) [
  | inl e ↦ rw (e, max_bound_lem) refl
  | inr e ↦ rw e refl
]

outside_leader : (lo end : Bytes) → in_range (user_key lo) (bound end) sys_leader_index ≡ false
unfolding compare_bytes sys_leader_index
outside_leader lo end = elim (Bool-cases (equal end wildcard)) [
  | inl e ↦ rw (e, max_bound_lem) refl
  | inr e ↦ rw e refl
]

pub without-SameSystem :
    (del : RequestDeleteRange) (end : Option Bytes) (m : Entries) → SameSystem m (without del end m)
unfolding compare_bytes sys_local_index sys_leader_index
without-SameSystem del none m = record {
  local = lookup-remove (user_key del.key) sys_local_index m;
  leader = lookup-remove (user_key del.key) sys_leader_index m;
}
without-SameSystem del (some end) m = record {
  local = lookup-remove_range _ _ sys_local_index m ∙ rw (outside_local del.key end);
  leader = lookup-remove_range _ _ sys_leader_index m ∙ rw (outside_leader del.key end);
}
