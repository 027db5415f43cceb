-- ===== src/Fsm/Spec/Users.antt =====
-- The entries of a table without its system keys: commands read and change nothing else, so that two
-- databases which agree on the user keys agree on them after the same commands.
pub mod Commands
use regatta.Prelude.{
  ◌≡◌, refl, sym, ap, ◌∙◌, Bool, true, false, not, ◌&&◌, Option, none, some, [], ◌∷◌, Ordering,
  if◌then◌else◌, Bool-cases, inl, inr, arith,
}
use regatta.Bytes.{Bytes, compare_bytes, equal, less}
use regatta.Bytes.Order.{lt_trans, gt_of_lt, lt_of_gt, eq_of_compare, compare_bytes_refl}
use regatta.Pebble.OrderedMap
use regatta.Pebble.OrderedMap.{
  Entries, insert, keep, in_range, remove, remove_range, range, IsAbove, IsSorted,
}
use regatta.Pebble.OrderedMap.Laws.{
  lookup-keep, IsAbove-keep, IsAbove-trans, IsSorted-insert, IsSorted-keep,
}
use regatta.Fsm.Keys.{wildcard, max_bound, sys_local_index, sys_leader_index}
use regatta.Fsm.Keys.Order.{user_key, max_bound_lem}
use regatta.Fsm.Query.Reads.{bound}
use regatta.Fsm.Spec.{value_of, between}
use mathlib.Core.Path.{fun_ext}

abbrev pub is_user : Bytes → Bool
is_user j = less j max_bound

-- The entries with a user key.
unfoldable pub users : Entries → Entries
users m = keep is_user m

is_user-user_key : (k : Bytes) → is_user (user_key k) ≡ true
unfolding compare_bytes
is_user-user_key k = rw max_bound_lem refl

-- What lies below the end of a range is a user key.
is_user-bound : (end j : Bytes) → less j (bound end) ≡ true → is_user j ≡ true
is_user-bound end j h = elim (Bool-cases (equal end wildcard)) [
  | inl w ↦ rw w at h
  | inr o ↦ ground (arith, rw o at h, lt_trans j (user_key end) max_bound, is_user-user_key end)
]

keep-keep : (p q : Bytes → Bool) (m : Entries) → keep p (keep q m) ≡ keep (λ j. q j && p j) m
unfolding keep
keep-keep p q [] = refl
keep-keep p q ((j, w) ∷ m) = elim (Bool-cases (q j)) [
  | inl e ↦ rw e (ground (arith, keep-keep p q m))
  | inr e ↦ rw e (keep-keep p q m)
]

insert-above : (k v : Bytes) (m : Entries) → IsAbove k m → insert k v m ≡ (k, v) ∷ m
unfolding insert
insert-above k v [] a = refl
insert-above k v ((j, w) ∷ m) a = ground (arith, gt_of_lt k j a.0)

-- Inserting a key that is kept, in front of entries or among them.
keep-insert_cons :
    (p : Bytes → Bool) (k v j w : Bytes) (m : Entries) (o : Ordering)
    → compare_bytes j k ≡ o
    → p k ≡ true
    → IsSorted ((j, w) ∷ m)
    → keep p (insert k v m) ≡ insert k v (keep p m)
    → keep p (insert k v ((j, w) ∷ m)) ≡ insert k v (keep p ((j, w) ∷ m))
unfolding keep insert
keep-insert_cons p k v j w m Ordering.lt o e s ih = elim (Bool-cases (p j)) [
  | inl kept ↦ rw (o, insert, kept, o, ih) refl
  | inr cut ↦ rw (o, insert, cut) ih
]
keep-insert_cons p k v j w m Ordering.eq o e s ih =
    rw (o, insert, ap p (eq_of_compare j k o) ∙ e, e, o) refl
keep-insert_cons p k v j w m Ordering.gt o e s ih =
    rw (o, insert, e)
      (sym (
        insert-above k v (keep p ((j, w) ∷ m)) (
          IsAbove-keep p k ((j, w) ∷ m)
            (lt_of_gt j k o, IsAbove-trans k j m (lt_of_gt j k o) s.0))))

keep-insert :
    (p : Bytes → Bool) (k v : Bytes) (m : Entries)
    → p k ≡ true
    → IsSorted m
    → keep p (insert k v m) ≡ insert k v (keep p m)
keep-insert p k v [] e s = unfold keep insert in rw e refl
keep-insert p k v ((j, w) ∷ m) e s =
    keep-insert_cons p k v j w m (compare_bytes j k) refl e s (keep-insert p k v m e s.1)

-- Inserting a key that is not kept.
keep-insert_cut :
    (p : Bytes → Bool) (k v : Bytes) (m : Entries) → p k ≡ false → keep p (insert k v m) ≡ keep p m
unfolding keep insert
keep-insert_cut p k v [] e = rw e refl
keep-insert_cut p k v ((j, w) ∷ m) e =
    ground (arith, keep-insert_cut p k v m e, ap p {x = j} {y = k}, eq_of_compare j k, e)

and_comm : (a b : Bool) → (a && b) ≡ (b && a)
and_comm a b = ground arith

keep_comm : (p q : Bytes → Bool) (m : Entries) → keep p (keep q m) ≡ keep q (keep p m)
keep_comm p q m = keep-keep p q m ∙ rw (fun_ext (λ j. and_comm (q j) (p j))) (sym (keep-keep q p m))

-- Two databases agree on the user keys.
pub record SameUsers (m n : Entries) : Type 0 where
  pub left_sorted : IsSorted m
  pub right_sorted : IsSorted n
  pub same : users m ≡ users n

pub value_of-users : (k : Bytes) (m : Entries) → value_of k (users m) ≡ value_of k m
unfolding users
value_of-users k m = lookup-keep is_user (user_key k) m ∙ rw (is_user-user_key k) refl

absorbed : (end lo j : Bytes) → (is_user j && in_range lo (bound end) j) ≡ in_range lo (bound end) j
absorbed end lo j = elim (Bool-cases (less j (bound end))) [
  | inl below ↦ rw (is_user-bound end j below) refl
  | inr beyond ↦ rw beyond (ground arith)
]

pub between-users : (k end : Bytes) (m : Entries) → between k end (users m) ≡ between k end m
unfolding users range
between-users k end m =
    keep-keep (in_range (user_key k) (bound end)) is_user m
    ∙ rw (fun_ext (absorbed end (user_key k))) refl

module _ {m n : Entries} (s : SameUsers m n) where
  pub same-value_of : (k : Bytes) → value_of k m ≡ value_of k n
  same-value_of k = sym (value_of-users k m) ∙ ap (value_of k) s.same ∙ value_of-users k n

  pub same-between : (k end : Bytes) → between k end m ≡ between k end n
  same-between k end =
      sym (between-users k end m) ∙ ap (between k end) s.same ∙ between-users k end n

  pub insert-SameUsers :
      (k v : Bytes) → SameUsers (insert (user_key k) v m) (insert (user_key k) v n)
  unfolding users
  insert-SameUsers k v = record {
    left_sorted = IsSorted-insert (user_key k) v m s.left_sorted;
    right_sorted = IsSorted-insert (user_key k) v n s.right_sorted;
    same =
        keep-insert is_user (user_key k) v m (is_user-user_key k) s.left_sorted
        ∙ ap (insert (user_key k) v) s.same
        ∙ sym (keep-insert is_user (user_key k) v n (is_user-user_key k) s.right_sorted);
  }

  keep-SameUsers : (p : Bytes → Bool) → SameUsers (keep p m) (keep p n)
  unfolding users
  keep-SameUsers p = record {
    left_sorted = IsSorted-keep p m s.left_sorted;
    right_sorted = IsSorted-keep p n s.right_sorted;
    same = keep_comm is_user p m ∙ ap (keep p) s.same ∙ keep_comm p is_user n;
  }

  pub remove-SameUsers : (k : Bytes) → SameUsers (remove k m) (remove k n)
  unfolding remove
  remove-SameUsers k = keep-SameUsers (λ j. not (equal j k))

  pub remove_range-SameUsers :
      (lo hi : Bytes) → SameUsers (remove_range lo hi m) (remove_range lo hi n)
  unfolding remove_range
  remove_range-SameUsers lo hi = keep-SameUsers (λ j. not (in_range lo hi j))

  -- A write of a system key on one side.
  pub insert_system-SameUsers : (k v : Bytes) → is_user k ≡ false → SameUsers m (insert k v n)
  unfolding users
  insert_system-SameUsers k v e = record {
    left_sorted = s.left_sorted;
    right_sorted = IsSorted-insert k v n s.right_sorted;
    same = s.same ∙ sym (keep-insert_cut is_user k v n e);
  }

pub SameUsers-sym : {m n : Entries} → SameUsers m n → SameUsers n m
SameUsers-sym s = record {
  left_sorted = s.right_sorted;
  right_sorted = s.left_sorted;
  same = sym s.same;
}

pub SameUsers-trans : {l m n : Entries} → SameUsers l m → SameUsers m n → SameUsers l n
SameUsers-trans s t = record {
  left_sorted = s.left_sorted;
  right_sorted = t.right_sorted;
  same = s.same ∙ t.same;
}

pub is_user-system : (is_user sys_local_index ≡ false) × (is_user sys_leader_index ≡ false)
unfolding compare_bytes sys_local_index sys_leader_index
is_user-system = (rw max_bound_lem refl, rw max_bound_lem refl)
