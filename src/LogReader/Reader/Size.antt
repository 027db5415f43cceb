-- ===== src/LogReader/Reader/Size.antt =====
-- fixSize cuts the entries where their size reaches the limit.
use regatta.Prelude.{
  ℕ, suc, ◌+◌, ◌≤◌, ◌<◌, ◌≡◌, ◌⊎◌, inl, inr, refl, ap, Bool-cases, List, [], ◌∷◌, take, leb, arith,
}
use regatta.LogReader.Cache.{Entry}
use regatta.LogReader.Reader.{fix_size_loop, fix_size}

-- The size of the entries together.
unfoldable pub total_size : List Entry → ℕ
total_size [] = 0
total_size (e ∷ es) = e.size_upper_limit + total_size es

-- The largest number of entries at the front of `es` that stay under the limit.
pub record IsCut (es r : List Entry) (size max_size : ℕ) : Type 0 where
  pub count : ℕ
  pub prefix : r ≡ take count es
  pub fits : (r ≡ []) ⊎ (size + total_size r < max_size)
  pub full : (r ≡ es) ⊎ (max_size ≤ size + total_size (take (suc count) es))

fits-cons :
    (e : Entry) (r : List Entry) (size max_size : ℕ)
    → size + e.size_upper_limit < max_size
    → ((r ≡ []) ⊎ (size + e.size_upper_limit + total_size r < max_size))
    → size + total_size (e ∷ r) < max_size
unfolding total_size
fits-cons e r size max_size l (inl h) = rw h (omega (arith, l))
fits-cons e r size max_size l (inr h) = omega (arith, h)

full-cons :
    (e : Entry) (es r : List Entry) (n size max_size : ℕ)
    → ((r ≡ es) ⊎ (max_size ≤ size + e.size_upper_limit + total_size (take (suc n) es)))
    → ((e ∷ r ≡ e ∷ es) ⊎ (max_size ≤ size + total_size (take (suc (suc n)) (e ∷ es))))
unfolding total_size
full-cons e es r n size max_size (inl h) = inl (ap (◌∷◌ e) h)
full-cons e es r n size max_size (inr h) = inr (omega (arith, h))

loop-IsCut :
    (es : List Entry) (size max_size : ℕ) → IsCut es (fix_size_loop es size max_size) size max_size
unfolding fix_size_loop total_size
loop-IsCut [] size max_size = record { count = 0; prefix = refl; fits = inl refl; full = inl refl }
loop-IsCut (e ∷ es) size max_size = elim (Bool-cases (leb max_size (size + e.size_upper_limit))) [
  | inl over ↦
      rw over
        (record { count = 0; prefix = refl; fits = inl refl; full = inr (ground (arith, over)) })
  | inr under ↦
      let rest = loop-IsCut es (size + e.size_upper_limit) max_size in
      rw under (record {
        count = suc rest.count;
        prefix = ap (◌∷◌ e) rest.prefix;
        fits = inr (fits-cons e _ size max_size (ground (arith, under)) rest.fits);
        full = full-cons e es _ rest.count size max_size rest.full;
      })
]

-- fixSize returns the entries at the front, as many as stay under the limit together: those that it
-- returns do, if there are any, and with one more entry they would not, if one is left out. So an
-- entry in front that is as large as the limit leaves none.
pub fix_size-IsCut : (es : List Entry) (max_size : ℕ) → IsCut es (fix_size es max_size) 0 max_size
unfolding fix_size
fix_size-IsCut es max_size = loop-IsCut es 0 max_size
